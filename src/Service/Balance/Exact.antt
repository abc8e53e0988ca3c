-- ===== src/Service/Balance/Exact.antt =====
-- CurrentBalance against the sum of an account's postings.
use ledger_x.Prelude.Int.{◌+ℤ◌, ℤ, zero-+ℤ, pos_part, neg_part, int_laws, +ℤ_comm, +ℤ_assoc}
use ledger_x.Prelude.{
  ◌≡◌, ◌∷◌, ◌∙◌, ◌^◌, ◌==◌, ◌<◌, ◌&&◌, ℕ, true, sym, some, refl, not, ltb, leb, inr, inl,
  if◌then◌else◌, false, arith, ap, [], Option-cases, List, Bool, All, ==_iff,
}
use ledger_x.Repo.Models.{Posting, Database, BalanceSnapshot}
use ledger_x.Service.Types.{Env}
use ledger_x.Repo.World.{
  unavailable, ◌>>=◌, unacknowledged, pure, one_row, ok, next_fault, later_faults, fine, failed,
  err, call, attempt, answer, World, Result, Fault, Error,
}
use ledger_x.Int64.{wrap64_id, add64, InRange}
use ledger_x.Service.Transactions.Ownership.{account_sum}
use ledger_x.Repo.Snapshots.{
  sum_up_to, sum_since, sum_postings_since, latest_snapshot, get_latest_snapshot, as_bigint,
}
use ledger_x.Service.Balance.{start_of, end_of_day, current_balance}
use ledger_x.Prelude.Kept.{where_rows_pass, where_rows-All, order_by-All, find_row-All}

-- The snapshot holds the sum of the postings up to the end of its day.
abbrev pub Holds : Env → List Posting → BalanceSnapshot → Type 0
Holds env ps s =
    s.balance_minor ≡ sum_up_to s.account_id (env.store_time (end_of_day s.as_of_date)) ps

abbrev pub IsExact : Env → Database → Type 0
IsExact env d = All (Holds env d.postings) d.balance_snapshots

-- Snapshot and delta cut the postings in two.
split_at :
    (a cutoff : ℕ) (ps : List Posting)
    → sum_up_to a cutoff ps +ℤ sum_since a cutoff ps ≡ account_sum a ps
split_at a cutoff [] = omega int_laws
split_at a cutoff (p ∷ ps) =
    parts (p.account_id == a) (leb p.created_at cutoff) (ltb cutoff p.created_at) p.amount_minor _ _
      _ (one_side p.created_at cutoff) (split_at a cutoff ps)
  where
    one_side : (t c : ℕ) → leb t c ≡ not (ltb c t)
    one_side t c = ground arith

    parts :
        (mine before after : Bool) (x s t u : ℤ)
        → before ≡ not after
        → s +ℤ t ≡ u
        → (if mine && before then x +ℤ s else s) +ℤ (if mine && after then x +ℤ t else t)
          ≡ (if mine then x +ℤ u else u)
    parts false before after x s t u h e = e
    parts true true true x s t u h e = cc
    parts true true false x s t u h e = rw (← e) (+ℤ_assoc x s t)
    parts true false true x s t u h e =
        rw (← e) (sym (+ℤ_assoc s x t) ∙ rw (+ℤ_comm s x) (+ℤ_assoc x s t))
    parts true false false x s t u h e = cc

-- With every posting after the zero time, the delta from there is the whole sum.
since_start :
    (a : ℕ) (ps : List Posting)
    → All (λ (p : Posting). 0 < p.created_at) ps
    → sum_since a 0 ps ≡ account_sum a ps
since_start a [] h = refl
since_start a (p ∷ ps) h =
    later (p.account_id == a) (ltb 0 p.created_at) p.amount_minor _ _ (ground arith)
      (since_start a ps h.1)
  where
    later :
        (mine after : Bool) (x s u : ℤ)
        → after ≡ true
        → s ≡ u
        → (if mine && after then x +ℤ s else s) ≡ (if mine then x +ℤ u else u)
    later false after x s u h e = e
    later true true x s u h e = rw e refl
    later true false x s u h e = cc

as_bigint_fits : (t : ℤ) (w : World) → InRange t → as_bigint t w ≡ (ok t, w)
unfolding as_bigint
as_bigint_fits t w h =
    let up : ltb (pos_part t) (2 ^ 63) ≡ true = ground arith in
    let down : leb (neg_part t) (2 ^ 63) ≡ true = ground arith in rw (up, down) refl

module _ (env : Env) (a : ℕ) (d : Database) where
  -- From here the delta completes the sum.
  abbrev Completes : Result BalanceSnapshot → Type 0
  Completes r =
      (start_of r).1 +ℤ sum_since a (env.store_time (start_of r).0) d.postings
      ≡ account_sum a d.postings

  record Looked (r : Result BalanceSnapshot × World) : Type 0 where
    db_same : r.1.db ≡ d
    next_fine : next_fault r.1.faults ≡ fine
    completes : Completes r.0

  without_snapshot :
      (e : Error)
      → env.store_time 0 ≡ 0
      → All (λ (p : Posting). 0 < p.created_at) d.postings
      → Completes (err e)
  without_snapshot e zero_kept after = rw zero_kept (zero-+ℤ _ ∙ since_start a d.postings after)

  with_snapshot :
      (s : BalanceSnapshot)
      → IsExact env d
      → latest_snapshot a d.balance_snapshots ≡ some s
      → Completes (ok s)
  with_snapshot s exact h =
      let mine : (s.account_id == a) ≡ true =
        find_row-All (λ (t : BalanceSnapshot). (t.account_id == a) ≡ true) (λ t. true) _ s
          (order_by-All _ _ _ (where_rows_pass _ d.balance_snapshots)) h in
      let holds : Holds env d.postings s =
        find_row-All (Holds env d.postings) (λ t. true) _ s
          (order_by-All _ _ _ (where_rows-All _ _ d.balance_snapshots exact)) h in
      let it : s.account_id ≡ a = (==_iff s.account_id a).0 mine in
      rw holds (rw it (split_at a (env.store_time (end_of_day s.as_of_date)) d.postings))

  looked :
      (f : Fault) (v : World)
      → v.db ≡ d
      → next_fault v.faults ≡ fine
      → env.store_time 0 ≡ 0
      → All (λ (p : Posting). 0 < p.created_at) d.postings
      → IsExact env d
      → Looked (answer f (λ w. one_row (latest_snapshot a w.db.balance_snapshots) w) v)
  unfolding answer
  looked failed v same next zero_kept after exact = record {
    db_same = same;
    next_fine = next;
    completes = without_snapshot unavailable zero_kept after;
  }
  looked fine v same next zero_kept after exact =
      elim (Option-cases (latest_snapshot a v.db.balance_snapshots)) [
        | inl missing ↦ rw missing (record {
          db_same = same;
          next_fine = next;
          completes = without_snapshot unavailable zero_kept after;
        })
        | inr (s, h) ↦ rw h (record {
          db_same = same;
          next_fine = next;
          completes = with_snapshot s exact (rw same at h);
        })
      ]
  looked unacknowledged v same next zero_kept after exact =
      elim (Option-cases (latest_snapshot a v.db.balance_snapshots)) [
        | inl missing ↦ rw missing (record {
          db_same = same;
          next_fine = next;
          completes = without_snapshot unavailable zero_kept after;
        })
        | inr (s, h) ↦ rw h (record {
          db_same = same;
          next_fine = next;
          completes = without_snapshot unavailable zero_kept after;
        })
      ]

  added :
      (r : Result BalanceSnapshot × World)
      → Looked r
      → ((since : ℕ) → InRange (sum_since a since d.postings))
      → InRange (account_sum a d.postings)
      → ((sum_postings_since a (env.store_time (start_of r.0).0) >>= λ delta.
            pure (add64 (start_of r.0).1 delta))
          r.1).0
        ≡ ok (account_sum a d.postings)
  unfolding sum_postings_since ◌>>=◌ call answer add64
  added r h deltas total =
      rw (h.next_fine, h.db_same, as_bigint_fits _ _ (deltas (env.store_time (start_of r.0).0)))
        (rw h.completes (ap ok (wrap64_id _ total)))

-- When every snapshot holds the sum up to the end of its day, every posting was created after
-- the zero time, the driver keeps the zero time, and the account's sum and its partial sums fit
-- an int64, CurrentBalance answers the sum of all postings of the account, however its lookup of
-- the snapshot ends, if its second query is answered.
pub current_balance_exact :
    (env : Env) (a : ℕ) (w : World) (f : Fault) (later : List Fault)
    → w.faults ≡ f ∷ fine ∷ later
    → env.store_time 0 ≡ 0
    → All (λ (p : Posting). 0 < p.created_at) w.db.postings
    → IsExact env w.db
    → ((since : ℕ) → InRange (sum_since a since w.db.postings))
    → InRange (account_sum a w.db.postings)
    → (current_balance env a w).0 ≡ ok (account_sum a w.db.postings)
unfolding current_balance attempt ◌>>=◌ get_latest_snapshot call
current_balance_exact env a w f later h zero_kept after exact deltas total =
    added env a w.db _
      (looked env a w.db (next_fault w.faults) (record w { faults = later_faults w.faults }) refl
        (rw h refl) zero_kept after exact)
      deltas total
