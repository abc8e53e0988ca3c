-- ===== src/Worker/Snapshots/Daily.antt =====
-- The tasks of a day, one after another, without faults.
use ledger_x.Repo.Models.{Database, BalanceSnapshot}
use ledger_x.Prelude.{
  sym, none, Option-cases, All, ==_iff, ◌≡◌, ◌∷◌, ◌∙◌, ◌^◌, ◌==◌, ◌++◌, ◌&&◌, ℕ, true, some, refl,
  ltb, leb, inr, inl, arith, [], List, Bool-cases, Bool,
}
use ledger_x.Service.Types.{Env}
use ledger_x.Repo.World.{◌>>=◌, call, answer, World}
use ledger_x.Repo.Transactions.{account_exists}
use ledger_x.Repo.Snapshots.{
  with_balance, upsert_snapshot, upsert_balance_snapshot, sum_up_to, sum_postings_up_to, same_day,
  as_bigint,
}
use ledger_x.Service.Balance.{handle_snapshot_account, end_of_day}
use ledger_x.Prelude.Select.{
  find_row_holds, update_rows, find_row, exists_row_last, exists_row-append, exists_row,
}
use ledger_x.Prelude.Int.{ℤ, pos_part, neg_part}
use ledger_x.Prelude.Kept.{find_row-All, All-imp}
use ledger_x.Service.Balance.Exact.{IsExact, Holds}
use ledger_x.Service.Balance.Snapshots.{handle_snapshot_account-IsExact}
use ledger_x.Worker.Snapshots.{snapshot_each}

abbrev pub cutoff_of : Env → ℕ → ℕ
cutoff_of env day = env.store_time (end_of_day day)

-- The account is there, and its sum up to the end of the day fits the column.
pub record IsSnappable (env : Env) (day : ℕ) (d : Database) (a : ℕ) : Type 0 where
  pub known : account_exists d a ≡ true
  pub fits :
      (ltb (pos_part (sum_up_to a (cutoff_of env day) d.postings)) (2 ^ 63)
        && leb (neg_part (sum_up_to a (cutoff_of env day) d.postings)) (2 ^ 63))
      ≡ true

-- The account has a snapshot of the day that is the sum of its postings up to the end of it.
pub record HasSnapshot (env : Env) (day : ℕ) (w : World) (a : ℕ) : Type 0 where
  pub row : BalanceSnapshot
  pub row_is : find_row (same_day a day) w.db.balance_snapshots ≡ some row
  pub balance_is : row.balance_minor ≡ sum_up_to a (cutoff_of env day) w.db.postings

exists_row-update :
    (p q : BalanceSnapshot → Bool) (f : BalanceSnapshot → BalanceSnapshot)
    (ss : List BalanceSnapshot)
    → ((s : BalanceSnapshot) → p (f s) ≡ p s)
    → exists_row p (update_rows q f ss) ≡ exists_row p ss
exists_row-update p q f [] h = refl
exists_row-update p q f (s ∷ ss) h = elim (Bool-cases (q s)) [
  | inl hit ↦ rw (hit, exists_row-update p q f ss h) (rw (h s) refl)
  | inr missed ↦ rw (missed, exists_row-update p q f ss h) refl
]

still_there :
    (p : BalanceSnapshot → Bool) (ss : List BalanceSnapshot) (s : BalanceSnapshot)
    → exists_row p ss ≡ true
    → exists_row p (ss ++ s ∷ []) ≡ true
still_there p ss s h = rw (exists_row-append p ss (s ∷ [])) (rw h refl)

-- What storing a snapshot leaves.
record Stored (a day : ℕ) (w v : World) : Type 0 where
  faults_same : v.faults ≡ w.faults
  accounts_same : v.db.accounts ≡ w.db.accounts
  postings_same : v.db.postings ≡ w.db.postings
  has : exists_row (same_day a day) v.db.balance_snapshots ≡ true
  keeps :
      (b : ℕ)
      → exists_row (same_day b day) w.db.balance_snapshots ≡ true
      → exists_row (same_day b day) v.db.balance_snapshots ≡ true

own_day : (a day : ℕ) → (a == a) && (day == day) ≡ true
own_day a day = ground arith

upsert_snapshot-Stored :
    (a day : ℕ) (balance : ℤ) (w : World)
    → account_exists w.db a ≡ true
    → Stored a day w (upsert_snapshot a day balance w).1
unfolding upsert_snapshot
upsert_snapshot-Stored a day balance w known =
    elim (Bool-cases (exists_row (same_day a day) w.db.balance_snapshots)) [
      | inl present ↦ rw present (record {
        faults_same = refl;
        accounts_same = refl;
        postings_same = refl;
        has =
            exists_row-update (same_day a day) (same_day a day) (with_balance balance)
              w.db.balance_snapshots (λ s. refl)
            ∙ present;
        keeps = λ b h.
            exists_row-update (same_day b day) (same_day a day) (with_balance balance)
              w.db.balance_snapshots (λ s. refl)
            ∙ h;
      })
      | inr absent ↦
          rw (absent, known)
            (record {
              faults_same = refl;
              accounts_same = refl;
              postings_same = refl;
              has = exists_row_last (same_day a day) w.db.balance_snapshots _ (own_day a day);
              keeps = λ b h. still_there (same_day b day) w.db.balance_snapshots _ h;
            })
    ]

task_runs :
    (env : Env) (a day : ℕ) (w : World)
    → w.faults ≡ []
    → IsSnappable env day w.db a
    → handle_snapshot_account env a day w
      ≡ upsert_snapshot a day
          (sum_up_to a (cutoff_of env day) w.db.postings)
          (record w { faults = [] })
unfolding handle_snapshot_account sum_postings_up_to upsert_balance_snapshot as_bigint call answer
    ◌>>=◌
task_runs env a day w h s = rw h (rw (s.fits) refl)

IsSnappable-later :
    (env : Env) (day : ℕ) (d d' : Database)
    → d'.accounts ≡ d.accounts
    → d'.postings ≡ d.postings
    → (a : ℕ) → IsSnappable env day d a
    → IsSnappable env day d' a
IsSnappable-later env day d d' e f a s = record { known = rw e s.known; fits = rw f s.fits }

row_found :
    (p : BalanceSnapshot → Bool) (ss : List BalanceSnapshot)
    → exists_row p ss ≡ true
    → find_row p ss ≡ none
    → ⊥
row_found p [] h k = cc
row_found p (s ∷ ss) h k = elim (Bool-cases (p s)) [
  | inl hit ↦ some_none (rw hit at k)
  | inr missed ↦ row_found p ss (rw missed at h) (rw missed at k)
]
  where
    some_none : some s ≡ none → ⊥
    some_none e = cc

snapshot_found :
    (env : Env) (a day : ℕ) (v : World)
    → IsExact env v.db
    → exists_row (same_day a day) v.db.balance_snapshots ≡ true
    → HasSnapshot env day v a
snapshot_found env a day v exact there =
    elim (Option-cases (find_row (same_day a day) v.db.balance_snapshots)) [
      | inl missing ↦ absurd (row_found (same_day a day) v.db.balance_snapshots there missing)
      | inr (s, row) ↦
          let same = find_row_holds (same_day a day) v.db.balance_snapshots s row in
          let account : s.account_id ≡ a = (==_iff s.account_id a).0 (ground arith) in
          let date : s.as_of_date ≡ day = (==_iff s.as_of_date day).0 (ground arith) in
          let holds = find_row-All (Holds env v.db.postings) _ v.db.balance_snapshots s exact row in
          record { row = s; row_is = row; balance_is = rw (account, date) at holds }
    ]

-- The world after the task of one account.
record AfterTask (env : Env) (a day : ℕ) (w v : World) : Type 0 where
  stored : Stored a day w v
  exact : IsExact env v.db
  quiet : v.faults ≡ []

after_task :
    (env : Env) (a day : ℕ) (w : World)
    → w.faults ≡ []
    → IsExact env w.db
    → IsSnappable env day w.db a
    → AfterTask env a day w (handle_snapshot_account env a day w).1
after_task env a day w h exact s =
    let run = task_runs env a day w h s in
    let put =
      upsert_snapshot-Stored a day (sum_up_to a (cutoff_of env day) w.db.postings)
        (record w { faults = [] }) s.known in
    record {
      stored = rw run (record {
        faults_same = put.faults_same ∙ sym h;
        accounts_same = put.accounts_same;
        postings_same = put.postings_same;
        has = put.has;
        keeps = put.keeps;
      });
      exact = handle_snapshot_account-IsExact env a day w exact;
      quiet = rw run put.faults_same;
    }

record EachDone (env : Env) (day : ℕ) (ids : List ℕ) (w v : World) : Type 0 where
  exact : IsExact env v.db
  present : All (λ a. exists_row (same_day a day) v.db.balance_snapshots ≡ true) ids
  postings_same : v.db.postings ≡ w.db.postings
  keeps :
      (b : ℕ)
      → exists_row (same_day b day) w.db.balance_snapshots ≡ true
      → exists_row (same_day b day) v.db.balance_snapshots ≡ true

each_done :
    (env : Env) (day : ℕ) (ids : List ℕ) (w : World)
    → w.faults ≡ []
    → IsExact env w.db
    → All (IsSnappable env day w.db) ids
    → EachDone env day ids w (snapshot_each env day ids w)
unfolding snapshot_each
each_done env day [] w h exact s = record {
  exact = exact;
  present = tt;
  postings_same = refl;
  keeps = λ b k. k;
}
each_done env day (a ∷ ids) w h exact s =
    let one = after_task env a day w h exact s.0 in
    let v : World = (handle_snapshot_account env a day w).1 in
    let rest = each_done env day ids v one.quiet one.exact (
      All-imp _ _ ids
        (IsSnappable-later env day w.db v.db one.stored.accounts_same one.stored.postings_same)
        s.1) in
    record {
      exact = rest.exact;
      present = (rest.keeps a one.stored.has, rest.present);
      postings_same = rest.postings_same ∙ one.stored.postings_same;
      keeps = λ b k. rest.keeps b (one.stored.keeps b k);
    }

-- Without faults, when every snapshot is exact and the accounts exist with sums that fit the
-- column, the snapshot tasks of a day, run one after another, change no posting and leave each
-- of the accounts a snapshot of the day that is the sum of its postings up to the end of it.
pub snapshot_each_done :
    (env : Env) (day : ℕ) (ids : List ℕ) (w : World)
    → w.faults ≡ []
    → IsExact env w.db
    → All (IsSnappable env day w.db) ids
    → let v = snapshot_each env day ids w in
      (v.db.postings ≡ w.db.postings) × All (HasSnapshot env day v) ids
snapshot_each_done env day ids w h exact s =
    let each = each_done env day ids w h exact s in
    (
      each.postings_same,
      All-imp _ _ ids
          (λ a there. snapshot_found env a day (snapshot_each env day ids w) each.exact there)
          each.present,
    )
