-- ===== src/Service/Balance/Snapshots.antt =====
-- The snapshot task keeps the snapshots exact.
use ledger_x.Prelude.{
  ◌⊎◌, ◌≡◌, ◌∙◌, ◌^◌, ◌&&◌, ℕ, true, refl, ltb, leb, inr, inl, arith, List, Bool-cases, All-append,
  ==_iff,
}
use ledger_x.Repo.Models.{Posting, Database, BalanceSnapshot}
use ledger_x.Service.Types.{Env}
use ledger_x.Repo.World.{
  ◌>>=◌, unacknowledged, out_of_range, ok, next_fault, later_faults, fine, failed, err, continue,
  call, answer, World, Result, Fault,
}
use ledger_x.Service.Balance.Exact.{IsExact, Holds}
use ledger_x.Repo.Transactions.{account_exists}
use ledger_x.Repo.Snapshots.{
  with_balance, upsert_snapshot, upsert_balance_snapshot, sum_up_to, sum_postings_up_to, same_day,
  as_bigint,
}
use ledger_x.Service.Balance.{handle_snapshot_account, end_of_day}
use ledger_x.Prelude.Select.{exists_row}
use ledger_x.Prelude.Int.{ℤ, pos_part, neg_part}
use ledger_x.Prelude.Kept.{update_rows-All}

as_bigint_cases :
    (t : ℤ) (w : World) → (as_bigint t w ≡ (ok t, w)) ⊎ (as_bigint t w ≡ (err out_of_range, w))
unfolding as_bigint
as_bigint_cases t w = elim (Bool-cases (ltb (pos_part t) (2 ^ 63) && leb (neg_part t) (2 ^ 63))) [
  | inl fits ↦ inl (rw fits refl)
  | inr over ↦ inr (rw over refl)
]

module _ (env : Env) (a day : ℕ) where
  abbrev day_sum : Database → ℤ
  day_sum d = sum_up_to a (env.store_time (end_of_day day)) d.postings

  refreshed :
      (ps : List Posting) (s : BalanceSnapshot)
      → same_day a day s ≡ true
      → Holds env ps (with_balance (sum_up_to a (env.store_time (end_of_day day)) ps) s)
  refreshed ps s h =
      let account : s.account_id ≡ a = (==_iff s.account_id a).0 (ground arith) in
      let date : s.as_of_date ≡ day = (==_iff s.as_of_date day).0 (ground arith) in
      rw (account, date) refl

  upsert_snapshot-IsExact :
      (w : World) → IsExact env w.db → IsExact env (upsert_snapshot a day (day_sum w.db) w).1.db
  unfolding upsert_snapshot
  upsert_snapshot-IsExact w h =
      elim (Bool-cases (exists_row (same_day a day) w.db.balance_snapshots)) [
        | inl present ↦ rw present (
            update_rows-All (Holds env w.db.postings) (same_day a day) _ w.db.balance_snapshots
              (λ s e k. refreshed w.db.postings s e) h)
        | inr absent ↦ rw absent (elim (Bool-cases (account_exists w.db a)) [
          | inl known ↦
              rw known (All-append (Holds env w.db.postings) w.db.balance_snapshots _ h (refl, tt))
          | inr unknown ↦ rw unknown h
        ])
      ]

  stored-IsExact :
      (f : Fault) (v : World)
      → IsExact env v.db
      → IsExact env (answer f (upsert_snapshot a day (day_sum v.db)) v).1.db
  unfolding answer
  stored-IsExact fine v h = upsert_snapshot-IsExact v h
  stored-IsExact failed v h = h
  stored-IsExact unacknowledged v h = upsert_snapshot-IsExact v h

  record Summed (d : Database) (r : Result ℤ × World) : Type 0 where
    db_same : r.1.db ≡ d
    right : (sum : ℤ) → r.0 ≡ ok sum → sum ≡ day_sum d

  summed :
      (f : Fault) (v : World)
      → Summed v.db (
          answer f
            (λ w. as_bigint (sum_up_to a (env.store_time (end_of_day day)) w.db.postings) w)
            v)
  unfolding answer
  summed failed v = record { db_same = refl; right = λ sum e. cc }
  summed fine v = elim (as_bigint_cases (day_sum v.db) v) [
    | inl e ↦ rw e (record { db_same = refl; right = λ sum k. cc })
    | inr e ↦ rw e (record { db_same = refl; right = λ sum k. cc })
  ]
  summed unacknowledged v = elim (as_bigint_cases (day_sum v.db) v) [
    | inl e ↦ rw e (record { db_same = refl; right = λ sum k. cc })
    | inr e ↦ rw e (record { db_same = refl; right = λ sum k. cc })
  ]

  then_stored :
      (d : Database) (r : Result ℤ × World)
      → IsExact env d
      → Summed d r
      → IsExact env (continue r.0 (upsert_balance_snapshot a day) r.1).1.db
  unfolding upsert_balance_snapshot call
  then_stored d (err e, v) h k = rw k.db_same h
  then_stored d (ok sum, v) h k =
      let right : sum ≡ day_sum v.db = k.right sum refl ∙ rw k.db_same refl in
      rw right (
        stored-IsExact (next_fault v.faults) (record v { faults = later_faults v.faults })
          (rw k.db_same h))

-- The snapshot task under any faults leaves every snapshot equal to the sum of its account's
-- postings up to the end of its day, when they were so before.
pub handle_snapshot_account-IsExact :
    (env : Env) (a day : ℕ) (w : World)
    → IsExact env w.db
    → IsExact env (handle_snapshot_account env a day w).1.db
unfolding handle_snapshot_account ◌>>=◌ sum_postings_up_to call
handle_snapshot_account-IsExact env a day w h =
    then_stored env a day w.db _ h
      (summed env a day (next_fault w.faults) (record w { faults = later_faults w.faults }))
