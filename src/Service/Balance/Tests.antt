-- ===== src/Service/Balance/Tests.antt =====
-- CurrentBalance and the snapshot task on the sample world.
use ledger_x.Prelude.{◌≡◌, ◌<◌, true, refl, ltb, if◌then◌else◌, false, arith, [], Bool, All, ℕ}
use ledger_x.Int64.{InRange}
use ledger_x.Service.Balance.Exact.{current_balance_exact, IsExact}
use ledger_x.Repo.Models.{Posting}
use ledger_x.Service.Transactions.Ownership.{account_sum}
use ledger_x.Service.Balance.{handle_snapshot_account, current_balance}
use ledger_x.Repo.World.{ok, failed}
use ledger_x.Service.Balance.Snapshots.{handle_snapshot_account-IsExact}
use ledger_x.Service.Samples.{sample_env, later_world}
use ledger_x.Prelude.Int.{◌+ℤ◌, ℤ, pos}
use ledger_x.Repo.Snapshots.{sum_since}

later_positive : All (λ (p : Posting). 0 < p.created_at) later_world.db.postings
later_positive = (ground arith, (ground arith, tt))

later-IsExact : IsExact sample_env later_world.db
unfolding ◌+ℤ◌
later-IsExact = (refl, tt)

later_deltas : (since : ℕ) → InRange (sum_since 1 since later_world.db.postings)
unfolding ◌+ℤ◌
later_deltas since = cases (ltb since 1000) (ltb since 86400000000000)
  where
    cases :
        (a b : Bool)
        → let t : ℤ = if b then pos 30 +ℤ pos 0 else pos 0 in
          InRange (if a then pos 500 +ℤ t else t)
    cases true true = (ground arith, ground arith)
    cases true false = (ground arith, ground arith)
    cases false true = (ground arith, ground arith)
    cases false false = (ground arith, ground arith)

later_total : InRange (account_sum 1 later_world.db.postings)
unfolding ◌+ℤ◌
later_total = (ground arith, ground arith)

current_balance_exact_example :
    (current_balance sample_env 1 later_world).0 ≡ ok (account_sum 1 later_world.db.postings)
current_balance_exact_example =
    current_balance_exact sample_env 1 later_world failed [] refl refl later_positive later-IsExact
      later_deltas later_total

handle_snapshot_account-IsExact_example :
    IsExact sample_env (handle_snapshot_account sample_env 1 0 later_world).1.db
handle_snapshot_account-IsExact_example =
    handle_snapshot_account-IsExact sample_env 1 0 later_world later-IsExact
