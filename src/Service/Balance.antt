-- ===== src/Service/Balance.antt =====
-- internal/service/balance.go, and the snapshot task of internal/worker/snapshot_worker.go.
pub mod Exact
pub mod Snapshots
mod Tests
use ledger_x.Prelude.{◌-◌, ◌+◌, ◌*◌, ℕ}
use ledger_x.Repo.World.{◌>>=◌, pure, ok, err, attempt, Result, Action}
use ledger_x.Repo.Models.{BalanceSnapshot}
use ledger_x.Service.Types.{Env}
use ledger_x.Int64.{add64}
use ledger_x.Repo.Snapshots.{
  upsert_balance_snapshot, sum_postings_up_to, sum_postings_since, get_latest_snapshot,
}
use ledger_x.Prelude.Int.{ℤ, pos}

-- time.Date(y, m, d, 23, 59, 59, 999999999, time.UTC) of a day.
abbrev pub end_of_day : ℕ → ℕ
end_of_day day = (day + 1) * 86400000000000 - 1

-- The cutoff and the balance to start from; without a snapshot, the zero time and 0. Every error
-- of the lookup counts as no snapshot.
abbrev pub start_of : Result BalanceSnapshot → ℕ × ℤ
start_of (ok snap) = (end_of_day snap.as_of_date, snap.balance_minor)
start_of (err e) = (0, pos 0)

-- The Balance of the result; AccountID and AsOfISO, which repeat the arguments, are left out.
unfoldable pub current_balance : Env → ℕ → Action ℤ
current_balance env a = do
  snap ← attempt (get_latest_snapshot a)
  delta ← sum_postings_since a (env.store_time (start_of snap).0)
  pure (add64 (start_of snap).1 delta)

-- handleSnapshotAccount, with its payload decoded.
unfoldable pub handle_snapshot_account : Env → ℕ → ℕ → Action Unit
handle_snapshot_account env a day = do
  sum ← sum_postings_up_to a (env.store_time (end_of_day day))
  upsert_balance_snapshot a day sum
