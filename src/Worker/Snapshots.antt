-- ===== src/Worker/Snapshots.antt =====
-- handleSnapshotAll of internal/worker/snapshot_worker.go, the tasks of jobs.go, and scheduler.go.
pub mod Daily
pub mod Enqueued
use ledger_x.Repo.World.{
  World, ◌>>=◌, unique_violation, raise, pure, ok, err, call, bad_json, Task, Action,
}
use ledger_x.Prelude.{
  ◌∷◌, ◌-◌, ◌++◌, ◌*◌, ℕ, str_eq, some, none, if◌then◌else◌, false, [], String, Option, List, Bool,
}
use ledger_x.Service.Types.{Env}
use ledger_x.Prelude.Select.{exists_row}
use ledger_x.Service.Balance.{handle_snapshot_account}
use ledger_x.Service.Summary.{ignore}
use ledger_x.Repo.Snapshots.{list_all_account_ids}
use ledger_x.Worker.Exports.{or_input_error}

-- Days are dates; an instant is formatted in UTC.
pub record SnapshotFormats : Type 0 where
  pub unmarshal_all : String → Option String
  pub marshal_account : ℕ → String → Option String
  pub unmarshal_account : String → Option (ℕ × String)
  pub format_date : ℕ → String
  pub parse_date : String → Option ℕ
  pub snapshot_key : ℕ → ℕ → String

abbrev pub snapshot_all_task : String → Task
snapshot_all_task payload = record { task_id = none; type_name = "snapshot:all"; payload = payload }

abbrev pub snapshot_account_task : String → String → Task
snapshot_account_task key payload = record {
  task_id = some key;
  type_name = "snapshot:account";
  payload = payload;
}

abbrev pub has_task_id : String → Task → Bool
has_task_id key t = elim t.task_id [ none ↦ false | some k ↦ str_eq k key ]

-- asynq refuses a task whose id it holds already.
unfoldable pub enqueue_once : String → Task → Action Unit
enqueue_once key t = call λ w.
    if exists_row (has_task_id key) w.tasks
    then (err unique_violation, w)
    else (ok tt, record w { tasks = w.tasks ++ t ∷ [] })

abbrev pub enqueue_account : String → Option String → Action Unit
enqueue_account key none = raise bad_json
enqueue_account key (some payload) = ignore (enqueue_once key (snapshot_account_task key payload))

unfoldable pub enqueue_accounts : SnapshotFormats → ℕ → String → List ℕ → Action Unit
enqueue_accounts f day date [] = pure tt
enqueue_accounts f day date (id ∷ ids) = do
  _ ← enqueue_account (f.snapshot_key id day) (f.marshal_account id date)
  enqueue_accounts f day date ids

-- time.Now().UTC().Add(-24 * time.Hour), in nanoseconds
abbrev pub or_yesterday : Env → SnapshotFormats → String → String
or_yesterday env f date =
    if str_eq date "" then f.format_date (env.go_now - 24 * 3600 * 1000000000) else date

abbrev pub or_bad_task : {A : Type 0} → (A → Action Unit) → Option A → Action Unit
or_bad_task k none = raise bad_json
or_bad_task k (some a) = k a

unfoldable pub snapshot_all_on : SnapshotFormats → String → Action Unit
snapshot_all_on f date = do
  ids ← list_all_account_ids
  day ← or_input_error (f.parse_date date)
  enqueue_accounts f day date ids

unfoldable pub handle_snapshot_all : Env → SnapshotFormats → Task → Action Unit
handle_snapshot_all env f t =
    or_bad_task (λ date. snapshot_all_on f (or_yesterday env f date)) (f.unmarshal_all t.payload)

abbrev pub snapshot_account_on : Env → SnapshotFormats → ℕ × String → Action Unit
snapshot_account_on env f (id, date) = do
  day ← or_input_error (f.parse_date date)
  handle_snapshot_account env id day

-- handleSnapshotAccount with its payload
unfoldable pub handle_snapshot_task : Env → SnapshotFormats → Task → Action Unit
handle_snapshot_task env f t =
    or_bad_task (snapshot_account_on env f) (f.unmarshal_account t.payload)

-- The tasks of a day, one after another.
unfoldable pub snapshot_each : Env → ℕ → List ℕ → World → World
snapshot_each env day [] w = w
snapshot_each env day (id ∷ ids) w =
    snapshot_each env day ids (handle_snapshot_account env id day w).1
