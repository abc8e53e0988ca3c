-- ===== src/Worker/Snapshots/Enqueued.antt =====
-- The tasks that handleSnapshotAll enqueues.
use mathlib.Core.List.{append_assoc, append-nil}
use ledger_x.Repo.Models.{Database, Account}
use ledger_x.Prelude.{
  ◌≡◌, ◌∷◌, ◌∙◌, ◌++◌, ℕ, str_eq, some, refl, map, ltb, false, [], String, List, All,
}
use ledger_x.Worker.Snapshots.{
  snapshot_all_on, or_yesterday, handle_snapshot_all, snapshot_account_task, has_task_id,
  enqueue_once, enqueue_accounts, enqueue_account, SnapshotFormats,
}
use ledger_x.Repo.World.{◌>>=◌, ok, call, answer, World, Task}
use ledger_x.Prelude.Select.{where_rows, order_by, exists_row-append, exists_row}
use ledger_x.Service.Summary.{ignore}
use ledger_x.Service.Types.{Env}
use ledger_x.Repo.Snapshots.{list_all_account_ids}

-- The accounts of the day, and the task of each.
abbrev pub active_ids : Database → List ℕ
active_ids d =
    map (λ (x : Account). x.id)
      (order_by (λ (x : Account) (y : Account). ltb x.id y.id)
        (where_rows (λ (x : Account). x.is_active) d.accounts))

abbrev pub task_of : SnapshotFormats → (ℕ → String) → ℕ → ℕ → Task
task_of f json day id = snapshot_account_task (f.snapshot_key id day) (json id)

-- asynq holds no task of this account and day.
abbrev pub IsNew : SnapshotFormats → ℕ → List Task → ℕ → Type 0
IsNew f day ts id = exists_row (has_task_id (f.snapshot_key id day)) ts ≡ false

-- No two accounts share a task id.
abbrev pub HaveOwnKeys : SnapshotFormats → ℕ → List ℕ → Type 0
HaveOwnKeys f day [] = Unit
HaveOwnKeys f day (id ∷ ids) =
    All (λ j. str_eq (f.snapshot_key id day) (f.snapshot_key j day) ≡ false) ids
    × HaveOwnKeys f day ids

module _ (f : SnapshotFormats) (day : ℕ) (date : String) (json : ℕ → String)
    (encoded : (id : ℕ) → f.marshal_account id date ≡ some (json id)) where
  IsNew-append :
      (ts : List Task) (id j : ℕ)
      → str_eq (f.snapshot_key id day) (f.snapshot_key j day) ≡ false
      → IsNew f day ts j
      → IsNew f day (ts ++ task_of f json day id ∷ []) j
  IsNew-append ts id j apart h =
      rw (exists_row-append (has_task_id (f.snapshot_key j day)) ts (task_of f json day id ∷ []))
        (rw h (rw apart refl))

  still-IsNew :
      (ts : List Task) (id : ℕ) (ids : List ℕ)
      → All (λ j. str_eq (f.snapshot_key id day) (f.snapshot_key j day) ≡ false) ids
      → All (IsNew f day ts) ids
      → All (IsNew f day (ts ++ task_of f json day id ∷ [])) ids
  still-IsNew ts id [] h k = tt
  still-IsNew ts id (j ∷ ids) h k = (IsNew-append ts id j h.0 k.0, still-IsNew ts id ids h.1 k.1)

  abbrev with_tasks : List ℕ → World → World
  with_tasks ids w = record w { tasks = w.tasks ++ map (task_of f json day) ids; faults = [] }

  enqueue_runs :
      (id : ℕ) (w : World)
      → w.faults ≡ []
      → IsNew f day w.tasks id
      → enqueue_account (f.snapshot_key id day) (f.marshal_account id date) w
        ≡ (ok tt, record w { tasks = w.tasks ++ task_of f json day id ∷ []; faults = [] })
  unfolding enqueue_once ignore call answer
  enqueue_runs id w h new = rw (encoded id) (rw h (rw new refl))

  enqueue_accounts_runs :
      (ids : List ℕ) (w : World)
      → w.faults ≡ []
      → All (IsNew f day w.tasks) ids
      → HaveOwnKeys f day ids
      → enqueue_accounts f day date ids w ≡ (ok tt, with_tasks ids w)
  unfolding enqueue_accounts ◌>>=◌
  enqueue_accounts_runs [] w h new own = rw (h, append-nil w.tasks) refl
  enqueue_accounts_runs (id ∷ ids) w h new own =
      let v : World = record w { tasks = w.tasks ++ task_of f json day id ∷ []; faults = [] } in
      rw (enqueue_runs id w h new.0) (
        enqueue_accounts_runs ids v refl (still-IsNew w.tasks id ids own.0 new.1) own.1
        ∙ rw (append_assoc w.tasks (task_of f json day id ∷ []) (map (task_of f json day) ids))
            refl)

  snapshot_all_on-runs :
      (w : World)
      → w.faults ≡ []
      → f.parse_date date ≡ some day
      → All (IsNew f day w.tasks) (active_ids w.db)
      → HaveOwnKeys f day (active_ids w.db)
      → snapshot_all_on f date w ≡ (ok tt, with_tasks (active_ids w.db) w)
  unfolding snapshot_all_on list_all_account_ids call answer ◌>>=◌
  snapshot_all_on-runs w h dated new own =
      rw h
        (rw dated (enqueue_accounts_runs (active_ids w.db) (record w { faults = [] }) refl new own))

-- Without faults, when the payload decodes, its date or yesterday is a date, payloads have a
-- JSON and asynq holds no task of the active accounts for that day, whose task ids differ,
-- handleSnapshotAll enqueues exactly one task for each active account, in the order of their
-- ids, and changes nothing else.
pub handle_snapshot_all_enqueues :
    (env : Env) (f : SnapshotFormats) (t : Task) (given : String) (day : ℕ) (json : ℕ → String)
    (w : World)
    → w.faults ≡ []
    → f.unmarshal_all t.payload ≡ some given
    → f.parse_date (or_yesterday env f given) ≡ some day
    → ((id : ℕ) → f.marshal_account id (or_yesterday env f given) ≡ some (json id))
    → All (IsNew f day w.tasks) (active_ids w.db)
    → HaveOwnKeys f day (active_ids w.db)
    → handle_snapshot_all env f t w ≡ (
      ok tt,
      record w { tasks = w.tasks ++ map (task_of f json day) (active_ids w.db); faults = [] },
    )
unfolding handle_snapshot_all
handle_snapshot_all_enqueues env f t given day json w h decoded dated encoded new own =
    rw decoded
      (snapshot_all_on-runs f day (or_yesterday env f given) json encoded w h dated new own)
