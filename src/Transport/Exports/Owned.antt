-- ===== src/Transport/Exports/Owned.antt =====
-- The life of the exports as steps, and whose export a download serves.
use ledger_x.Prelude.{
  true, str_eq, false, Bool, ◌⊎◌, ◌≡◌, ◌∷◌, ◌==◌, ℕ, some, refl, none, inr, inl, [], String, Option,
  List, Bool-cases, All-append, All,
}
use ledger_x.Service.Types.{Env}
use ledger_x.Repo.Models.{Export}
use ledger_x.Repo.World.{File, ok, err, bad_json, World, Task, Result, Fault}
use ledger_x.Worker.Exports.{
  or_bad_payload, export_payload, ExportCsvPayload, handle_export_csv, Formats,
}
use ledger_x.Transport.Handlers.{path_id, authorized, Handler}
use ledger_x.Worker.Exports.States.{export_payload-Evolved, moved, kept, Pairwise, Moves, IsVerdict}
use ledger_x.Repo.Keeps.{Keeps-raise, Keeps-query, Keeps-pure, Keeps-call, Keeps-bind, Keeps}
use ledger_x.Storage.{Storage}
use ledger_x.Repo.Exports.{insert_export, get_export_by_id, find_export, create_export}
use ledger_x.Transport.Exports.{
  send_file, enqueue_json, attached, register_export, post_export, payload_of, owned_export,
  or_internal, get_status, export_of_user, enqueue_export, enqueue, download,
}
use ledger_x.Service.Samples.{user}
use ledger_x.Repo.Accounts.{user_exists}
use ledger_x.Storage.Laws.{IsStorage}

-- What the handlers and the worker do, each under the faults `fs`.
pub data Step (s : Storage) (env : Env) (f : Formats) : World → World → Type 0 where
  posts :
      (w : World) (fs : List Fault) (token month : Option ℕ)
      → Step s env f w (post_export f token month (record w { faults = fs })).1
  works :
      (w : World) (fs : List Fault) (t : Task)
      → Step s env f w (handle_export_csv s env f t (record w { faults = fs })).1
  asks :
      (w : World) (fs : List Fault) (token id : Option ℕ)
      → Step s env f w (get_status f token id (record w { faults = fs })).1
  downloads :
      (w : World) (fs : List Fault) (token id : Option ℕ)
      → Step s env f w (download s token id (record w { faults = fs })).1

pub data Reach (s : Storage) (env : Env) (f : Formats) (u : World) : World → Type 0 where
  at_start : Reach s env f u u
  then_step : {v w : World} → Reach s env f u v → Step s env f v w → Reach s env f u w

-- An export is pending, or has what the task wrote for its own id.
abbrev pub IsWellFormed : Formats → Export → Type 0
IsWellFormed f e =
    ((e.status ≡ "pending") × (e.file_path ≡ none)) ⊎ IsVerdict f e.id e.status e.file_path

abbrev pub WellFormed : Formats → World → Type 0
WellFormed f w = All (IsWellFormed f) w.db.exports

module _ (f : Formats) where
  Moves-IsWellFormed :
      (id : ℕ) (e e' : Export) → Moves f id e e' → IsWellFormed f e → IsWellFormed f e'
  Moves-IsWellFormed id e e' kept h = h
  Moves-IsWellFormed id e e' (moved at same v) h = inr (rw same v)

  rows-WellFormed :
      (id : ℕ) (es es' : List Export)
      → Pairwise (Moves f id) es es'
      → All (IsWellFormed f) es
      → All (IsWellFormed f) es'
  rows-WellFormed id [] [] h k = tt
  rows-WellFormed id [] (e' ∷ es') h k = absurd h
  rows-WellFormed id (e ∷ es) [] h k = absurd h
  rows-WellFormed id (e ∷ es) (e' ∷ es') h k =
      (Moves-IsWellFormed id e e' h.0 k.0, rows-WellFormed id es es' h.1 k.1)

  insert_export-WellFormed : (uid month : ℕ) → Keeps (WellFormed f) (insert_export uid month)
  unfolding insert_export
  insert_export-WellFormed uid month = record {
    at = λ w h. elim (Bool-cases (user_exists w.db uid)) [
      | inl known ↦ rw known (All-append (IsWellFormed f) w.db.exports _ h (inl (refl, refl), tt))
      | inr unknown ↦ rw unknown h
    ];
  }

  enqueue_export-WellFormed :
      (month : ℕ) (e : Export) → Keeps (WellFormed f) (enqueue_export f month e)
  unfolding enqueue_export enqueue
  enqueue_export-WellFormed month e = encoded (f.marshal_payload (payload_of f month e))
    where
      encoded : (o : Option String) → Keeps (WellFormed f) (enqueue_json o)
      encoded none = Keeps-raise bad_json
      encoded (some json) = Keeps-call _ (λ w fs h. h) (record { at = λ w h. h })

  register_export-WellFormed : (uid month : ℕ) → Keeps (WellFormed f) (register_export f uid month)
  unfolding register_export create_export
  register_export-WellFormed uid month =
      Keeps-bind _ _ (Keeps-call _ (λ w fs h. h) (insert_export-WellFormed uid month))
        λ e. Keeps-bind _ _ (enqueue_export-WellFormed month e) λ _. Keeps-pure _

  or_internal_world :
      {A : Type 0} (status : ℕ) (r : Result A × World) → (or_internal status r).1 ≡ r.1
  or_internal_world status (ok a, w) = refl
  or_internal_world status (err e, w) = refl

  authorized-WellFormed :
      {A : Type 0} (token : Option ℕ) (k : ℕ → Handler A) (w : World)
      → ((uid : ℕ) → WellFormed f (k uid w).1)
      → WellFormed f w
      → WellFormed f (authorized token k w).1
  authorized-WellFormed none k w h wf = wf
  authorized-WellFormed (some uid) k w h wf = elim (Bool-cases (uid == 0)) [
    | inl nobody ↦ rw nobody wf
    | inr user ↦ rw user (h uid)
  ]

  path_id-WellFormed :
      {A : Type 0} (id : Option ℕ) (k : ℕ → Handler A) (w : World)
      → ((i : ℕ) → WellFormed f (k i w).1)
      → WellFormed f w
      → WellFormed f (path_id id k w).1
  path_id-WellFormed none k w h wf = wf
  path_id-WellFormed (some i) k w h wf = elim (Bool-cases (i == 0)) [
    | inl bad ↦ rw bad wf
    | inr good ↦ rw good (h i)
  ]

  post_export-WellFormed :
      (token month : Option ℕ) (w : World)
      → WellFormed f w
      → WellFormed f (post_export f token month w).1
  unfolding post_export
  post_export-WellFormed token none w h = authorized-WellFormed token _ w (λ uid. h) h
  post_export-WellFormed token (some month) w h =
      authorized-WellFormed token _ w
        (λ uid.
          rw (or_internal_world 202 (register_export f uid month w))
            ((register_export-WellFormed uid month).at w h))
        h

  get_export_by_id-Keeps : (id : ℕ) → Keeps (WellFormed f) (get_export_by_id id)
  unfolding get_export_by_id
  get_export_by_id-Keeps id =
      Keeps-call _ (λ w fs h. h) (Keeps-query (λ w. find_export id w.db.exports))

  owned_export-WellFormed :
      {A : Type 0} (token id : Option ℕ) (k : Export → Handler A) (w : World)
      → ((e : Export) (v : World) → WellFormed f v → WellFormed f (k e v).1)
      → WellFormed f w
      → WellFormed f (owned_export token id k w).1
  unfolding owned_export
  owned_export-WellFormed {A = A} token id k w h wf =
      authorized-WellFormed token _ w
        (λ uid.
          path_id-WellFormed id _ w
            (λ i. for_user uid (get_export_by_id i w) ((get_export_by_id-Keeps i).at w wf)) wf)
        wf
    where
      for_user :
          (uid : ℕ) (r : Result Export × World)
          → WellFormed f r.1
          → WellFormed f (export_of_user uid k r).1
      for_user uid (err e, v) l = l
      for_user uid (ok e, v) l = elim (Bool-cases (e.user_id == uid)) [
        | inl own ↦ rw own (h e v l)
        | inr other ↦ rw other l
      ]

  module _ (s : Storage) (IsKey : String → Type 0) (contents : String → List File → Option String)
      (laws : IsStorage s IsKey contents) (env : Env) where
    attached-WellFormed :
        (path : String) (r : Result String × World)
        → WellFormed f r.1
        → WellFormed f (attached path r).1
    attached-WellFormed path (ok body, w) h = h
    attached-WellFormed path (err e, w) h = h

    send_file-WellFormed :
        (is_done : Bool) (path : Option String) (w : World)
        → WellFormed f w
        → WellFormed f (send_file s is_done path w).1
    send_file-WellFormed is_done none w h = h
    send_file-WellFormed false (some path) w h = h
    send_file-WellFormed true (some path) w h =
        attached-WellFormed path (s.open_file path w) (rw (laws.open_keeps_db path w) h)

    or_bad_payload-WellFormed :
        (o : Option ExportCsvPayload) (w : World)
        → WellFormed f w
        → WellFormed f (or_bad_payload (export_payload s env f) o w).1
    or_bad_payload-WellFormed none w h = h
    or_bad_payload-WellFormed (some p) w h =
        rows-WellFormed p.export_id w.db.exports _
          (export_payload-Evolved s IsKey contents laws env f p w).rows h

    Step-WellFormed : {v w : World} → Step s env f v w → WellFormed f v → WellFormed f w
    unfolding handle_export_csv get_status download
    Step-WellFormed (posts w fs token month) h =
        post_export-WellFormed token month (record w { faults = fs }) h
    Step-WellFormed (works w fs t) h =
        or_bad_payload-WellFormed (f.unmarshal_payload t.payload) (record w { faults = fs }) h
    Step-WellFormed (asks w fs token id) h =
        owned_export-WellFormed token id _ (record w { faults = fs }) (λ e v k. k) h
    Step-WellFormed (downloads w fs token id) h =
        owned_export-WellFormed token id _ (record w { faults = fs })
          (λ e v k. send_file-WellFormed (str_eq e.status "done") e.file_path v k) h

    -- In every state that requests, tasks, status queries and downloads reach under any faults,
    -- an export is pending without a file, or done with the file of its own id, or in error
    -- without a file, when all were so before.
    pub Reach-WellFormed : {u w : World} → Reach s env f u w → WellFormed f u → WellFormed f w
    Reach-WellFormed at_start h = h
    Reach-WellFormed (then_step before step) h = Step-WellFormed step (Reach-WellFormed before h)
