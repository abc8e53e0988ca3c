-- ===== src/Transport/Exports.antt =====
-- internal/transport/http/exports.go. A request arrives decoded, as in Handlers.
pub mod Owned
pub mod Downloads
mod Tests
pub mod Requested
pub mod Served
use ledger_x.Repo.World.{◌>>=◌, raise, pure, ok, err, call, bad_json, World, Task, Result, Action}
use ledger_x.Prelude.{
  ◌∷◌, ◌==◌, ◌++◌, ℕ, true, str_eq, some, none, if◌then◌else◌, false, [], String, Option, Bool,
}
use ledger_x.Repo.Models.{Export}
use ledger_x.Worker.Exports.{text_or_empty, Formats, ExportCsvPayload}
use ledger_x.Transport.Handlers.{replied, rejected, path_id, authorized, Response, Handler}
use ledger_x.Storage.{Storage}
use ledger_x.Repo.Exports.{get_export_by_id, create_export}

-- file_path is "" where the export has none.
pub record ExportDto : Type 0 where
  pub id : ℕ
  pub user_id : ℕ
  pub month : String
  pub status : String
  pub file_path : String
  pub created_at : ℕ
  pub updated_at : ℕ

abbrev pub to_export_dto : Formats → Export → ExportDto
to_export_dto f e = record {
  id = e.id;
  user_id = e.user_id;
  month = f.format_month e.month;
  status = e.status;
  file_path = text_or_empty e.file_path;
  created_at = e.created_at;
  updated_at = e.updated_at;
}

-- asynq's Client.Enqueue
unfoldable pub enqueue : Task → Action Unit
enqueue t = call (λ w. (ok tt, record w { tasks = w.tasks ++ t ∷ [] }))

abbrev pub payload_of : Formats → ℕ → Export → ExportCsvPayload
payload_of f month e = record { export_id = e.id; user_id = e.user_id; month = f.format_date month }

-- MustJSON panics where the payload has no JSON, which the Recoverer answers with 500.
abbrev pub enqueue_json : Option String → Action Unit
enqueue_json none = raise bad_json
enqueue_json (some json) =
    enqueue (record { task_id = none; type_name = "export:csv"; payload = json })

unfoldable pub enqueue_export : Formats → ℕ → Export → Action Unit
enqueue_export f month e = enqueue_json (f.marshal_payload (payload_of f month e))

abbrev pub or_internal : {A : Type 0} → ℕ → Result A × World → Response A × World
or_internal status (ok a, w) = (replied status a, w)
or_internal status (err e, w) = (rejected 500, w)

unfoldable pub register_export : Formats → ℕ → ℕ → Action ExportDto
register_export f uid month = do
  e ← create_export uid month
  _ ← enqueue_export f month e
  pure (to_export_dto f e)

-- CreateExport, with the month as time.Parse reads it
unfoldable pub post_export : Formats → Option ℕ → Option ℕ → Handler ExportDto
post_export f token none w = authorized token (λ uid v. (rejected 400, v)) w
post_export f token (some month) w =
    authorized token (λ uid v. or_internal 202 (register_export f uid month v)) w

abbrev pub export_of_user :
    {A : Type 0} → ℕ → (Export → Handler A) → Result Export × World → Response A × World
export_of_user uid k (ok e, w) = if e.user_id == uid then k e w else (rejected 404, w)
export_of_user uid k (err e, w) = (rejected 404, w)

-- ownedExport, before the rest of a handler
unfoldable pub owned_export : {A : Type 0} → Option ℕ → Option ℕ → (Export → Handler A) → Handler A
owned_export token id k =
    authorized token λ uid. path_id id λ i. λ w. export_of_user uid k (get_export_by_id i w)

unfoldable pub get_status : Formats → Option ℕ → Option ℕ → Handler ExportDto
get_status f token id = owned_export token id λ e. λ w. (replied 200 (to_export_dto f e), w)

-- What Download sends: the name in Content-Disposition, and the body.
pub record Attachment : Type 0 where
  pub filename : String
  pub body : String

abbrev pub attached : String → Result String × World → Response Attachment × World
attached name (ok body, w) = (replied 200 (record { filename = name; body = body }), w)
attached name (err e, w) = (rejected 500, w)

abbrev pub send_file : Storage → Bool → Option String → Handler Attachment
send_file s is_done none w = (rejected 409, w)
send_file s false (some path) w = (rejected 409, w)
send_file s true (some path) w = attached path (s.open_file path w)

unfoldable pub download : Storage → Option ℕ → Option ℕ → Handler Attachment
download s token id = owned_export token id λ e. send_file s (str_eq e.status "done") e.file_path
