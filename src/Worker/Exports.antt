-- ===== src/Worker/Exports.antt =====
-- internal/worker/csv-export.go, with the payload of internal/worker/jobs.go.
pub mod States
pub mod Finished
use Prim.Native.String.{◌++◌ as str_append}
use ledger_x.Repo.World.{
  ◌>>◌, ◌>>=◌, raise, pure, ok, err, bad_json, bad_input, attempt, Task, Result, Action,
}
use ledger_x.Service.Types.{Env}
use ledger_x.Repo.Exports.{update_export_status, list_postings_for_month, ExportRow}
use ledger_x.Prelude.{◌∷◌, ℕ, some, none, map, [], String, Option, List}
use ledger_x.Storage.{Storage}
use ledger_x.Service.Summary.{ignore}
use ledger_x.Prelude.Int.{ℤ}

-- The month as a date "2006-01-02".
pub record ExportCsvPayload : Type 0 where
  pub export_id : ℕ
  pub user_id : ℕ
  pub month : String

-- What lies outside: JSON, the formats of time, fmt, and encoding/csv, which writes rows of fields.
pub record Formats : Type 0 where
  pub marshal_payload : ExportCsvPayload → Option String
  pub unmarshal_payload : String → Option ExportCsvPayload
  pub format_month : ℕ → String
  pub format_date : ℕ → String
  pub parse_date : String → Option ℕ
  pub format_rfc3339 : ℕ → String
  pub sprint : ℕ → String
  pub sprint_int : ℤ → String
  pub csv_write : List (List String) → Option String

abbrev pub or_input_error : {A : Type 0} → Option A → Action A
or_input_error none = raise bad_input
or_input_error (some a) = pure a

abbrev pub export_header : List String
export_header =
    "transaction_id" ∷ "account_id" ∷ "account_name" ∷ "category_id" ∷ "amount_minor" ∷ "currency"
    ∷ "occurred_at" ∷ "note" ∷ []

abbrev pub text_or_empty : Option String → String
text_or_empty none = ""
text_or_empty (some t) = t

abbrev pub sprint_or_empty : Formats → Option ℕ → String
sprint_or_empty f none = ""
sprint_or_empty f (some n) = f.sprint n

unfoldable pub csv_record : Formats → ExportRow → List String
csv_record f r =
    f.sprint r.transaction_id
    ∷ f.sprint r.account_id
    ∷ r.account_name
    ∷ sprint_or_empty f r.category_id
    ∷ f.sprint_int r.amount_minor
    ∷ r.currency
    ∷ f.format_rfc3339 r.occurred_at
    ∷ text_or_empty r.note
    ∷ []

unfoldable pub csv_file : Formats → List ExportRow → Option String
csv_file f rows = f.csv_write (export_header ∷ map (csv_record f) rows)

-- fmt.Sprintf("export_%d.csv", id)
abbrev pub export_key : Formats → ℕ → String
export_key f id = str_append "export_" (str_append (f.sprint id) ".csv")

unfoldable pub fail_export : ℕ → Action Unit
fail_export id = ignore (update_export_status id "error" none)

abbrev pub or_failed : {A : Type 0} → ℕ → Result A → Action A
or_failed id (ok a) = pure a
or_failed id (err e) = fail_export id >> raise e

-- if err != nil { s.failExport(ctx, p.ExportID); return err }
unfoldable pub guarded : {A : Type 0} → ℕ → Action A → Action A
guarded id m = attempt m >>= or_failed id

unfoldable pub export_payload : Storage → Env → Formats → ExportCsvPayload → Action Unit
export_payload s env f p = do
  month ← guarded p.export_id (or_input_error (f.parse_date p.month))
  rows ← guarded p.export_id (list_postings_for_month env p.user_id month)
  body ← guarded p.export_id (or_input_error (csv_file f rows))
  _ ← guarded p.export_id (s.save (export_key f p.export_id) body)
  update_export_status p.export_id "done" (some (export_key f p.export_id))

abbrev pub or_bad_payload : {A : Type 0} → (A → Action Unit) → Option A → Action Unit
or_bad_payload k none = raise bad_json
or_bad_payload k (some p) = k p

unfoldable pub handle_export_csv : Storage → Env → Formats → Task → Action Unit
handle_export_csv s env f t =
    or_bad_payload (export_payload s env f) (f.unmarshal_payload t.payload)
