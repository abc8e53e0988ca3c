-- ===== src/Transport/Exports/Served.antt =====
-- From the request of an export to its download.
use ledger_x.Prelude.{
  ◌∙◌, sym, Option, ==_refl, ==_iff, ◌≡◌, ◌∷◌, ◌==◌, ◌++◌, ℕ, true, some, refl, false, [], String,
  List,
}
use ledger_x.Repo.Models.{Database, Export}
use ledger_x.Worker.Exports.{handle_export_csv, export_key, csv_file, Formats}
use ledger_x.Worker.Exports.States.{export_payload-Evolved, Evolved}
use ledger_x.Repo.World.{err, Result, File, ok, call, answer, World}
use ledger_x.Repo.Exports.{month_rows, get_export_by_id, find_export}
use ledger_x.Transport.Exports.{owned_export, download, attached, post_export}
use ledger_x.Service.Samples.{user}
use ledger_x.Repo.Accounts.{user_exists}
use ledger_x.Service.Types.{Env}
use ledger_x.Worker.Exports.Finished.{export_payload-Yields, export_payload-Completes, Exported}
use ledger_x.Storage.Laws.{IsStorage}
use ledger_x.Storage.{Storage}
use ledger_x.Repo.Success.{ensure, Succeeds}
use ledger_x.Prelude.Select.{find_row_holds, find_row-append_right, exists_row}
use ledger_x.Prelude.Kept.{find_row-All}
use ledger_x.Service.Transactions.Retry.{quiet}
use ledger_x.Transport.Handlers.{replied}
use ledger_x.Transport.RateLimit.{stored}
use ledger_x.Transport.Exports.Requested.{
  requested_row, requested_payload, requested, post_export_runs, find_evolved, export_task,
}

-- The row of the export after its task.
record IsReadyRow (f : Formats) (uid id : ℕ) (d : Database) : Type 0 where
  row : Export
  row_is : find_export id d.exports ≡ some row
  owner_is : row.user_id ≡ uid
  status_is : row.status ≡ "done"
  path_is : row.file_path ≡ some (export_key f id)

module _ (s : Storage) (IsKey : String → Type 0) (contents : String → List File → Option String)
    (laws : IsStorage s IsKey contents) (env : Env) (f : Formats) (uid month : ℕ)
    (json body : String) (w : World) where
  abbrev id_of : ℕ
  id_of = w.seqs.exports

  abbrev handled : World
  handled = (handle_export_csv s env f (export_task json) (requested uid month json w)).1

  row_found :
      exists_row (λ (e : Export). e.id == w.seqs.exports) w.db.exports ≡ false
      → find_export w.seqs.exports (w.db.exports ++ requested_row uid month w ∷ [])
        ≡ some (requested_row uid month w)
  row_found fresh =
      rw (find_row-append_right _ w.db.exports _ fresh) (rw (==_refl w.seqs.exports) refl)

  task_done :
      f.unmarshal_payload json ≡ some (requested_payload f uid month w)
      → f.parse_date (f.format_date month) ≡ some month
      → csv_file f (month_rows env uid month w.db) ≡ some body
      → Succeeds
          (λ _ v.
            Exported contents env f
              (requested_payload f uid month w)
              (requested uid month json w).db
              v
            × Evolved f w.seqs.exports (requested uid month json w).db v)
          (handle_export_csv s env f (export_task json) (requested uid month json w))
  unfolding handle_export_csv
  task_done decoded dated written =
      let p = requested_payload f uid month w in
      let v = requested uid month json w in
      rw decoded (
        both-Yields
          (ensure _
            (export_payload-Completes s IsKey contents laws env f p month body v dated written refl)
            (export_payload-Yields s IsKey contents laws env f p v))
          (export_payload-Evolved s IsKey contents laws env f p v))
    where
      both-Yields :
          {r : Result Unit × World}
          → Succeeds
              (λ _ v.
                Exported contents env f
                  (requested_payload f uid month w)
                  (requested uid month json w).db
                  v)
              r
          → Evolved f w.seqs.exports (requested uid month json w).db r.1
          → Succeeds
              (λ _ v.
                Exported contents env f
                  (requested_payload f uid month w)
                  (requested uid month json w).db
                  v
                × Evolved f w.seqs.exports (requested uid month json w).db v)
              r
      both-Yields {r = (ok a, v)} h k = record { at = (h.at.0, (h.at.1, k)) }
      both-Yields {r = (err e, v)} h k = absurd h.at

  ready_row :
      (v : World)
      → exists_row (λ (e : Export). e.id == w.seqs.exports) w.db.exports ≡ false
      → Exported contents env f (requested_payload f uid month w) (requested uid month json w).db v
      → Evolved f w.seqs.exports (requested uid month json w).db v
      → IsReadyRow f uid w.seqs.exports v.db
  ready_row v fresh h k =
      let (e, (row, owner)) =
        find_evolved f w.seqs.exports w.seqs.exports _ _ v.db.exports k.rows (row_found fresh) in
      let same : e.id ≡ w.seqs.exports =
        (==_iff e.id w.seqs.exports).0 (find_row_holds _ v.db.exports e row) in
      let (status, path) = find_row-All _ _ v.db.exports e h.is_done row same in
      record { row = e; row_is = row; owner_is = owner; status_is = status; path_is = path }

  download_ready :
      (v : World)
      → (uid == 0) ≡ false
      → (w.seqs.exports == 0) ≡ false
      → v.faults ≡ []
      → IsReadyRow f uid w.seqs.exports v.db
      → contents (export_key f w.seqs.exports) v.files ≡ some body
      → (download s (some uid) (some w.seqs.exports) v).0
        ≡ replied 200 (record { filename = export_key f w.seqs.exports; body = body })
  unfolding download owned_export get_export_by_id call answer
  download_ready v user positive quiet r stored =
      let owner : (r.row.user_id == uid) ≡ true = (==_iff r.row.user_id uid).1 r.owner_is in
      rw (user, positive)
        (rw quiet (
          rw (r.row_is) (
            rw (owner, r.path_is, r.status_is)
              (sent (s.open_file (export_key f w.seqs.exports) (record v { faults = [] }))
                (laws.open_answers _ body (record v { faults = [] }) refl stored)))))
    where
      sent :
          (x : Result String × World)
          → x.0 ≡ ok body
          → (attached (export_key f w.seqs.exports) x).0
            ≡ replied 200 (record { filename = export_key f w.seqs.exports; body = body })
      sent (ok b, u) h = let same : b ≡ body = cc in rw same refl
      sent (err e, u) h = cc

  succeeded :
      {P : World → Type 0} (r : Result Unit × World)
      → Succeeds (λ _ v. P v) r
      → (r.1.faults ≡ []) × P r.1
  succeeded (ok a, v) h = h.at
  succeeded (err e, v) h = absurd h.at

  stored_body :
      (v : World)
      → f.parse_date (f.format_date month) ≡ some month
      → csv_file f (month_rows env uid month w.db) ≡ some body
      → Exported contents env f (requested_payload f uid month w) (requested uid month json w).db v
      → contents (export_key f w.seqs.exports) v.files ≡ some body
  stored_body v dated written h =
      let month_same : h.month ≡ month = some_same (dated_again h.month_is) in
      let written_again : csv_file f (month_rows env uid month w.db) ≡ some h.body =
        rw month_same at h.body_is in
      let body_same : h.body ≡ body = some_same (sym written_again ∙ written) in
      rw body_same at h.stored_is
    where
      some_same : {A : Type 0} {a b : A} → some a ≡ some b → a ≡ b
      some_same k = cc

      dated_again : {m : ℕ} → f.parse_date (f.format_date month) ≡ some m → some m ≡ some month
      dated_again k = sym k ∙ dated

  -- Without faults, when the user exists, the next export id is positive and unused, the payload
  -- survives JSON, the month survives its date format and the month's rows can be written as
  -- CSV, CreateExport enqueues one task, and after handleExportCSV has worked on it Download
  -- answers the user that CSV under the name of the export.
  pub export_served :
      w.faults ≡ []
      → (uid == 0) ≡ false
      → user_exists w.db uid ≡ true
      → (w.seqs.exports == 0) ≡ false
      → exists_row (λ (e : Export). e.id == w.seqs.exports) w.db.exports ≡ false
      → f.marshal_payload (requested_payload f uid month w) ≡ some json
      → f.unmarshal_payload json ≡ some (requested_payload f uid month w)
      → f.parse_date (f.format_date month) ≡ some month
      → csv_file f (month_rows env uid month w.db) ≡ some body
      → let w' = (post_export f (some uid) (some month) w).1 in
        (w'.tasks ≡ w.tasks ++ export_task json ∷ [])
        × ((download s
              (some uid)
              (some w.seqs.exports)
              (handle_export_csv s env f (export_task json) w').1).0
            ≡ replied 200 (record { filename = export_key f w.seqs.exports; body = body }))
  export_served quiet user known positive fresh encoded decoded dated written =
      let run = post_export_runs f uid month json w quiet known encoded user in
      let (calm, (exported, evolved)) =
        succeeded
          {P = λ v.
            Exported contents env f (requested_payload f uid month w)
              (requested uid month json w).db v
            × Evolved f w.seqs.exports (requested uid month json w).db v}
          _ (task_done decoded dated written) in
      rw run (
        refl,
        download_ready handled user positive calm (ready_row handled fresh exported evolved)
            (stored_body handled dated written exported),
      )
