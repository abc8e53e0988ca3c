-- ===== src/Worker/Exports/States.antt =====
-- What the export task does to the exports, under any faults.
use ledger_x.Prelude.{
  ◌≡◌, ◌∷◌, ◌==◌, ℕ, some, refl, none, inr, inl, [], String, Option, List, Bool-cases, ==_iff,
}
use ledger_x.Repo.Models.{Export, Database}
use ledger_x.Repo.World.{ok, err, bad_input, Result, File, Action, World, Fault}
use ledger_x.Worker.Exports.{
  or_input_error, or_failed, guarded, fail_export, export_payload, csv_file, ExportCsvPayload,
  export_key, Formats,
}
use ledger_x.Repo.Keeps.{Keeps-raise, Keeps-pure, Keeps-bind, Keeps-attempt, Keeps-call, Keeps}
use ledger_x.Repo.Exports.{list_postings_for_month, with_status, update_export_status}
use ledger_x.Prelude.Select.{update_rows}
use ledger_x.Service.Types.{Env}
use ledger_x.Storage.Laws.{IsStorage}
use ledger_x.Storage.{Storage}
use ledger_x.Service.Summary.{ignore}

-- The status and file_path that the task writes for the export `id`.
pub data IsVerdict (f : Formats) (id : ℕ) : String → Option String → Type 0 where
  finished : IsVerdict f id "done" (some (export_key f id))
  given_up : IsVerdict f id "error" none

-- A row before and after.
pub data Moves (f : Formats) (id : ℕ) (e : Export) : Export → Type 0 where
  kept : Moves f id e e
  moved :
      {status : String} {path : Option String} (at : ℕ)
      → e.id ≡ id
      → IsVerdict f id status path
      → Moves f id e (with_status status path at e)

-- Row by row.
abbrev pub Pairwise : {A : Type 0} → (A → A → Type 0) → List A → List A → Type 0
Pairwise R [] [] = Unit
Pairwise R [] (y ∷ ys) = ⊥
Pairwise R (x ∷ xs) [] = ⊥
Pairwise R (x ∷ xs) (y ∷ ys) = R x y × Pairwise R xs ys

pub Pairwise-refl :
    {A : Type 0} (R : A → A → Type 0) (xs : List A) → ((x : A) → R x x) → Pairwise R xs xs
Pairwise-refl R [] h = tt
Pairwise-refl R (x ∷ xs) h = (h x, Pairwise-refl R xs h)

-- Nothing but the exports of `d` has changed, and those row by row.
pub record Evolved (f : Formats) (id : ℕ) (d : Database) (w : World) : Type 0 where
  pub rest_same : w.db ≡ record d { exports = w.db.exports }
  pub rows : Pairwise (Moves f id) d.exports w.db.exports

module _ (f : Formats) (id : ℕ) where
  Moves-again :
      (e e' : Export) (status : String) (path : Option String) (at : ℕ)
      → IsVerdict f id status path
      → e'.id ≡ id
      → Moves f id e e'
      → Moves f id e (with_status status path at e')
  Moves-again e e' status path at v h kept = moved at h v
  Moves-again e e' status path at v h (moved before k u) = moved at k v

  rows_updated :
      (status : String) (path : Option String) (at : ℕ) (es es' : List Export)
      → IsVerdict f id status path
      → Pairwise (Moves f id) es es'
      → Pairwise
          (Moves f id)
          es
          (update_rows (λ (e : Export). e.id == id) (with_status status path at) es')
  rows_updated status path at [] [] v h = tt
  rows_updated status path at [] (e' ∷ es') v h = absurd h
  rows_updated status path at (e ∷ es) [] v h = absurd h
  rows_updated status path at (e ∷ es) (e' ∷ es') v h = elim (Bool-cases (e'.id == id)) [
    | inl here ↦ rw here (
      Moves-again e e' status path at v ((==_iff e'.id id).0 here) h.0,
      rows_updated status path at es es' v h.1,
    )
    | inr elsewhere ↦ rw elsewhere (h.0, rows_updated status path at es es' v h.1)
  ]

  module _ (d : Database) where
    faults-Evolved :
        (w : World) (fs : List Fault) → Evolved f id d w → Evolved f id d (record w { faults = fs })
    faults-Evolved w fs h = record { rest_same = h.rest_same; rows = h.rows }

    same_db-Evolved : (w w' : World) → w'.db ≡ w.db → Evolved f id d w → Evolved f id d w'
    same_db-Evolved w w' e h = record { rest_same = rw e h.rest_same; rows = rw e h.rows }

    update-Evolved :
        (status : String) (path : Option String)
        → IsVerdict f id status path
        → Keeps (Evolved f id d) (update_export_status id status path)
    unfolding update_export_status
    update-Evolved status path v = Keeps-call _ faults-Evolved (record {
      at = λ w h. record {
        rest_same = rw h.rest_same refl;
        rows = rows_updated status path w.now d.exports w.db.exports v h.rows;
      };
    })

    fail_export-Evolved : Keeps (Evolved f id d) (fail_export id)
    unfolding fail_export ignore
    fail_export-Evolved = record { at = (update-Evolved "error" none given_up).at }

    or_failed-Evolved : {A : Type 0} (r : Result A) → Keeps (Evolved f id d) (or_failed id r)
    or_failed-Evolved (ok a) = Keeps-pure a
    or_failed-Evolved (err e) = Keeps-bind _ _ fail_export-Evolved (λ _. Keeps-raise e)

    guarded-Evolved :
        {A : Type 0} (m : Action A)
        → Keeps (Evolved f id d) m
        → Keeps (Evolved f id d) (guarded id m)
    unfolding guarded
    guarded-Evolved m k = Keeps-bind _ _ (Keeps-attempt m k) or_failed-Evolved

    or_input_error-Evolved : {A : Type 0} (o : Option A) → Keeps (Evolved f id d) (or_input_error o)
    or_input_error-Evolved none = Keeps-raise bad_input
    or_input_error-Evolved (some a) = Keeps-pure a

    list_postings_for_month-Evolved :
        (env : Env) (uid month : ℕ) → Keeps (Evolved f id d) (list_postings_for_month env uid month)
    unfolding list_postings_for_month
    list_postings_for_month-Evolved env uid month =
        Keeps-call _ faults-Evolved (record { at = λ w h. h })

module _ (s : Storage) (IsKey : String → Type 0) (contents : String → List File → Option String)
    (laws : IsStorage s IsKey contents) (env : Env) (f : Formats) where
  save-Evolved :
      (id : ℕ) (d : Database) (key body : String) → Keeps (Evolved f id d) (s.save key body)
  save-Evolved id d key body = record {
    at = λ w. same_db-Evolved f id d w _ (laws.save_keeps_db key body w);
  }

  export_payload-Keeps :
      (p : ExportCsvPayload) (d : Database)
      → Keeps (Evolved f p.export_id d) (export_payload s env f p)
  unfolding export_payload
  export_payload-Keeps p d =
      let id = p.export_id in
      Keeps-bind _ _
        (guarded-Evolved f id d _ (or_input_error-Evolved f id d (f.parse_date p.month)))
        λ month.
          Keeps-bind _ _
            (guarded-Evolved f id d _ (list_postings_for_month-Evolved f id d env p.user_id month))
            λ rows.
              Keeps-bind _ _
                (guarded-Evolved f id d _ (or_input_error-Evolved f id d (csv_file f rows)))
                λ body.
                  Keeps-bind _ _
                    (guarded-Evolved f id d _ (save-Evolved id d (export_key f id) body))
                    λ _. update-Evolved f id d "done" (some (export_key f id)) finished

  -- The export task under any faults changes no table but the exports, and of these only rows
  -- with its id, which it leaves, or marks done with the file of that id, or marks as error with
  -- no file.
  pub export_payload-Evolved :
      (p : ExportCsvPayload) (w : World) → Evolved f p.export_id w.db (export_payload s env f p w).1
  export_payload-Evolved p w =
      (export_payload-Keeps p w.db).at w
        (record { rest_same = refl; rows = Pairwise-refl _ w.db.exports (λ e. kept) })
