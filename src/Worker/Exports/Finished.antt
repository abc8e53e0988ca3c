-- ===== src/Worker/Exports/Finished.antt =====
-- The export task without faults, and what its success means.
use ledger_x.Repo.Outcome.{
  weaken-Yields, call-Yields, bind-Yields, attempt-Yields, Yields-ok, Yields-err, Yields,
}
use ledger_x.Repo.World.{
  ◌>>◌, ◌>>=◌, raise, ok, err, continue, bad_input, World, Result, File, Error, Action,
}
use ledger_x.Prelude.{
  false, arith, ◌≡◌, ◌∷◌, ◌==◌, ℕ, some, refl, none, inr, inl, [], String, Option, List, Bool-cases,
  All,
}
use ledger_x.Repo.Success.{
  no_faults_later, ensure, call-Succeeds, bind-Succeeds, attempt-Succeeds, Succeeds-ok,
  Succeeds-Completes, Succeeds, Completes,
}
use ledger_x.Repo.Models.{Export, Database}
use ledger_x.Service.Types.{Env}
use ledger_x.Worker.Exports.{
  or_input_error, or_failed, guarded, fail_export, export_payload, export_key, csv_file, Formats,
  ExportCsvPayload,
}
use ledger_x.Storage.Laws.{IsStorage}
use ledger_x.Storage.{Storage}
use ledger_x.Repo.Exports.{with_status, update_export_status, month_rows, list_postings_for_month}
use ledger_x.Service.Transactions.Retry.{quiet}
use ledger_x.Prelude.Select.{update_rows}

-- Every row with this id is done, with the file of that id.
abbrev pub IsDone : Formats → ℕ → List Export → Type 0
IsDone f id =
    All (λ (e : Export). e.id ≡ id → (e.status ≡ "done") × (e.file_path ≡ some (export_key f id)))

-- The postings of the month that `d` holds stand as CSV in the file of the export, which is done.
pub record Exported (contents : String → List File → Option String) (env : Env) (f : Formats)
    (p : ExportCsvPayload) (d : Database) (w : World) : Type 0 where
  pub month : ℕ
  pub body : String
  pub month_is : f.parse_date p.month ≡ some month
  pub body_is : csv_file f (month_rows env p.user_id month d) ≡ some body
  pub stored_is : contents (export_key f p.export_id) w.files ≡ some body
  pub is_done : IsDone f p.export_id w.db.exports

module _ {A : Type 0} {Q : A → World → Type 0} where
  raised-Yields : {B : Type 0} (m : Action B) (e : Error) (w : World) → Yields Q ((m >> raise e) w)
  unfolding ◌>>=◌
  raised-Yields {B = B} m e w = continued (m w).0 (m w).1
    where
      continued : (r : Result B) (v : World) → Yields Q (continue r (λ _. raise e) v)
      continued (ok b) v = Yields-err e v
      continued (err k) v = Yields-err k v

  or_failed-Yields :
      (id : ℕ) (r : Result A) (w : World) → Yields Q (r, w) → Yields Q (or_failed id r w)
  or_failed-Yields id (ok a) w h = h
  or_failed-Yields id (err e) w h = raised-Yields (fail_export id) e w

  guarded-Yields : (id : ℕ) (m : Action A) (w : World) → Yields Q (m w) → Yields Q (guarded id m w)
  unfolding guarded
  guarded-Yields id m w h =
      bind-Yields (λ r v. Yields Q (r, v)) _ _ w (attempt-Yields m w h)
        (λ r v k. or_failed-Yields id r v k)

  guarded-Succeeds :
      (id : ℕ) (m : Action A) (w : World) → Succeeds Q (m w) → Succeeds Q (guarded id m w)
  unfolding guarded
  guarded-Succeeds id m w h =
      bind-Succeeds (λ r v. (a : A) × ((r ≡ ok a) × Q a v)) _ _ w (attempt-Succeeds m w h)
        (λ r v quiet k. rw k.1.0 (Succeeds-ok k.0 v quiet k.1.1))

or_input_error-Yields :
    {A : Type 0} (o : Option A) (w : World)
    → Yields (λ a v. (o ≡ some a) × (v ≡ w)) (or_input_error o w)
or_input_error-Yields none w = Yields-err bad_input w
or_input_error-Yields (some a) w = Yields-ok a w (refl, refl)

or_input_error-Succeeds :
    {A : Type 0} (o : Option A) (a : A) (w : World)
    → o ≡ some a
    → w.faults ≡ []
    → Succeeds (λ b v. (b ≡ a) × (v ≡ w)) (or_input_error o w)
or_input_error-Succeeds o a w h k = rw h (Succeeds-ok a w k (refl, refl))

not_both : (a b : ℕ) → (a == b) ≡ false → a ≡ b → ⊥
not_both a b h k = ground arith

updated-IsDone :
    (f : Formats) (id at : ℕ) (es : List Export)
    → IsDone f id (
        update_rows
          (λ (e : Export). e.id == id)
          (with_status "done" (some (export_key f id)) at)
          es)
updated-IsDone f id at [] = tt
updated-IsDone f id at (e ∷ es) = elim (Bool-cases (e.id == id)) [
  | inl here ↦ rw here ((λ k. (refl, refl)), updated-IsDone f id at es)
  | inr elsewhere ↦
      rw elsewhere ((λ k. absurd (not_both e.id id elsewhere k)), updated-IsDone f id at es)
]

update-Yields :
    (f : Formats) (id : ℕ) (w : World)
    → Yields
        (λ _ v. (v.files ≡ w.files) × IsDone f id v.db.exports)
        (update_export_status id "done" (some (export_key f id)) w)
unfolding update_export_status
update-Yields f id w =
    call-Yields _ w (Yields-ok tt _ (refl, updated-IsDone f id w.now w.db.exports))

update-Completes :
    (id : ℕ) (status : String) (path : Option String) (w : World)
    → w.faults ≡ []
    → Completes (update_export_status id status path w)
unfolding update_export_status
update-Completes id status path w h =
    call-Succeeds _ w h (record { at = (no_faults_later w h, tt) })

rows-Yields :
    (env : Env) (uid month : ℕ) (w : World)
    → Yields
        (λ rows v. rows ≡ month_rows env uid month w.db)
        (list_postings_for_month env uid month w)
unfolding list_postings_for_month
rows-Yields env uid month w = call-Yields _ w (Yields-ok _ _ refl)

rows-Completes :
    (env : Env) (uid month : ℕ) (w : World)
    → w.faults ≡ []
    → Completes (list_postings_for_month env uid month w)
unfolding list_postings_for_month
rows-Completes env uid month w h = call-Succeeds _ w h (record { at = (no_faults_later w h, tt) })

module _ (s : Storage) (IsKey : String → Type 0) (contents : String → List File → Option String)
    (laws : IsStorage s IsKey contents) (env : Env) (f : Formats) where
  -- When the export task reports success, however its steps failed to answer before, the file of
  -- the export holds the CSV of the month's rows as they were at the start, and every row of
  -- that id is done with that file.
  pub export_payload-Yields :
      (p : ExportCsvPayload) (w : World)
      → Yields (λ _ v. Exported contents env f p w.db v) (export_payload s env f p w)
  unfolding export_payload
  export_payload-Yields p w =
      let id = p.export_id in
      let key = export_key f id in
      bind-Yields (λ a v. (f.parse_date p.month ≡ some a) × (v ≡ w)) _ _ w
        (guarded-Yields id _ w (or_input_error-Yields (f.parse_date p.month) w))
        λ month w1. λ h1.
          bind-Yields (λ rows v. rows ≡ month_rows env p.user_id month w.db) _ _ w1
            (guarded-Yields id _ w1 (rw h1.1 (rows-Yields env p.user_id month w)))
            λ rows w2. λ h2.
              bind-Yields (λ body v. csv_file f rows ≡ some body) _ _ w2
                (guarded-Yields id _ w2
                  (weaken-Yields _ _ (or_input_error-Yields (csv_file f rows) w2) (λ a v k. k.0)))
                λ body w3. λ h3.
                  bind-Yields (λ _ v. contents key v.files ≡ some body) _ _ w3
                    (guarded-Yields id _ w3 (laws.save_stores key body w3))
                    λ _ w4. λ h4. weaken-Yields _ _ (update-Yields f id w4) λ _ v. λ h5. record {
                      month = month;
                      body = body;
                      month_is = h1.0;
                      body_is = rw (← h2) h3;
                      stored_is = rw h5.0 h4;
                      is_done = h5.1;
                    }

  pub export_payload-Completes :
      (p : ExportCsvPayload) (month : ℕ) (body : String) (w : World)
      → f.parse_date p.month ≡ some month
      → csv_file f (month_rows env p.user_id month w.db) ≡ some body
      → w.faults ≡ []
      → Completes (export_payload s env f p w)
  unfolding export_payload
  export_payload-Completes p month body w month_is body_is quiet =
      let id = p.export_id in
      bind-Succeeds (λ a v. (a ≡ month) × (v ≡ w)) _ _ w
        (guarded-Succeeds id _ w
          (or_input_error-Succeeds (f.parse_date p.month) month w month_is quiet))
        λ a w1. λ q1. λ h1.
          bind-Succeeds (λ rows v. rows ≡ month_rows env p.user_id month w.db) _ _ w1
            (guarded-Succeeds id _ w1 (
              rw (h1.0, h1.1)
                (ensure _ (rows-Completes env p.user_id month w quiet)
                  (rows-Yields env p.user_id month w))))
            λ rows w2. λ q2. λ h2.
              bind-Succeeds (λ _ _. Unit) _ _ w2
                (guarded-Succeeds id _ w2 (
                  Succeeds-Completes _
                    (or_input_error-Succeeds (csv_file f rows) body w2 (rw h2 body_is) q2)))
                λ text w3. λ q3. λ h3.
                  bind-Succeeds (λ _ _. Unit) _ _ w3
                    (guarded-Succeeds id _ w3 (laws.save_completes (export_key f id) text w3 q3))
                    λ _ w4. λ q4. λ h4. update-Completes id "done" (some (export_key f id)) w4 q4
