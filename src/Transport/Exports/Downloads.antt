-- ===== src/Transport/Exports/Downloads.antt =====
-- Whose export a download serves, and what the others are told.
use ledger_x.Repo.Outcome.{Yields}
use ledger_x.Prelude.{
  ◌⊎◌, ◌≡◌, ◌==◌, ℕ, true, str_eq, some, refl, none, inr, inl, false, [], String, Option, List,
  Bool-cases, ==_iff,
}
use ledger_x.Transport.Exports.{
  send_file, owned_export, export_of_user, download, attached, Attachment,
}
use ledger_x.Repo.Models.{Export, Database}
use ledger_x.Service.Types.{Env}
use ledger_x.Repo.World.{
  unacknowledged, one_row, ok, next_fault, later_faults, fine, failed, err, call, answer, World,
  Result, File, Fault,
}
use ledger_x.Worker.Exports.{export_key, Formats}
use ledger_x.Transport.Handlers.{replied, rejected, Response, Handler}
use ledger_x.Storage.Laws.{IsStorage}
use ledger_x.Worker.Exports.States.{given_up, finished, IsVerdict}
use ledger_x.Transport.Exports.Owned.{WellFormed, Reach-WellFormed, Reach, IsWellFormed}
use ledger_x.Storage.{Storage}
use ledger_x.Repo.Exports.{get_export_by_id, find_export}
use ledger_x.Prelude.Select.{find_row_holds}
use ledger_x.Service.Samples.{user}
use ledger_x.Worker.Outbox.{waits}
use ledger_x.Prelude.Kept.{find_row-All}

-- What holds of the body of a reply.
abbrev OnReply : {A : Type 0} → (A → Type 0) → Response A → Type 0
OnReply Q (replied status a) = Q a
OnReply Q (rejected status) = Unit

reply_holds :
    {A : Type 0} (Q : A → Type 0) (r : Response A) (status : ℕ) (a : A)
    → OnReply Q r
    → r ≡ replied status a
    → Q a
reply_holds Q r status a h e = rw e at h

-- The user owns the export, and the body is the file of that export.
pub record IsOwnFile (contents : String → List File → Option String) (f : Formats) (uid id : ℕ)
    (w : World) (a : Attachment) : Type 0 where
  pub row : Export
  pub row_is : find_export id w.db.exports ≡ some row
  pub owner_is : row.user_id ≡ uid
  pub name_is : a.filename ≡ export_key f id
  pub body_is : contents (export_key f id) w.files ≡ some a.body

verdict_path :
    (f : Formats) (id : ℕ) (status : String) (path : Option String)
    → IsVerdict f id status path
    → str_eq status "done" ≡ true
    → path ≡ some (export_key f id)
verdict_path f id status path finished h = refl
verdict_path f id status path given_up h = absurd (false_true h)
  where
    false_true : str_eq "error" "done" ≡ true → ⊥
    false_true k = cc

done_path :
    (f : Formats) (e : Export)
    → IsWellFormed f e
    → str_eq e.status "done" ≡ true
    → e.file_path ≡ some (export_key f e.id)
done_path f e (inl (status, path)) h = absurd (pending_done (rw status at h))
  where
    pending_done : str_eq "pending" "done" ≡ true → ⊥
    pending_done k = cc
done_path f e (inr v) h = verdict_path f e.id e.status e.file_path v h

module _ (s : Storage) (IsKey : String → Type 0) (contents : String → List File → Option String)
    (laws : IsStorage s IsKey contents) (env : Env) (f : Formats) (uid id : ℕ) (w : World) where
  attached-IsOwnFile :
      (e : Export) (r : Result String × World)
      → find_export id w.db.exports ≡ some e
      → e.user_id ≡ uid
      → Yields (λ body _. contents (export_key f id) w.files ≡ some body) r
      → OnReply (IsOwnFile contents f uid id w) (attached (export_key f id) r).0
  attached-IsOwnFile e (err k, v) row owner h = tt
  attached-IsOwnFile e (ok body, v) row owner h = record {
    row = e;
    row_is = row;
    owner_is = owner;
    name_is = refl;
    body_is = h.at;
  }

  sent-IsOwnFile :
      (e : Export) (v : World) (path : Option String)
      → v.files ≡ w.files
      → find_export id w.db.exports ≡ some e
      → e.user_id ≡ uid
      → (str_eq e.status "done" ≡ true → path ≡ some (export_key f id))
      → OnReply (IsOwnFile contents f uid id w) (send_file s (str_eq e.status "done") path v).0
  sent-IsOwnFile e v none files row owner h = tt
  sent-IsOwnFile e v (some path) files row owner h = elim (Bool-cases (str_eq e.status "done")) [
    | inr waits ↦ rw waits tt
    | inl is_done ↦
        let same : path ≡ export_key f id = some_path (h is_done) in
        rw (is_done, same)
          (attached-IsOwnFile e _ row owner (rw (← files) (laws.open_reads (export_key f id) v)))
  ]
    where
      some_path : some path ≡ some (export_key f id) → path ≡ export_key f id
      some_path k = cc

  row_id : (e : Export) → find_export id w.db.exports ≡ some e → e.id ≡ id
  row_id e h = (==_iff e.id id).0 (find_row_holds (λ (x : Export). x.id == id) w.db.exports e h)

  served_from :
      (o : Option Export) (v : World)
      → WellFormed f w
      → find_export id w.db.exports ≡ o
      → v.files ≡ w.files
      → OnReply
          (IsOwnFile contents f uid id w)
          (export_of_user uid
            (λ e. send_file s (str_eq e.status "done") e.file_path)
            (one_row o v)).0
  served_from none v wf row files = tt
  served_from (some e) v wf row files = elim (Bool-cases (e.user_id == uid)) [
    | inr other ↦ rw other tt
    | inl own ↦ rw own (
        sent-IsOwnFile e v e.file_path files row ((==_iff e.user_id uid).0 own) (λ h.
          rw (row_id e row) at
            (done_path f e (find_row-All (IsWellFormed f) _ w.db.exports e wf row) h)))
  ]

  fault_served :
      (fault : Fault)
      → WellFormed f w
      → OnReply
          (IsOwnFile contents f uid id w)
          (export_of_user uid
            (λ e. send_file s (str_eq e.status "done") e.file_path)
            (answer fault
              (λ v. one_row (find_export id v.db.exports) v)
              (record w { faults = later_faults w.faults }))).0
  unfolding answer
  fault_served fine wf = served_from (find_export id w.db.exports) _ wf refl refl
  fault_served failed wf = tt
  fault_served unacknowledged wf = tt

  download_serves :
      WellFormed f w → OnReply (IsOwnFile contents f uid id w) (download s (some uid) (some id) w).0
  unfolding download owned_export get_export_by_id call
  download_serves wf = elim (Bool-cases (uid == 0)) [
    | inl nobody ↦ rw nobody tt
    | inr user ↦ rw user (elim (Bool-cases (id == 0)) [
      | inl bad ↦ rw bad tt
      | inr good ↦ rw good (fault_served (next_fault w.faults) wf)
    ])
  ]

  -- In every state that requests, tasks, status queries and downloads reach under any faults
  -- from one without exports, what Download serves to a user is the file of the export asked
  -- for, under its name, and that export is the user's.
  pub download_own :
      (u : World) (status : ℕ) (a : Attachment)
      → u.db.exports ≡ []
      → Reach s env f u w
      → (download s (some uid) (some id) w).0 ≡ replied status a
      → IsOwnFile contents f uid id w a
  download_own u status a start reached h =
      reply_holds (IsOwnFile contents f uid id w) _ status a
        (download_serves (Reach-WellFormed f s IsKey contents laws env reached (rw start tt))) h

-- The user has no export with this id.
abbrev pub NoExport : ℕ → ℕ → Database → Type 0
NoExport uid id d =
    (find_export id d.exports ≡ none)
    ⊎ ((e : Export) × ((find_export id d.exports ≡ some e) × ((e.user_id == uid) ≡ false)))

module _ {A : Type 0} (k : Export → Handler A) (uid id : ℕ) (w : World) where
  fault_hidden :
      (fault : Fault)
      → NoExport uid id w.db
      → (export_of_user uid k (
          answer fault
            (λ v. one_row (find_export id v.db.exports) v)
            (record w { faults = later_faults w.faults }))).0
        ≡ rejected 404
  unfolding answer
  fault_hidden fine (inl missing) = rw missing refl
  fault_hidden fine (inr (e, (row, other))) = rw row (rw other refl)
  fault_hidden failed h = refl
  fault_hidden unacknowledged h = refl

  -- A user who asks for an export that is another user's or missing is answered 404 under any
  -- faults, whatever the handler does with exports that are found.
  pub owned_export_hidden :
      (uid == 0) ≡ false
      → (id == 0) ≡ false
      → NoExport uid id w.db
      → (owned_export (some uid) (some id) k w).0 ≡ rejected 404
  unfolding owned_export get_export_by_id call
  owned_export_hidden user good h = rw (user, good) (fault_hidden (next_fault w.faults) h)
