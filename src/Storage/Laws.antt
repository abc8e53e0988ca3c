-- ===== src/Storage/Laws.antt =====
-- What a client of the interface Storage relies on, and that both implementations give it.
use text.Mathlib.TextLemmas.{append_cancel_left}
use ledger_x.Repo.Outcome.{weaken-Yields, bind-Yields, call-Yields, Yields-ok, Yields-err, Yields}
use ledger_x.Prelude.{
  ◌∙◌, none, eq_iff, ◌≢◌, ◌≡◌, ◌∷◌, true, str_eq, some, refl, not, inr, inl, false, eq_refl, [],
  String, Option, List, Bool-cases,
}
use ledger_x.Repo.Success.{bind-Succeeds, no_faults_later, call-Succeeds, Completes}
use ledger_x.Repo.World.{missing_file, call, answer, Fault, ok, World, File}
use ledger_x.Storage.{
  str_append, s3_save, s3_open, s3, local_save, local_path, local_open, local, Paths, some_file,
  no_change, get_file, put_file, write_file, read_file, at_path, Storage,
}
use ledger_x.Prelude.Select.{where_rows, find_row}
use ledger_x.Repo.Keeps.{Keeps-bind, Keeps-pure, Keeps-call, Keeps}

-- The object under a key is `contents key` of the files, and keys in `IsKey` do not share one.
pub record IsStorage (s : Storage) (IsKey : String → Type 0)
    (contents : String → List File → Option String) : Type 0 where
  pub save_keeps_db : (key body : String) (w : World) → (s.save key body w).1.db ≡ w.db
  pub save_keeps_tasks : (key body : String) (w : World) → (s.save key body w).1.tasks ≡ w.tasks
  pub save_stores :
      (key body : String) (w : World)
      → Yields (λ _ w'. contents key w'.files ≡ some body) (s.save key body w)
  pub save_completes :
      (key body : String) (w : World) → w.faults ≡ [] → Completes (s.save key body w)
  pub save_others :
      (key other body : String) (w : World)
      → IsKey key
      → IsKey other
      → key ≢ other
      → contents other (s.save key body w).1.files ≡ contents other w.files
  pub open_keeps_db : (key : String) (w : World) → (s.open_file key w).1.db ≡ w.db
  pub open_reads :
      (key : String) (w : World)
      → Yields (λ body _. contents key w.files ≡ some body) (s.open_file key w)
  pub open_answers :
      (key body : String) (w : World)
      → w.faults ≡ []
      → contents key w.files ≡ some body
      → (s.open_file key w).0 ≡ ok body

pub read_written :
    (path body : String) (fs : List File) → read_file path (write_file path body fs) ≡ some body
read_written path body fs = rw (eq_refl path) refl

other_path :
    (f path other : String)
    → str_eq path other ≡ false
    → str_eq f path ≡ true
    → str_eq f other ≡ false
other_path f path other h k = let same : f ≡ path = (eq_iff f path).0 k in rw same h

read_removed :
    (path other : String) (fs : List File)
    → str_eq path other ≡ false
    → find_row (at_path other) (where_rows (λ f. not (at_path path f)) fs)
      ≡ find_row (at_path other) fs
read_removed path other [] h = refl
read_removed path other (f ∷ fs) h = elim (Bool-cases (str_eq f.path path)) [
  | inl here ↦ rw (here, other_path f.path path other h here) (read_removed path other fs h)
  | inr elsewhere ↦ rw (elsewhere, read_removed path other fs h) refl
]

pub read_others :
    (path other body : String) (fs : List File)
    → str_eq path other ≡ false
    → read_file other (write_file path body fs) ≡ read_file other fs
read_others path other body fs h = rw (h, read_removed path other fs h) refl

-- A call that changes nothing but the files under one path.
record Touches (path : String) (w w' : World) : Type 0 where
  db_same : w'.db ≡ w.db
  tasks_same : w'.tasks ≡ w.tasks
  others_same :
      (other : String)
      → str_eq path other ≡ false
      → read_file other w'.files ≡ read_file other w.files

module _ (path : String) (w : World) where
  faults-Touches :
      (v : World) (fs : List Fault) → Touches path w v → Touches path w (record v { faults = fs })
  faults-Touches v fs h = record {
    db_same = h.db_same;
    tasks_same = h.tasks_same;
    others_same = h.others_same;
  }

  put_file-Touches : (body : String) → Keeps (Touches path w) (put_file path body)
  unfolding put_file
  put_file-Touches body = Keeps-call _ faults-Touches (record {
    at = λ v h. record {
      db_same = h.db_same;
      tasks_same = h.tasks_same;
      others_same = λ other k. read_others path other body v.files k ∙ h.others_same other k;
    };
  })

  no_change-Touches : Keeps (Touches path w) no_change
  unfolding no_change
  no_change-Touches = Keeps-call _ faults-Touches (Keeps-pure tt)

  get_file-Touches : Keeps (Touches path w) (get_file path)
  unfolding get_file
  get_file-Touches =
      Keeps-call _ faults-Touches (record { at = λ v h. scanned (read_file path v.files) v h })
    where
      scanned :
          (o : Option String) (v : World) → Touches path w v → Touches path w (some_file o v).1
      scanned none v h = h
      scanned (some body) v h = h

  untouched : Touches path w w
  untouched = record { db_same = refl; tasks_same = refl; others_same = λ other h. refl }

put_file-Yields :
    (path body : String) (w : World)
    → Yields (λ _ w'. read_file path w'.files ≡ some body) (put_file path body w)
unfolding put_file
put_file-Yields path body w = call-Yields _ w (Yields-ok tt _ (read_written path body w.files))

no_change-Yields :
    (P : List File → Type 0) (w : World) → P w.files → Yields (λ _ w'. P w'.files) (no_change w)
unfolding no_change
no_change-Yields P w h = call-Yields _ w (Yields-ok tt _ h)

no_change-Completes : (w : World) → w.faults ≡ [] → Completes (no_change w)
unfolding no_change
no_change-Completes w h = call-Succeeds _ w h (record { at = (no_faults_later w h, tt) })

put_file-Completes :
    (path body : String) (w : World) → w.faults ≡ [] → Completes (put_file path body w)
unfolding put_file
put_file-Completes path body w h = call-Succeeds _ w h (record { at = (no_faults_later w h, tt) })

get_file-Yields :
    (path : String) (w : World)
    → Yields (λ body _. read_file path w.files ≡ some body) (get_file path w)
unfolding get_file
get_file-Yields path w = call-Yields _ w (scanned (read_file path w.files) _)
  where
    scanned : (o : Option String) (v : World) → Yields (λ body _. o ≡ some body) (some_file o v)
    scanned none v = Yields-err missing_file v
    scanned (some body) v = Yields-ok body v refl

get_file-answers :
    (path body : String) (w : World)
    → w.faults ≡ []
    → read_file path w.files ≡ some body
    → (get_file path w).0 ≡ ok body
unfolding get_file call answer
get_file-answers path body w h k = rw h (rw k refl)

different : (path other : String) → path ≢ other → str_eq path other ≡ false
different path other h = elim (Bool-cases (str_eq path other)) [
  | inl same ↦ absurd (h ((eq_iff path other).0 same))
  | inr apart ↦ apart
]

abbrev pub AnyKey : String → Type 0
AnyKey key = Unit

-- S3 keeps the promises of Storage for every prefix: Save stores the object, leaves other
-- objects and the database alone and succeeds without faults, and Open reads what is stored.
pub s3-IsStorage :
    (prefix : String) → IsStorage (s3 prefix) AnyKey (λ key. read_file (str_append prefix key))
unfolding s3_save s3_open
s3-IsStorage prefix = record {
  save_keeps_db = λ key body w.
      ((put_file-Touches (str_append prefix key) w body).at w (untouched _ w)).db_same;
  save_keeps_tasks = λ key body w.
      ((put_file-Touches (str_append prefix key) w body).at w (untouched _ w)).tasks_same;
  save_stores = λ key body w. put_file-Yields (str_append prefix key) body w;
  save_completes = λ key body w h. put_file-Completes (str_append prefix key) body w h;
  save_others = λ key other body w h k apart.
      ((put_file-Touches (str_append prefix key) w body).at w (untouched _ w)).others_same _
        (different _ _ (λ e. apart (append_cancel_left prefix key other e)));
  open_keeps_db =
      λ key w. ((get_file-Touches (str_append prefix key) w).at w (untouched _ w)).db_same;
  open_reads = λ key w. get_file-Yields (str_append prefix key) w;
  open_answers = λ key body w h k. get_file-answers (str_append prefix key) body w h k;
}

module _ (p : Paths) (dir : String) where
  local_save-Touches :
      (key body : String) (w : World)
      → Touches (local_path p dir key) w (local_save p dir key body w).1
  unfolding local_save
  local_save-Touches key body w =
      let path = local_path p dir key in
      (Keeps-bind _ _ (no_change-Touches path w) (λ _.
          Keeps-bind _ _ (put_file-Touches path w "") (λ _.
            Keeps-bind _ _ (put_file-Touches path w body) (λ _. no_change-Touches path w)))).at
        w (untouched path w)

  local_save-Yields :
      (key body : String) (w : World)
      → Yields
          (λ _ w'. read_file (local_path p dir key) w'.files ≡ some body)
          (local_save p dir key body w)
  unfolding local_save
  local_save-Yields key body w =
      let path = local_path p dir key in
      bind-Yields (λ _ _. Unit) _ _ w (no_change-Yields (λ fs. Unit) w tt)
        λ _ w1. λ h1.
          bind-Yields (λ _ _. Unit) _ _ w1
            (weaken-Yields _ _ (put_file-Yields path "" w1) (λ _ v k. tt))
            λ _ w2. λ h2.
              bind-Yields (λ _ v. read_file path v.files ≡ some body) _ _ w2
                (put_file-Yields path body w2)
                λ _ w3. λ h3. no_change-Yields (λ fs. read_file path fs ≡ some body) w3 h3

  local_save-Completes :
      (key body : String) (w : World) → w.faults ≡ [] → Completes (local_save p dir key body w)
  unfolding local_save
  local_save-Completes key body w h =
      let path = local_path p dir key in
      bind-Succeeds (λ _ _. Unit) _ _ w (no_change-Completes w h)
        λ _ w1. λ h1. λ _.
          bind-Succeeds (λ _ _. Unit) _ _ w1 (put_file-Completes path "" w1 h1)
            λ _ w2. λ h2. λ _.
              bind-Succeeds (λ _ _. Unit) _ _ w2 (put_file-Completes path body w2 h2)
                λ _ w3. λ h3. λ _. no_change-Completes w3 h3

  -- filepath keeps the keys in `IsKey` apart.
  module _ (IsKey : String → Type 0)
      (apart : (key other : String)
        → IsKey key
        → IsKey other
        → local_path p dir key ≡ local_path p dir other
        → key ≡ other) where
    -- When filepath keeps the paths of some keys apart, Local keeps the promises of Storage on
    -- them: Save stores the object, leaves other objects and the database alone and succeeds
    -- without faults, and Open reads what is stored.
    pub local-IsStorage : IsStorage (local p dir) IsKey (λ key. read_file (local_path p dir key))
    unfolding local_open
    local-IsStorage = record {
      save_keeps_db = λ key body w. (local_save-Touches key body w).db_same;
      save_keeps_tasks = λ key body w. (local_save-Touches key body w).tasks_same;
      save_stores = local_save-Yields;
      save_completes = local_save-Completes;
      save_others = λ key other body w h k differ.
          (local_save-Touches key body w).others_same _
            (different _ _ (λ e. differ (apart key other h k e)));
      open_keeps_db =
          λ key w. ((get_file-Touches (local_path p dir key) w).at w (untouched _ w)).db_same;
      open_reads = λ key w. get_file-Yields (local_path p dir key) w;
      open_answers = λ key body w h k. get_file-answers (local_path p dir key) body w h k;
    }
