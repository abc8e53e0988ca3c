-- ===== src/Storage.antt =====
-- internal/storage: storage.go and s3.go. Files and objects stand in one list of the World; what
-- the operating system and S3 do to them is written out here.
pub mod Laws
mod Tests
use ledger_x.Repo.Outcome.{Yields}
use Prim.Native.String.{◌++◌ as str_append}
use ledger_x.Repo.World.{
  ◌>>◌, raise_if, bad_input, raise, pure, ok, missing_file, call, File, Action,
}
use ledger_x.Prelude.{
  ◌&&◌, if◌then◌else◌, ◌∷◌, ◌/◌, str_eq, some, not, none, String, Option, List, Bool,
}
use ledger_x.Prelude.Select.{where_rows, find_row}

-- The interface Storage.
pub record Storage : Type 0 where
  pub save : String → String → Action Unit
  pub open_file : String → Action String

abbrev pub at_path : String → File → Bool
at_path path f = str_eq f.path path

abbrev pub body_of : Option File → Option String
body_of none = none
body_of (some f) = some f.body

abbrev pub read_file : String → List File → Option String
read_file path fs = body_of (find_row (at_path path) fs)

abbrev pub write_file : String → String → List File → List File
write_file path body fs =
    record { path = path; body = body } ∷ where_rows (λ f. not (at_path path f)) fs

unfoldable pub put_file : String → String → Action Unit
put_file path body = call λ w. (ok tt, record w { files = write_file path body w.files })

abbrev pub some_file : Option String → Action String
some_file none = raise missing_file
some_file (some body) = pure body

unfoldable pub get_file : String → Action String
get_file path = call (λ w. some_file (read_file path w.files) w)

-- A call that changes nothing here: os.MkdirAll, Close.
unfoldable pub no_change : Action Unit
no_change = call (pure tt)

-- filepath.Join and filepath.Clean, and strings.HasSuffix(_, "/")
pub record Paths : Type 0 where
  pub join : String → String → String
  pub clean : String → String
  pub has_suffix_slash : String → Bool

-- Local.path
abbrev pub local_path : Paths → String → String → String
local_path p dir key = p.join dir (p.clean (str_append "/" key))

-- Local.Save: os.Create empties the file. A copy that fails leaves it empty or whole here, where
-- io.Copy may also leave a part of it.
unfoldable pub local_save : Paths → String → String → String → Action Unit
local_save p dir key body =
    no_change
    >> (put_file (local_path p dir key) "" >> (put_file (local_path p dir key) body >> no_change))

unfoldable pub local_open : Paths → String → String → Action String
local_open p dir key = get_file (local_path p dir key)

abbrev pub local : Paths → String → Storage
local p dir = record { save = local_save p dir; open_file = local_open p dir }

-- S3.Save and S3.Open: PutObject replaces the object as a whole.
unfoldable pub s3_save : String → String → String → Action Unit
s3_save prefix key body = put_file (str_append prefix key) body

unfoldable pub s3_open : String → String → Action String
s3_open prefix key = get_file (str_append prefix key)

abbrev pub s3 : String → Storage
s3 prefix = record { save = s3_save prefix; open_file = s3_open prefix }

-- The variables EXPORT_STORAGE, EXPORT_DIR, S3_BUCKET and S3_PREFIX; "" where one is not set.
pub record Config : Type 0 where
  pub export_storage : String
  pub export_dir : String
  pub s3_bucket : String
  pub s3_prefix : String

abbrev pub with_slash : Paths → String → String
with_slash p prefix =
    if not (str_eq prefix "") && not (p.has_suffix_slash prefix)
    then str_append prefix "/"
    else prefix

-- NewS3FromEnv; loading the AWS configuration is the call that may fail.
unfoldable pub new_s3_from_env : Paths → Config → Action Storage
new_s3_from_env p c =
    raise_if (str_eq c.s3_bucket "") bad_input
    >> (no_change >> pure (s3 (with_slash p c.s3_prefix)))

-- NewLocal
unfoldable pub new_local : Paths → String → Action Storage
new_local p dir = no_change >> pure (local p dir)

abbrev pub dir_or_default : String → String
dir_or_default dir = if str_eq dir "" then "./tmp/exports" else dir

unfoldable pub from_env : Paths → Config → Action Storage
from_env p c =
    if str_eq c.export_storage "s3"
    then new_s3_from_env p c
    else new_local p (dir_or_default c.export_dir)
