-- ===== src/Storage/Tests.antt =====
-- The stores of the sample configuration.
use text.Mathlib.TextLemmas.{append_cancel_left}
use Prim.Native.String.{◌++◌ as str_append}
use ledger_x.Storage.Laws.{AnyKey, s3-IsStorage, local-IsStorage, IsStorage}
use ledger_x.Storage.{s3, read_file, local_path, local, Paths}
use ledger_x.Prelude.{◌≡◌, false, String}

abbrev flat_paths : Paths
flat_paths = record { join = str_append; clean = λ k. k; has_suffix_slash = λ k. false }

flat_apart :
    (key other : String)
    → AnyKey key
    → AnyKey other
    → local_path flat_paths "exports" key ≡ local_path flat_paths "exports" other
    → key ≡ other
flat_apart key other h k e =
    append_cancel_left "/" key other
      (append_cancel_left "exports" (str_append "/" key) (str_append "/" other) e)

local-IsStorage_example :
    IsStorage
      (local flat_paths "exports")
      AnyKey
      (λ key. read_file (local_path flat_paths "exports" key))
local-IsStorage_example = local-IsStorage flat_paths "exports" AnyKey flat_apart

s3-IsStorage_example :
    IsStorage (s3 "exports/") AnyKey (λ key. read_file (str_append "exports/" key))
s3-IsStorage_example = s3-IsStorage "exports/"
