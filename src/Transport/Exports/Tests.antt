-- ===== src/Transport/Exports/Tests.antt =====
-- An export of the sample world, from its request to its download.
use ledger_x.Repo.Outcome.{Yields}
use Prim.Native.String.{◌++◌ as str_append}
use ledger_x.Worker.Exports.States.{export_payload-Evolved, Evolved}
use ledger_x.Worker.Exports.{handle_export_csv, export_payload, csv_file, Formats, ExportCsvPayload}
use ledger_x.Worker.Exports.Finished.{export_payload-Yields, Exported}
use ledger_x.Repo.World.{◌>>=◌, call, answer, World, File}
use ledger_x.Transport.Exports.Downloads.{owned_export_hidden, download_own, IsOwnFile}
use ledger_x.Storage.Laws.{AnyKey, s3-IsStorage, IsStorage}
use ledger_x.Prelude.{◌≡◌, ◌∷◌, true, some, refl, inl, [], String, Option, List}
use ledger_x.Transport.Exports.Owned.{
  works, posts, then_step, at_start, WellFormed, Reach-WellFormed, Reach,
}
use ledger_x.Storage.{s3, read_file, Storage}
use ledger_x.Repo.Exports.{month_rows, insert_export, create_export}
use ledger_x.Transport.Exports.{
  send_file, register_export, post_export, owned_export, enqueue_export, enqueue, download,
}
use ledger_x.Transport.Exports.Served.{export_served}
use ledger_x.Service.Samples.{sample_env, posted_world}
use ledger_x.Transport.Handlers.{replied, rejected}
use ledger_x.Transport.Exports.Requested.{export_task}

abbrev first_payload : ExportCsvPayload
first_payload = record { export_id = 1; user_id = 1; month = "1970-01-01" }

-- Every export has the same text at_start.
abbrev sample_formats : Formats
sample_formats = record {
  marshal_payload = λ p. some "{}";
  unmarshal_payload = λ json. some first_payload;
  format_month = λ m. "1970-01";
  format_date = λ m. "1970-01-01";
  parse_date = λ d. some 0;
  format_rfc3339 = λ t. "1970-01-01T00:00:00Z";
  sprint = λ n. "1";
  sprint_int = λ n. "500";
  csv_write = λ rows. some "csv";
}

abbrev bucket : Storage
bucket = s3 "exports/"

abbrev bucket_contents : String → List File → Option String
bucket_contents key = read_file (str_append "exports/" key)

bucket-IsStorage : IsStorage bucket AnyKey bucket_contents
bucket-IsStorage = s3-IsStorage "exports/"

written : csv_file sample_formats (month_rows sample_env 1 0 posted_world.db) ≡ some "csv"
unfolding csv_file
written = refl

export_served_example :
    let w' = (post_export sample_formats (some 1) (some 0) posted_world).1 in
    (w'.tasks ≡ export_task "{}" ∷ [])
    × ((download bucket
          (some 1)
          (some 1)
          (handle_export_csv bucket sample_env sample_formats (export_task "{}") w').1).0
        ≡ replied 200 (record { filename = "export_1.csv"; body = "csv" }))
export_served_example =
    export_served bucket AnyKey bucket_contents bucket-IsStorage sample_env sample_formats 1 0 "{}"
      "csv" posted_world refl refl refl refl refl refl refl refl written

abbrev asked_world : World
asked_world = (post_export sample_formats (some 1) (some 0) posted_world).1

abbrev exported_world : World
exported_world =
    (handle_export_csv bucket sample_env sample_formats (export_task "{}") asked_world).1

exported-Reach : Reach bucket sample_env sample_formats posted_world exported_world
unfolding post_export register_export create_export insert_export enqueue_export enqueue call answer
    ◌>>=◌
exported-Reach =
    then_step (then_step at_start (posts posted_world [] (some 1) (some 0)))
      (works asked_world [] (export_task "{}"))

Reach-WellFormed_example : WellFormed sample_formats exported_world
Reach-WellFormed_example =
    Reach-WellFormed sample_formats bucket AnyKey bucket_contents bucket-IsStorage sample_env
      exported-Reach tt

download_done :
    (download bucket (some 1) (some 1) exported_world).0
    ≡ replied 200 (record { filename = "export_1.csv"; body = "csv" })
download_done = export_served_example.1

download_own_example :
    IsOwnFile bucket_contents sample_formats 1 1 exported_world
      (record { filename = "export_1.csv"; body = "csv" })
download_own_example =
    download_own bucket AnyKey bucket_contents bucket-IsStorage sample_env sample_formats 1 1
      exported_world posted_world 200 _ refl exported-Reach download_done

owned_export_hidden_example :
    (owned_export (some 2) (some 1) (λ e. send_file bucket true e.file_path) posted_world).0
    ≡ rejected 404
owned_export_hidden_example =
    owned_export_hidden (λ e. send_file bucket true e.file_path) 2 1 posted_world refl refl
      (inl refl)

export_payload-Evolved_example :
    Evolved sample_formats 1 posted_world.db
      (export_payload bucket sample_env sample_formats first_payload posted_world).1
export_payload-Evolved_example =
    export_payload-Evolved bucket AnyKey bucket_contents bucket-IsStorage sample_env sample_formats
      first_payload posted_world

export_payload-Yields_example :
    Yields
      (λ _ v. Exported bucket_contents sample_env sample_formats first_payload posted_world.db v)
      (export_payload bucket sample_env sample_formats first_payload posted_world)
export_payload-Yields_example =
    export_payload-Yields bucket AnyKey bucket_contents bucket-IsStorage sample_env sample_formats
      first_payload posted_world
