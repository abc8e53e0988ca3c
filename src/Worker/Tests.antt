-- ===== src/Worker/Tests.antt =====
-- A batch on a small outbox.
use Prim.Native.String.{◌++◌ as str_append}
use ledger_x.Prelude.{
  ◌==◌, if◌then◌else◌, zero, suc, String, true, arith, All, ◌≡◌, ◌∷◌, some, refl, none, map, inl,
  [], ℕ,
}
use ledger_x.Repo.Models.{Outbox}
use ledger_x.Repo.World.{ok, ◌>>=◌, fine, failed, call, answer, World}
use ledger_x.Repo.Tx.{with_rollback, triggers_pass, rollback, finish, commit, begin_after, begin}
use ledger_x.Worker.Outbox.{
  batches, settle_batch, select_batch, publish_message, publish_all, process_batch, mark_processed,
}
use ledger_x.Worker.Outbox.Drained.{batches_deliver}
use ledger_x.Worker.Snapshots.Daily.{snapshot_each_done, IsSnappable, HasSnapshot}
use ledger_x.Service.Samples.{sample_world, sample_env, posted_world}
use ledger_x.Worker.Snapshots.{
  snapshot_all_task, handle_snapshot_all, SnapshotFormats, snapshot_each,
}
use ledger_x.Prelude.Int.{◌+ℤ◌}
use ledger_x.Worker.Snapshots.Enqueued.{task_of, handle_snapshot_all_enqueues}
use ledger_x.Worker.Outbox.Batch.{waiting}
use ledger_x.Worker.Outbox.Keyed.{IsKeyed}
use ledger_x.Worker.Outbox.Received.{received, AllDelivered}
use ledger_x.Worker.Outbox.Delivery.{process_batch-AllDelivered}

abbrev event : ℕ → Outbox
event id = record {
  id = id;
  event_type = "TransactionCreated";
  payload = if id == 1 then "one" else "two";
  created_at = id;
  processed_at = none;
}

abbrev outbox_world : World
outbox_world = record {
  db = record {
    users = [];
    accounts = [];
    transactions = [];
    postings = [];
    idempotency_keys = [];
    outbox = event 1 ∷ event 2 ∷ [];
    balance_snapshots = [];
    exports = [];
  };
  saved = none;
  deferred = [];
  seqs = record {
    users = 1;
    accounts = 1;
    transactions = 1;
    postings = 1;
    outbox = 3;
    balance_snapshots = 1;
    exports = 1;
  };
  cache = [];
  messages = [];
  tasks = [];
  files = [];
  faults = fine ∷ fine ∷ failed ∷ [];
  now = 9;
}

-- The first event could not be published.
second_marked :
    map (λ (e : Outbox). e.processed_at) (process_batch [] outbox_world).1.db.outbox
    ≡ none ∷ some 9 ∷ []
unfolding process_batch begin begin_after with_rollback rollback select_batch publish_all
    publish_message mark_processed settle_batch commit finish triggers_pass call answer ◌>>=◌
second_marked = refl

outbox-IsKeyed : IsKeyed outbox_world.db.outbox
outbox-IsKeyed = ((λ h. refl, (λ h. cc, tt)), ((λ h. cc, (λ h. refl, tt)), tt))

process_batch-AllDelivered_example : AllDelivered (process_batch [] outbox_world).1
process_batch-AllDelivered_example =
    process_batch-AllDelivered [] outbox_world refl outbox-IsKeyed (inl refl, (inl refl, tt))

abbrev calm_world : World
calm_world = record outbox_world { faults = [] }

batches_deliver_example :
    All (λ e. received e (batches 1 calm_world).messages ≡ true) (event 1 ∷ event 2 ∷ [])
    × (waiting (batches 1 calm_world) ≡ 0)
batches_deliver_example =
    batches_deliver 1 calm_world refl refl outbox-IsKeyed (inl refl, (inl refl, tt)) (ground arith)

-- Account 1 of the sample world has one posting of 500.
snappable : IsSnappable sample_env 0 posted_world.db 1
unfolding ◌+ℤ◌
snappable = record { known = refl; fits = refl }

snapshot_each_done_example :
    let v = snapshot_each sample_env 0 (1 ∷ []) posted_world in
    (v.db.postings ≡ posted_world.db.postings) × All (HasSnapshot sample_env 0 v) (1 ∷ [])
snapshot_each_done_example =
    snapshot_each_done sample_env 0 (1 ∷ []) posted_world refl tt (snappable, tt)

-- A key spells the account with as many letters.
abbrev letters : ℕ → String
letters zero = ""
letters (suc n) = str_append "a" (letters n)

abbrev sample_snapshots : SnapshotFormats
sample_snapshots = record {
  unmarshal_all = λ s. some "";
  marshal_account = λ id date. some (letters id);
  unmarshal_account = λ s. none;
  format_date = λ t. "1970-01-01";
  parse_date = λ s. some 0;
  snapshot_key = λ id day. letters id;
}

handle_snapshot_all_enqueues_example :
    handle_snapshot_all sample_env sample_snapshots (snapshot_all_task "{}") sample_world ≡ (
      ok tt,
      record sample_world { tasks = map (task_of sample_snapshots letters 0) (1 ∷ 2 ∷ 3 ∷ 4 ∷ []) },
    )
handle_snapshot_all_enqueues_example =
    handle_snapshot_all_enqueues sample_env sample_snapshots (snapshot_all_task "{}") "" 0 letters
      sample_world refl refl refl (λ id. refl) (refl, (refl, (refl, (refl, tt))))
      ((refl, (refl, (refl, tt))), ((refl, (refl, tt)), ((refl, tt), (tt, tt))))
