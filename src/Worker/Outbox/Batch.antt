-- ===== src/Worker/Outbox/Batch.antt =====
-- What a batch does without faults.
use ledger_x.Prelude.{◌≡◌, ◌∷◌, ℕ, some, refl, none, map, if◌then◌else◌, [], List, Bool}
use ledger_x.Repo.World.{◌>>=◌, ok, call, answer, World, Message}
use ledger_x.Repo.Models.{Outbox}
use ledger_x.Worker.Outbox.{
  waits, settle_batch, select_batch, publish_message, publish_all, process_batch, message_of,
  mark_processed, has_id, batch_of,
}
use ledger_x.Repo.Tx.{with_rollback, triggers_pass, rollback, finish, commit, begin_after, begin}
use ledger_x.Prelude.Count.{count}
use ledger_x.Service.Transactions.Reverse.{is_empty}
use ledger_x.Prelude.Select.{update_rows}

-- How many events wait.
abbrev pub is_waiting : Outbox → Bool
is_waiting e = waits e.processed_at

abbrev pub waiting : World → ℕ
waiting w = count is_waiting w.db.outbox

abbrev pushed : List Outbox → List Message → List Message
pushed [] ms = ms
pushed (e ∷ es) ms = pushed es (message_of e ∷ ms)

publish_all_runs :
    (es : List Outbox) (w : World)
    → w.faults ≡ []
    → publish_all es w
      ≡ (map (λ (e : Outbox). e.id) es, record w { messages = pushed es w.messages; faults = [] })
unfolding publish_all publish_message call answer
publish_all_runs [] w h = rw h refl
publish_all_runs (e ∷ es) w h = rw h (
    rw (publish_all_runs es (record w { messages = message_of e ∷ w.messages; faults = [] }) refl)
      refl)

-- The table after a batch.
abbrev pub marked : List ℕ → ℕ → List Outbox → List Outbox
marked ids now es =
    if is_empty ids
    then es
    else update_rows (λ (e : Outbox). has_id e.id ids) (λ e. record e { processed_at = some now })
        es

abbrev pub batch_ids : World → List ℕ
batch_ids w = map (λ (e : Outbox). e.id) (batch_of [] w.db.outbox)

abbrev pub after_batch : World → World
after_batch w = record w {
  db = record w.db { outbox = marked (batch_ids w) w.now w.db.outbox };
  messages = pushed (batch_of [] w.db.outbox) w.messages;
  faults = [];
  saved = none;
  deferred = [];
}

settle_runs :
    (ids : List ℕ) (w : World)
    → w.faults ≡ []
    → w.deferred ≡ []
    → settle_batch ids w ≡ (
      ok tt,
      record w {
        db = record w.db { outbox = marked ids w.now w.db.outbox };
        faults = [];
        saved = none;
        deferred = [];
      },
    )
unfolding settle_batch mark_processed commit finish triggers_pass call answer ◌>>=◌
settle_runs [] w h k = rw (h, k) refl
settle_runs (i ∷ ids) w h k = rw (h, k) refl

pub process_batch_runs : (w : World) → w.faults ≡ [] → process_batch [] w ≡ (ok tt, after_batch w)
unfolding process_batch begin begin_after select_batch with_rollback rollback call answer ◌>>=◌
process_batch_runs w h =
    let opened : World = record w { faults = []; saved = some w.db; deferred = [] } in
    rw h (
      rw (publish_all_runs (batch_of [] w.db.outbox) opened refl) (
        rw
          (settle_runs (batch_ids w)
            (record opened { messages = pushed (batch_of [] w.db.outbox) w.messages }) refl refl)
          refl))
