-- ===== src/Worker/Outbox.antt =====
-- internal/worker/outbox.go
pub mod Keyed
pub mod Received
pub mod Delivery
pub mod Batch
pub mod Drained
use ledger_x.Prelude.{
  zero, suc, ◌∷◌, ◌==◌, ◌&&◌, true, take, some, not, none, ltb, if◌then◌else◌, false, [], Option,
  List, Bool, ℕ,
}
use Prim.Native.String.{◌++◌ as str_append}
use ledger_x.Repo.World.{◌>>◌, ◌>>=◌, pure, ok, err, call, World, Result, Message, Action}
use ledger_x.Repo.Models.{Outbox}
use ledger_x.Repo.Tx.{with_rollback, commit, begin}
use ledger_x.Service.Transactions.Reverse.{is_empty}
use ledger_x.Prelude.Select.{where_rows, update_rows, order_by}

abbrev pub waits : Option ℕ → Bool
waits none = true
waits (some at) = false

abbrev pub has_id : ℕ → List ℕ → Bool
has_id i [] = false
has_id i (j ∷ js) = if j == i then true else has_id i js

-- WHERE processed_at IS NULL ORDER BY created_at LIMIT 50 FOR UPDATE SKIP LOCKED, where other
-- workers hold the rows `locked`.
abbrev pub batch_of : List ℕ → List Outbox → List Outbox
batch_of locked es = take 50 (
    order_by (λ (e : Outbox) (f : Outbox). ltb e.created_at f.created_at)
      (where_rows (λ (e : Outbox). waits e.processed_at && not (has_id e.id locked)) es))

unfoldable pub select_batch : List ℕ → Action (List Outbox)
select_batch locked = call λ w. (ok (batch_of locked w.db.outbox), w)

abbrev pub message_of : Outbox → Message
message_of e = record { channel = str_append "events:" e.event_type; payload = e.payload }

unfoldable pub publish_message : Outbox → Action Unit
publish_message e = call λ w. (ok tt, record w { messages = message_of e ∷ w.messages })

-- An event that cannot be published is left for a later batch.
abbrev pub with_id : ℕ → Result Unit → List ℕ → List ℕ
with_id id (ok _) ids = id ∷ ids
with_id id (err _) ids = ids

unfoldable pub publish_all : List Outbox → World → List ℕ × World
publish_all [] w = ([], w)
publish_all (e ∷ es) w =
    let (r, w') = publish_message e w in
    let (ids, w'') = publish_all es w' in (with_id e.id r ids, w'')

unfoldable pub mark_processed : List ℕ → Action Unit
mark_processed ids = call λ w. (
  ok tt,
  record w {
    db = record w.db {
      outbox =
          update_rows (λ (e : Outbox). has_id e.id ids)
            (λ e. record e { processed_at = some w.now }) w.db.outbox;
    };
  },
)

unfoldable pub settle_batch : List ℕ → Action Unit
settle_batch ids = (if is_empty ids then pure tt else mark_processed ids) >> commit

abbrev pub publish_batch : List Outbox → Action Unit
publish_batch batch w = let (ids, w') = publish_all batch w in settle_batch ids w'

unfoldable pub process_batch : List ℕ → Action Unit
process_batch locked = begin >> with_rollback (select_batch locked >>= publish_batch)

-- OutboxWorker.Start: a batch at each of `n` ticks; the error of one is only logged.
unfoldable pub batches : ℕ → World → World
batches zero w = w
batches (suc n) w = batches n (process_batch [] w).1
