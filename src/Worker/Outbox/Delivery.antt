-- ===== src/Worker/Outbox/Delivery.antt =====
-- At-least-once delivery: no event is marked before it is published.
use ledger_x.Prelude.{◌≡◌, ◌∷◌, ℕ, some, refl, none, [], List, All}
use ledger_x.Repo.Models.{Outbox}
use ledger_x.Repo.World.{
  ◌>>=◌, unacknowledged, ok, next_fault, later_faults, fine, failed, err, continue, call, answer,
  World, Result, Fault,
}
use ledger_x.Repo.Tx.{with_rollback, commit, begin_after, begin}
use ledger_x.Prelude.Select.{update_rows}
use ledger_x.Worker.Outbox.{
  batch_of, settle_batch, select_batch, publish_batch, process_batch, mark_processed, has_id,
}
use ledger_x.Worker.Outbox.Keyed.{batch_of-IsOnly, IsOnly, IsKeyed}
use ledger_x.Worker.Outbox.Received.{
  rollback-Safe, publish_all-Marks, marked-Safe, faults-Safe, commit-Safe, begin-Safe, Safe, Marks,
  AllDelivered,
}

mark_processed-Safe : (ids : List ℕ) (w : World) → Marks ids w → Safe (mark_processed ids w).1
unfolding mark_processed call answer
mark_processed-Safe ids w (h, marks) =
    answered (next_fault w.faults) (record w { faults = later_faults w.faults })
      (faults-Safe w _ h, marks)
  where
    answered :
        (f : Fault) (v : World)
        → Marks ids v
        → Safe
            (answer f
              (λ x. (
                Result.ok tt,
                record x {
                  db = record x.db {
                    outbox =
                        update_rows
                          (λ (e : Outbox). has_id e.id ids)
                          (λ e. record e { processed_at = some x.now })
                          x.db.outbox;
                  };
                },
              ))
              v).1
    answered fine v k = marked-Safe ids v k
    answered failed v k = k.0
    answered unacknowledged v k = marked-Safe ids v k

settle_batch-Safe : (ids : List ℕ) (w : World) → Marks ids w → Safe (settle_batch ids w).1
unfolding settle_batch ◌>>=◌
settle_batch-Safe [] w h = commit-Safe.at w h.0
settle_batch-Safe (i ∷ ids) w h =
    then_commit (mark_processed (i ∷ ids) w) (mark_processed-Safe (i ∷ ids) w h)
  where
    then_commit : (r : Result Unit × World) → Safe r.1 → Safe (continue r.0 (λ _. commit) r.1).1
    then_commit (ok u, v) k = commit-Safe.at v k
    then_commit (err e, v) k = k

publish_batch-Safe :
    (batch : List Outbox) (w : World)
    → Safe w
    → All (IsOnly w.db.outbox) batch
    → Safe (publish_batch batch w).1
publish_batch-Safe batch w h only = settle_batch-Safe _ _ (publish_all-Marks batch w h only).0

begin-same : (w : World) → (begin w).1.db ≡ w.db
unfolding begin begin_after
begin-same w = opened (next_fault w.faults)
  where
    opened : (f : Fault) → (begin_after f (record w { faults = later_faults w.faults })).1.db ≡ w.db
    opened fine = refl
    opened failed = refl
    opened unacknowledged = refl

selected-Safe :
    (locked : List ℕ) (w : World)
    → Safe w
    → IsKeyed w.db.outbox
    → Safe ((select_batch locked >>= publish_batch) w).1
unfolding select_batch call answer ◌>>=◌
selected-Safe locked w h keyed =
    after (next_fault w.faults) (record w { faults = later_faults w.faults }) (faults-Safe w _ h)
      keyed
  where
    after :
        (f : Fault) (v : World)
        → Safe v
        → IsKeyed v.db.outbox
        → let r = answer f (λ x. (ok (batch_of locked x.db.outbox), x)) v in
          Safe (continue r.0 publish_batch r.1).1
    after fine v k l = publish_batch-Safe _ v k (batch_of-IsOnly locked v.db.outbox l)
    after failed v k l = k
    after unacknowledged v k l = k

-- When no transaction is open, no two rows of the outbox share an id, as its primary key
-- demands, and Redis has received the payload of every event that is marked processed on the
-- channel of its type, Redis has received that of every event marked processed after
-- ProcessBatch, too, under any faults and whatever rows other workers hold.
pub process_batch-AllDelivered :
    (locked : List ℕ) (w : World)
    → w.saved ≡ none
    → IsKeyed w.db.outbox
    → AllDelivered w
    → AllDelivered (process_batch locked w).1
unfolding process_batch ◌>>=◌ with_rollback
process_batch-AllDelivered locked w idle keyed h =
    (then_batch (begin w) (begin-Safe w (record { delivered = h; saved_delivered = λ d e. cc }))
      (rw (begin-same w) keyed)).delivered
  where
    then_batch :
        (r : Result Unit × World)
        → Safe r.1
        → IsKeyed r.1.db.outbox
        → Safe (continue r.0 (λ _. with_rollback (select_batch locked >>= publish_batch)) r.1).1
    then_batch (ok u, v) k l = rollback-Safe _ (selected-Safe locked v k l)
    then_batch (err e, v) k l = k
