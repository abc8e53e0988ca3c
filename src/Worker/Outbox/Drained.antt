-- ===== src/Worker/Outbox/Drained.antt =====
-- Batch after batch, without faults.
use ledger_x.Prelude.{
  ◌*◌, zero, ◌⊎◌, ◌≤◌, ◌∙◌, ◌-◌, ◌&&◌, true, take, suc, not, ltb, inr, inl, arith, ap, Bool-cases,
  All, ==_refl, ◌≡◌, ◌∷◌, ℕ, some, refl, none, map, [], List, Bool,
}
use ledger_x.Repo.World.{Result, World, Message}
use ledger_x.Repo.Models.{Outbox}
use ledger_x.Worker.Outbox.{batches, waits, has_id, batch_of}
use ledger_x.Prelude.Count.{
  count_where, count-take_any, count-update_rows, count-take, count-order_by, any_row, count,
}
use ledger_x.Service.Transactions.Reverse.{is_empty}
use ledger_x.Prelude.Select.{where_rows, order_by}
use ledger_x.Prelude.Kept.{All-imp}
use ledger_x.Worker.Outbox.Batch.{
  marked, waiting, process_batch_runs, is_waiting, batch_ids, after_batch,
}
use ledger_x.Worker.Outbox.Keyed.{mark_rows-IsKeyed, mark_rows, IsKeyed}
use ledger_x.Worker.Outbox.Received.{received, IsDelivered, AllDelivered}
use ledger_x.Worker.Outbox.Delivery.{process_batch-AllDelivered}

-- A batch takes fifty waiting events, or all.
free_where :
    (es : List Outbox)
    → where_rows (λ (e : Outbox). waits e.processed_at && not (has_id e.id [])) es
      ≡ where_rows is_waiting es
free_where [] = refl
free_where (e ∷ es) = elim (Bool-cases (waits e.processed_at)) [
  | inl yet ↦ rw yet (ap (λ (r : List Outbox). e ∷ r) (free_where es))
  | inr past ↦ rw past (free_where es)
]

has_id-cons : (i j : ℕ) (ids : List ℕ) → has_id i ids ≡ true → has_id i (j ∷ ids) ≡ true
has_id-cons i j ids h = ground arith

own_ids :
    (es : List Outbox) → All (λ (e : Outbox). has_id e.id (map (λ (x : Outbox). x.id) es) ≡ true) es
own_ids [] = tt
own_ids (e ∷ es) =
    (rw (==_refl e.id) refl, All-imp _ _ es (λ x h. has_id-cons x.id e.id _ h) (own_ids es))

count-All :
    (p : Outbox → Bool) (es : List Outbox)
    → All (λ e. p e ≡ true) es
    → count p es ≡ count any_row es
count-All p [] h = refl
count-All p (e ∷ es) h = rw (h.0) (ap suc (count-All p es h.1))

empty_batch :
    (es : List Outbox) → is_empty (map (λ (e : Outbox). e.id) es) ≡ true → count any_row es ≡ 0
empty_batch [] h = refl
empty_batch (e ∷ es) h = cc

abbrev in_batch : World → Outbox → Bool
in_batch w e = has_id e.id (batch_ids w)

abbrev sorted : World → List Outbox
sorted w =
    order_by (λ (e : Outbox) (f : Outbox). ltb e.created_at f.created_at)
      (where_rows is_waiting w.db.outbox)

batch_of-sorted : (w : World) → batch_of [] w.db.outbox ≡ take 50 (sorted w)
batch_of-sorted w = rw (free_where w.db.outbox) refl

batch_count :
    (w : World)
    → count any_row (batch_of [] w.db.outbox)
      ≤ count (in_batch w) (where_rows is_waiting w.db.outbox)
batch_count w =
    let all_in : count (in_batch w) (batch_of [] w.db.outbox)
        ≡ count any_row (batch_of [] w.db.outbox) =
      count-All (in_batch w) (batch_of [] w.db.outbox) (own_ids (batch_of [] w.db.outbox)) in
    let taken : count (in_batch w) (take 50 (sorted w)) ≤ count (in_batch w) (sorted w) =
      count-take (in_batch w) 50 (sorted w) in
    let same : count (in_batch w) (sorted w)
        ≡ count (in_batch w) (where_rows is_waiting w.db.outbox) =
      count-order_by (in_batch w) _ (where_rows is_waiting w.db.outbox) in
    let again : count (in_batch w) (batch_of [] w.db.outbox)
        ≡ count (in_batch w) (take 50 (sorted w)) =
      ap (count (in_batch w)) (batch_of-sorted w) in
    omega (arith, all_in, taken, same, again)

batch_size :
    (w : World)
    → (count any_row (batch_of [] w.db.outbox) ≡ 50)
      ⊎ (count any_row (batch_of [] w.db.outbox) ≡ waiting w)
batch_size w = elim (count-take_any 50 (sorted w)) [
  | inl full ↦ inl (rw (batch_of-sorted w) full)
  | inr rest ↦ inr (
      rw (batch_of-sorted w) (
        rest
        ∙ (count-order_by any_row _ (where_rows is_waiting w.db.outbox)
            ∙ count_where is_waiting w.db.outbox)))
]

fewer_waiting : (w : World) → waiting (after_batch w) ≤ waiting w - 50
fewer_waiting w = elim (Bool-cases (is_empty (batch_ids w))) [
  | inl nothing ↦
      let zero_size : count any_row (batch_of [] w.db.outbox) ≡ 0 = empty_batch _ nothing in
      rw nothing (elim (batch_size w) [
        | inl full ↦ omega (arith, full, zero_size)
        | inr rest ↦ omega (arith, rest, zero_size)
      ])
  | inr something ↦
      let split =
        count-update_rows is_waiting (in_batch w) (λ e. record e { processed_at = some w.now })
          w.db.outbox (λ e. refl) in
      let covered = batch_count w in
      rw something (elim (batch_size w) [
        | inl full ↦ omega (arith, full, split, covered)
        | inr rest ↦ omega (arith, rest, split, covered)
      ])
]

next_batch : (n : ℕ) (w : World) → w.faults ≡ [] → batches (suc n) w ≡ batches n (after_batch w)
unfolding batches
next_batch n w h = ap (λ (r : Result Unit × World). batches n r.1) (process_batch_runs w h)

batches_run : (n : ℕ) (w : World) → w.faults ≡ [] → waiting w ≤ 50 * n → waiting (batches n w) ≡ 0
unfolding batches
batches_run zero w h k = omega (arith, k)
batches_run (suc n) w h k =
    let fewer = fewer_waiting w in
    rw (next_batch n w h) (batches_run n (after_batch w) refl (omega (arith, k, fewer)))

-- What is received of the events after a batch is received of them before it.
marked-received :
    (ids : List ℕ) (now : ℕ) (ms : List Message) (es : List Outbox)
    → All (λ e. received e ms ≡ true) (marked ids now es)
    → All (λ e. received e ms ≡ true) es
marked-received ids now ms es h = elim (Bool-cases (is_empty ids)) [
  | inl nothing ↦ rw nothing at h
  | inr something ↦ updated es (rw something at h)
]
  where
    updated :
        (xs : List Outbox)
        → All (λ e. received e ms ≡ true) (mark_rows ids now xs)
        → All (λ e. received e ms ≡ true) xs
    updated [] k = tt
    updated (x ∷ xs) k = elim (Bool-cases (has_id x.id ids)) [
      | inl hit ↦ (rw hit at k.0, updated xs k.1)
      | inr missed ↦ (rw missed at k.0, updated xs k.1)
    ]

marked-IsKeyed :
    (ids : List ℕ) (now : ℕ) (es : List Outbox) → IsKeyed es → IsKeyed (marked ids now es)
marked-IsKeyed ids now es h = elim (Bool-cases (is_empty ids)) [
  | inl nothing ↦ rw nothing h
  | inr something ↦ rw something (mark_rows-IsKeyed ids now es h)
]

batches_keep :
    (n : ℕ) (w : World)
    → w.faults ≡ []
    → w.saved ≡ none
    → IsKeyed w.db.outbox
    → AllDelivered w
    → AllDelivered (batches n w)
      × ((ms : List Message)
          → All (λ e. received e ms ≡ true) (batches n w).db.outbox
          → All (λ e. received e ms ≡ true) w.db.outbox)
unfolding batches
batches_keep zero w h idle keyed k = (k, λ ms l. l)
batches_keep (suc n) w h idle keyed k =
    let delivered : AllDelivered (after_batch w) =
      rw (process_batch_runs w h) at (process_batch-AllDelivered [] w idle keyed k) in
    let (later, back) =
      batches_keep n (after_batch w) refl refl
        (marked-IsKeyed (batch_ids w) w.now w.db.outbox keyed) delivered in
    rw (next_batch n w h)
      (later, λ ms l. marked-received (batch_ids w) w.now ms w.db.outbox (back ms l))

none_waiting :
    (ms : List Message) (es : List Outbox)
    → count is_waiting es ≡ 0
    → All (IsDelivered ms) es
    → All (λ e. received e ms ≡ true) es
none_waiting ms [] h k = tt
none_waiting ms (e ∷ es) h (inr sent, k) = (sent, none_waiting ms es (ground (arith, h)) k)
none_waiting ms (e ∷ es) h (inl free, k) = absurd (still_waits (rw free at h))
  where
    still_waits : suc (count is_waiting es) ≡ 0 → ⊥
    still_waits l = omega (arith, l)

-- Without faults and other workers, when no transaction is open, no two rows of the outbox share
-- an id, as its primary key demands, and Redis has received every event that is marked
-- processed, n ticks of the outbox worker bring the payload of every event of the outbox to
-- Redis on the channel of its type and leave none waiting, if at most 50 n wait.
pub batches_deliver :
    (n : ℕ) (w : World)
    → w.faults ≡ []
    → w.saved ≡ none
    → IsKeyed w.db.outbox
    → AllDelivered w
    → waiting w ≤ 50 * n
    → All (λ e. received e (batches n w).messages ≡ true) w.db.outbox × (waiting (batches n w) ≡ 0)
batches_deliver n w h idle keyed k enough =
    let done_all = batches_run n w h enough in
    let (delivered, back) = batches_keep n w h idle keyed k in
    (
      back (batches n w).messages
          (none_waiting (batches n w).messages (batches n w).db.outbox done_all delivered),
      done_all,
    )
