-- ===== src/Worker/Outbox/Received.antt =====
-- What Redis has received, and the ids that a batch may mark.
use mathlib.Core.Path.{subst}
use Prim.Native.String.{◌++◌ as str_append}
use ledger_x.Prelude.{
  ◌∙◌, eq_refl, str_eq, ◌&&◌, Option, ◌⊎◌, ◌≡◌, ◌∷◌, ◌==◌, ℕ, true, some, refl, none, inr, inl,
  arith, [], List, Bool-cases, Bool, All,
}
use ledger_x.Prelude.Kept.{All-imp}
use ledger_x.Repo.Models.{Outbox, Database}
use ledger_x.Repo.World.{
  unacknowledged, ok, next_fault, later_faults, fine, failed, err, call, answer, World, Result,
  Message, Fault,
}
use ledger_x.Repo.Keeps.{Keeps-call, Keeps}
use ledger_x.Repo.Tx.{triggers_pass, rollback, finish, commit, begin_after, begin}
use ledger_x.Prelude.Select.{exists_row}
use ledger_x.Worker.Outbox.{with_id, publish_message, publish_all, message_of, has_id}
use ledger_x.Worker.Outbox.Keyed.{mark_rows, IsOnly}
use ledger_x.Worker.Outbox.Batch.{waiting}

-- The message is the event's payload on the channel of the event's type.
abbrev pub carries : Outbox → Message → Bool
carries e m = str_eq m.channel (str_append "events:" e.event_type) && str_eq m.payload e.payload

-- Redis has received the payload of the event on the channel of its type.
abbrev pub received : Outbox → List Message → Bool
received e = exists_row (carries e)

-- The event still waits, or Redis has it.
abbrev pub IsDelivered : List Message → Outbox → Type 0
IsDelivered ms e = (e.processed_at ≡ none) ⊎ (received e ms ≡ true)

abbrev pub AllDelivered : World → Type 0
AllDelivered w = All (IsDelivered w.messages) w.db.outbox

-- The same, for the tables to which a rollback returns, too.
pub record Safe (w : World) : Type 0 where
  pub delivered : AllDelivered w
  pub saved_delivered : (d : Database) → w.saved ≡ some d → All (IsDelivered w.messages) d.outbox

pub faults-Safe : (w : World) (fs : List Fault) → Safe w → Safe (record w { faults = fs })
faults-Safe w fs h = record { delivered = h.delivered; saved_delivered = h.saved_delivered }

pub rollback-Safe : (w : World) → Safe w → Safe (rollback w)
unfolding rollback
rollback-Safe w h = back w.saved refl
  where
    back :
        (o : Option Database)
        → w.saved ≡ o
        → Safe (elim o [ none ↦ w | some d ↦ record w { db = d; saved = none; deferred = [] } ])
    back none idle = h
    back (some d) opened = record {
      delivered = h.saved_delivered d opened;
      saved_delivered = λ e k. cc;
    }

some_inj : {a b : Database} → some a ≡ some b → a ≡ b
some_inj e = cc

pub begin-Safe : (w : World) → Safe w → Safe (begin w).1
unfolding begin begin_after
begin-Safe w h =
    opened (next_fault w.faults) (record w { faults = later_faults w.faults }) (faults-Safe w _ h)
  where
    opened : (f : Fault) (v : World) → Safe v → Safe (begin_after f v).1
    opened fine v k = record {
      delivered = k.delivered;
      saved_delivered = λ d e.
          subst (λ (x : Database). All (IsDelivered v.messages) x.outbox) (some_inj e) k.delivered;
    }
    opened failed v k = k
    opened unacknowledged v k = k

finish-Safe : Keeps Safe finish
unfolding finish
finish-Safe = record {
  at = λ w h. elim (Bool-cases (triggers_pass w.db.postings w.deferred)) [
    | inl passes ↦ rw passes (record { delivered = h.delivered; saved_delivered = λ d e. cc })
    | inr fails ↦ rw fails (rollback-Safe w h)
  ];
}

pub commit-Safe : Keeps Safe commit
unfolding commit
commit-Safe = Keeps-call finish faults-Safe finish-Safe

received_more :
    (e : Outbox) (m : Message) (ms : List Message) → IsDelivered ms e → IsDelivered (m ∷ ms) e
received_more e m ms (inl waiting) = inl waiting
received_more e m ms (inr has) = inr (ground arith)

-- The ids that are to be marked are those of received events.
abbrev pub AreReceived : List ℕ → List Message → List Outbox → Type 0
AreReceived ids ms = All (λ (e : Outbox). has_id e.id ids ≡ true → received e ms ≡ true)

abbrev pub Marks : List ℕ → World → Type 0
Marks ids w = Safe w × AreReceived ids w.messages w.db.outbox

module _ (e : Outbox) where
  sent-Safe : (w : World) → Safe w → Safe (record w { messages = message_of e ∷ w.messages })
  sent-Safe w h = record {
    delivered =
        All-imp _ _ w.db.outbox (λ x k. received_more x (message_of e) w.messages k) h.delivered;
    saved_delivered = λ d k.
        All-imp _ _ d.outbox (λ x l. received_more x (message_of e) w.messages l)
          (h.saved_delivered d k);
  }

abbrev Grows : World → World → Type 0
Grows w w' = (x : Outbox) → received x w.messages ≡ true → received x w'.messages ≡ true

record Sent (e : Outbox) (w : World) (r : Result Unit × World) : Type 0 where
  safe : Safe r.1
  grows : Grows w r.1
  same_tables : r.1.db ≡ w.db
  received_if : r.0 ≡ ok tt → received e r.1.messages ≡ true

carries_own : (e : Outbox) → carries e (message_of e) ≡ true
carries_own e = rw (eq_refl (str_append "events:" e.event_type), eq_refl e.payload) refl

publish_message-Sent : (e : Outbox) (w : World) → Safe w → Sent e w (publish_message e w)
unfolding publish_message call answer
publish_message-Sent e w h =
    sent (next_fault w.faults) (record w { faults = later_faults w.faults }) refl refl
      (faults-Safe w _ h)
  where
    here : (ms : List Message) → received e (message_of e ∷ ms) ≡ true
    here ms = rw (carries_own e) refl

    more :
        (x : Outbox) (ms : List Message)
        → received x ms ≡ true
        → received x (message_of e ∷ ms) ≡ true
    more x ms k = elim (Bool-cases (carries x (message_of e))) [
      | inl it ↦ rw it refl
      | inr other ↦ rw other k
    ]

    sent :
        (f : Fault) (v : World)
        → v.messages ≡ w.messages
        → v.db ≡ w.db
        → Safe v
        → Sent e w (answer f (λ x. (ok tt, record x { messages = message_of e ∷ x.messages })) v)
    sent fine v same d k = record {
      safe = sent-Safe e v k;
      grows = λ x l. more x v.messages (rw same l);
      same_tables = d;
      received_if = λ l. here v.messages;
    }
    sent failed v same d k = record {
      safe = k;
      grows = λ x l. rw same l;
      same_tables = d;
      received_if = λ l. cc;
    }
    sent unacknowledged v same d k = record {
      safe = sent-Safe e v k;
      grows = λ x l. more x v.messages (rw same l);
      same_tables = d;
      received_if = λ l. here v.messages;
    }

-- One more id, of an event that has been received.
with_id-AreReceived :
    (e : Outbox) (r : Result Unit) (ids : List ℕ) (ms : List Message) (es : List Outbox)
    → IsOnly es e
    → AreReceived ids ms es
    → (r ≡ ok tt → received e ms ≡ true)
    → AreReceived (with_id e.id r ids) ms es
with_id-AreReceived e (err x) ids ms es only k l = k
with_id-AreReceived e (ok u) ids ms [] only k l = tt
with_id-AreReceived e (ok u) ids ms (x ∷ es) only k l = (
  λ h. elim (Bool-cases (e.id == x.id)) [
    | inl same ↦ rw (only.0 same) (l refl)
    | inr other ↦ k.0 (rw other at h)
  ],
  with_id-AreReceived e (ok u) ids ms es only.1 k.1 l,
)

pub publish_all-Marks :
    (es : List Outbox) (w : World)
    → Safe w
    → All (IsOnly w.db.outbox) es
    → let r = publish_all es w in Marks r.0 r.1 × (Grows w r.1 × (r.1.db ≡ w.db))
unfolding publish_all
publish_all-Marks [] w h only = ((h, none_marked w.db.outbox), (λ x k. k, refl))
  where
    none_marked : (xs : List Outbox) → AreReceived [] w.messages xs
    none_marked [] = tt
    none_marked (x ∷ xs) = (λ k. cc, none_marked xs)
publish_all-Marks (e ∷ es) w h only =
    let s = publish_message-Sent e w h in
    let w' = (publish_message e w).1 in
    let ((safe, marks), (grows, same)) = publish_all-Marks es w' s.safe (rw s.same_tables only.1) in
    let tables = same ∙ s.same_tables in
    (
      (
        safe,
        with_id-AreReceived e (publish_message e w).0 (publish_all es w').0
            (publish_all es w').1.messages (publish_all es w').1.db.outbox (rw tables only.0) marks
            (λ k. grows e (s.received_if k)),
      ),
      (λ x k. grows x (s.grows x k), tables),
    )

mark_rows-Delivered :
    (ids : List ℕ) (now : ℕ) (ms : List Message) (es : List Outbox)
    → All (IsDelivered ms) es
    → AreReceived ids ms es
    → All (IsDelivered ms) (mark_rows ids now es)
mark_rows-Delivered ids now ms [] h k = tt
mark_rows-Delivered ids now ms (e ∷ es) h k =
    let later = mark_rows-Delivered ids now ms es h.1 k.1 in
    elim (Bool-cases (has_id e.id ids)) [
      | inl hit ↦ rw hit (inr (k.0 hit), later)
      | inr missed ↦ rw missed (h.0, later)
    ]

pub marked-Safe :
    (ids : List ℕ) (w : World)
    → Marks ids w
    → Safe (record w { db = record w.db { outbox = mark_rows ids w.now w.db.outbox } })
marked-Safe ids w (h, marks) = record {
  delivered = mark_rows-Delivered ids w.now w.messages w.db.outbox h.delivered marks;
  saved_delivered = h.saved_delivered;
}
