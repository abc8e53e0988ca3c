-- ===== src/Service/Transactions/Written.antt =====
-- What createBalanced has written when it reaches its commit.
use ledger_x.Repo.Outcome.{weaken-Yields, bind-Yields, Yields-ok, Yields-err, Yields}
use mathlib.Core.List.{append-nil, append_assoc}
use ledger_x.Prelude.{
  ◌≡◌, ◌∷◌, ◌++◌, ℕ, str_eq, some, refl, none, map, inr, inl, if◌then◌else◌, false, ap, [], String,
  Option, List, Bool-cases, All,
}
use ledger_x.Repo.Models.{Posting, Outbox, Database}
use ledger_x.Service.Types.{TransactionDto, PostingDto, Leg, EventPayload, Env}
use ledger_x.Repo.Rows.{
  marked, mark_idempotency_success-Yields, create_posting-Yields, create_outbox_event-Yields,
  PostingAdded,
}
use ledger_x.Repo.World.{World}
use ledger_x.Prelude.Int.{pos, eq_ℤ}
use ledger_x.Service.Transactions.Claim.{
  write_postings, remember, publish, posting_dto, or_bad_json,
}

abbrev pub leg_of : Posting → Leg
leg_of p = record { account_id = p.account_id; amount_minor = p.amount_minor }

abbrev pub HasNonzeroAmount : Posting → Type 0
HasNonzeroAmount p = eq_ℤ p.amount_minor (pos 0) ≡ false

-- One posting for each leg, in order, at the end of the table.
pub record PostingsWritten (t : ℕ) (legs : List Leg) (d : Database) (dtos : List PostingDto)
    (w : World) : Type 0 where
  pub rows : List Posting
  pub added : w.db ≡ record d { postings = d.postings ++ rows }
  pub legs_of : map leg_of rows ≡ legs
  pub own : All (λ p. p.transaction_id ≡ t) rows
  pub nonzero : All HasNonzeroAmount rows
  pub answered : dtos ≡ map posting_dto rows

cons-PostingsWritten :
    {t : ℕ} {l : Leg} {legs : List Leg} {d : Database} {dtos : List PostingDto} {p : Posting}
    {w w' : World}
    → PostingAdded t l.account_id l.amount_minor d p w
    → PostingsWritten t legs w.db dtos w'
    → PostingsWritten t (l ∷ legs) d (posting_dto p ∷ dtos) w'
cons-PostingsWritten {d} {p} a b = record {
  rows = p ∷ b.rows;
  added = rw (b.added, a.added) (rw append_assoc refl);
  legs_of = cc (a.account_id, a.amount_minor, b.legs_of);
  own = (a.transaction_id, b.own);
  nonzero = (rw a.amount_minor a.nonzero, b.nonzero);
  answered = ap (λ ps. posting_dto p ∷ ps) b.answered;
}

pub write_postings-Yields :
    (t : ℕ) (legs : List Leg) (w : World)
    → Yields (PostingsWritten t legs w.db) (write_postings t legs w)
unfolding write_postings
write_postings-Yields t [] w = Yields-ok _ w (record {
  rows = [];
  added = rw append-nil refl;
  legs_of = refl;
  own = tt;
  nonzero = tt;
  answered = refl;
})
write_postings-Yields t (l ∷ legs) w =
    bind-Yields _ _ _ w (create_posting-Yields t l.account_id l.amount_minor w) λ p w1 added.
      bind-Yields _ _ _ w1 (write_postings-Yields t legs w1)
        λ dtos w2 rest. Yields-ok _ w2 (cons-PostingsWritten added rest)

pub or_bad_json-Yields :
    {A : Type 0} (o : Option A) (w : World)
    → Yields (λ a w'. (o ≡ some a) × (w' ≡ w)) (or_bad_json o w)
unfolding or_bad_json
or_bad_json-Yields none w = Yields-err _ w
or_bad_json-Yields (some a) w = Yields-ok a w (refl, refl)

-- One event that waits for the outbox worker.
pub record EventWritten (event_type : String) (d : Database) (w : World) : Type 0 where
  pub event : Outbox
  pub added : w.db ≡ record d { outbox = d.outbox ++ event ∷ [] }
  pub type_eq : event.event_type ≡ event_type
  pub waits : event.processed_at ≡ none

pub publish-Yields :
    (env : Env) (event_type : String) (event : EventPayload) (w : World)
    → Yields (λ _ w'. EventWritten event_type w.db w') (publish env event_type event w)
unfolding publish
publish-Yields env event_type event w =
    bind-Yields _ _ _ w (or_bad_json-Yields (env.marshal_event event) w) λ payload w1 (read, same1).
      bind-Yields _ _ _ w1 (create_outbox_event-Yields event_type payload w1) λ e w2 added.
        Yields-ok _ w2 (record {
          event = e;
          added = rw (added.added, same1) refl;
          type_eq = added.event_type_eq;
          waits = added.waits;
        })

-- The response is stored under the key, where there is one.
pub record Remembered (env : Env) (uid : ℕ) (k hash : String) (dto : TransactionDto) (d : Database)
    (w : World) : Type 0 where
  pub json : String
  pub encoded : str_eq k "" ≡ false → env.marshal_dto dto ≡ some json
  pub stored : w.db ≡ record d {
    idempotency_keys =
        if str_eq k "" then d.idempotency_keys else marked uid k hash json d.idempotency_keys;
  }

pub remember-Yields :
    (env : Env) (uid : ℕ) (k hash : String) (dto : TransactionDto) (w : World)
    → Yields (λ _ w'. Remembered env uid k hash dto w.db w') (remember env uid k hash dto w)
unfolding remember
remember-Yields env uid k hash dto w = elim (Bool-cases (str_eq k "")) [
  | inl keyless ↦
      rw keyless
        (Yields-ok tt w (record { json = ""; encoded = λ e. cc; stored = rw keyless refl }))
  | inr keyed ↦ rw keyed (
      bind-Yields _ _ _ w (or_bad_json-Yields (env.marshal_dto dto) w) λ json w1 (read, same1).
        weaken-Yields _ _ (mark_idempotency_success-Yields uid k hash json w1) λ _ w2 stored.
          record { json = json; encoded = λ _. read; stored = rw (keyed, stored, same1) refl })
]
