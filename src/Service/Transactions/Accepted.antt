-- ===== src/Service/Transactions/Accepted.antt =====
-- Requests that createBalanced accepts: each step up to the commit succeeds when nothing fails.
use ledger_x.Repo.Models.{Database, Account}
use ledger_x.Prelude.{
  ◌⊎◌, ◌≡◌, ◌∷◌, ◌∙◌, ◌++◌, ℕ, true, sym, str_eq, some, refl, none, inr, inl, false, [], String,
  List, Bool-cases, All,
}
use ledger_x.Service.Types.{from_db, GoTime, TransactionDto, Leg, EventPayload, Env, BalancedInput}
use ledger_x.Repo.Success.{
  weaken-Succeeds, raise_if-Succeeds, mark_idempotency_success-Completes,
  insert_idempotency_key-Completes, get_external_account-Succeeds, get_account-Succeeds, ensure,
  create_posting-Completes, create_outbox_event-Completes, bind-Succeeds, attempt-Succeeds,
  Succeeds-ok, Succeeds, Completes,
}
use ledger_x.Service.Transactions.Permitted.{Permitted}
use ledger_x.Repo.Rows.{create_posting-Yields, PostingAdded}
use ledger_x.Repo.World.{call, answer, found, World}
use ledger_x.Service.Samples.{header, account}
use ledger_x.Repo.Transactions.{transaction_exists, account_exists}
use ledger_x.Service.Transactions.Claim.{
  write_postings, remember, publish, or_bad_json, claim_idempotency, after_claim,
}
use ledger_x.Service.Transactions.Legs.{
  validate_legs, sum_from, resolve_legs, resolve_external, external_or_create, check_legs,
  check_leg,
}
use ledger_x.Prelude.Int.{pos, eq_ℤ}
use ledger_x.Service.Transactions.Validated.{exact_sum}
use ledger_x.Prelude.Select.{exists_row}
use ledger_x.Repo.Accounts.{user_exists, find_external}
use ledger_x.Repo.Idempotency.{is_key}
use ledger_x.Int64.{neg64}
use ledger_x.Service.Summary.{invalidate, ignore}

-- JSON encodes the responses and the events that carry these two times.
abbrev pub Encodes : Env → GoTime → GoTime → Type 0
Encodes env occurred created =
    ((dto : TransactionDto)
      → dto.occurred_at ≡ occurred
      → dto.created_at ≡ created
      → (json : String) × (env.marshal_dto dto ≡ some json))
    × ((event : EventPayload)
        → event.occurred_at ≡ occurred
        → (json : String) × (env.marshal_event event ≡ some json))

-- It does for what happens at `at`, in a transaction of the database that began at `now`.
abbrev pub EncodesAt : Env → ℕ → ℕ → Type 0
EncodesAt env at now = Encodes env (from_db env (env.store_time at)) (from_db env now)

-- The legs that are posted: those of the request, and the offset on the user's external account.
pub data Resolves (input : BalancedInput) (d : Database) (legs : List Leg) : Type 0 where
  as_given : input.use_external_leg ≡ false → legs ≡ input.legs → Resolves input d legs
  with_offset :
      (ext : Account)
      → input.use_external_leg ≡ true
      → find_external input.user_id d ≡ some ext
      → legs
        ≡ input.legs
          ++ record { account_id = ext.id; amount_minor = neg64 (sum_from (pos 0) input.legs) } ∷ []
      → Resolves input d legs

abbrev pub IsNonzero : Leg → Type 0
IsNonzero l = eq_ℤ l.amount_minor (pos 0) ≡ false

-- There is no key, or it is not taken.
abbrev pub IsFresh : ℕ → String → Database → Type 0
IsFresh uid k d = (str_eq k "" ≡ true) ⊎ (exists_row (is_key uid k) d.idempotency_keys ≡ false)

pub record Acceptable (input : BalancedInput) (d : Database) (legs : List Leg) : Type 0 where
  pub valid : validate_legs input.legs input.use_external_leg ≡ none
  pub resolved : Resolves input d legs
  pub permitted : All (Permitted d input.user_id input.currency) legs
  pub nonzero : All IsNonzero legs
  pub balanced : exact_sum legs ≡ pos 0
  pub user : user_exists d input.user_id ≡ true
  pub fresh : IsFresh input.user_id input.idempotency_key d

pub check_leg-Succeeds :
    (uid : ℕ) (currency : String) (l : Leg) (w : World)
    → w.faults ≡ []
    → Permitted w.db uid currency l
    → Succeeds (λ _ w'. w'.db ≡ w.db) (check_leg uid currency l w)
unfolding check_leg found
check_leg-Succeeds uid currency l w h p =
    bind-Succeeds _ _ _ w
      (attempt-Succeeds _ w (get_account-Succeeds w h l.account_id p.account p.known))
      λ r w1 h1 (acc, (e, (is, same))).
        rw (e, is)
          (bind-Succeeds (λ a v. (a ≡ p.account) × (v.db ≡ w.db)) _ _ w1
            (Succeeds-ok p.account w1 h1 (refl, same))
            λ a w2 h2 (it, s2).
              bind-Succeeds _ _ _ w2 (raise_if-Succeeds _ _ w2 (rw (it, p.owned) refl) h2)
                λ _ w3 h3 s3.
                  bind-Succeeds _ _ _ w3 (raise_if-Succeeds _ _ w3 (rw (it, p.active) refl) h3)
                    λ _ w4 h4 s4.
                      weaken-Succeeds _ _ (raise_if-Succeeds _ _ w4 (rw it p.same_currency) h4)
                        λ _ w5 s5. rw (s5, s4, s3) s2)

pub check_legs-Succeeds :
    (uid : ℕ) (currency : String) (legs : List Leg) (w : World)
    → w.faults ≡ []
    → All (Permitted w.db uid currency) legs
    → Succeeds (λ _ w'. w'.db ≡ w.db) (check_legs uid currency legs w)
unfolding check_legs
check_legs-Succeeds uid currency [] w h p = Succeeds-ok tt w h refl
check_legs-Succeeds uid currency (l ∷ legs) w h (p, rest) =
    bind-Succeeds _ _ _ w (check_leg-Succeeds uid currency l w h p) λ _ w1 h1 same.
      weaken-Succeeds _ _ (check_legs-Succeeds uid currency legs w1 h1 (rw same rest))
        λ _ w2 s2. s2 ∙ same

pub resolve_legs-Succeeds :
    (input : BalancedInput) (legs : List Leg) (w : World)
    → w.faults ≡ []
    → Resolves input w.db legs
    → Succeeds (λ ls w'. (ls ≡ legs) × (w'.db ≡ w.db)) (resolve_legs input w)
unfolding resolve_legs resolve_external external_or_create
resolve_legs-Succeeds input legs w h (as_given plain e) =
    rw plain (Succeeds-ok input.legs w h (sym e, refl))
resolve_legs-Succeeds input legs w h (with_offset ext offsets known e) = rw offsets (
    bind-Succeeds (λ id v. (id ≡ ext.id) × (v.db ≡ w.db)) _ _ w
      (bind-Succeeds _ _ _ w
        (attempt-Succeeds _ w (get_external_account-Succeeds w h input.user_id ext known))
        λ r w1 h1 (a, (is, (it, same))). rw (is, it) (Succeeds-ok ext.id w1 h1 (refl, same)))
      λ id w2 h2 (it, same). Succeeds-ok _ w2 h2 (rw it (sym e), same))

pub claim_idempotency-Succeeds :
    (env : Env) (uid : ℕ) (k hash : String) (w : World)
    → w.faults ≡ []
    → IsFresh uid k w.db
    → user_exists w.db uid ≡ true
    → Succeeds (λ c _. c ≡ none) (claim_idempotency env uid k hash w)
unfolding claim_idempotency after_claim
claim_idempotency-Succeeds env uid k hash w h (inl keyless) user =
    rw keyless (Succeeds-ok none w h refl)
claim_idempotency-Succeeds env uid k hash w h (inr new) user = elim (Bool-cases (str_eq k "")) [
  | inl keyless ↦ rw keyless (Succeeds-ok none w h refl)
  | inr keyed ↦ rw keyed (
      bind-Succeeds _ _ _ w
        (attempt-Succeeds _ w (insert_idempotency_key-Completes w h uid k hash new user))
        λ r w1 h1 (row, (e, _)). rw e (Succeeds-ok none w1 h1 refl))
]

-- The legs can be posted under the header `t`.
abbrev pub CanPost : ℕ → Database → Leg → Type 0
CanPost t d l = IsNonzero l × (account_exists d l.account_id ≡ true)

pub write_postings-Completes :
    (t : ℕ) (legs : List Leg) (w : World)
    → w.faults ≡ []
    → transaction_exists t w.db.transactions ≡ true
    → All (CanPost t w.db) legs
    → Completes (write_postings t legs w)
unfolding write_postings
write_postings-Completes t [] w h header can = Succeeds-ok [] w h tt
write_postings-Completes t (l ∷ legs) w h header ((nonzero, account), rest) =
    bind-Succeeds (PostingAdded t l.account_id l.amount_minor w.db) _ _ w
      (ensure _ (create_posting-Completes w h t l.account_id l.amount_minor nonzero header account)
        (create_posting-Yields t l.account_id l.amount_minor w))
      λ p w1 h1 a.
        bind-Succeeds _ _ _ w1
          (write_postings-Completes t legs w1 h1 (rw a.added header) (rw a.added rest))
          λ dtos w2 h2 _. Succeeds-ok _ w2 h2 tt

pub publish-Completes :
    (env : Env) (event_type json : String) (event : EventPayload) (w : World)
    → env.marshal_event event ≡ some json
    → w.faults ≡ []
    → Completes (publish env event_type event w)
unfolding publish or_bad_json
publish-Completes env event_type json event w encoded h = rw encoded (
    bind-Succeeds (λ _ _. Unit) _ _ w (Succeeds-ok json w h tt)
      λ payload w1 h1 _.
        bind-Succeeds _ _ _ w1 (create_outbox_event-Completes w1 h1 event_type payload)
          λ e w2 h2 _. Succeeds-ok tt w2 h2 tt)

pub remember-Completes :
    (env : Env) (uid : ℕ) (k hash json : String) (dto : TransactionDto) (w : World)
    → env.marshal_dto dto ≡ some json
    → w.faults ≡ []
    → Completes (remember env uid k hash dto w)
unfolding remember or_bad_json
remember-Completes env uid k hash json dto w encoded h = elim (Bool-cases (str_eq k "")) [
  | inl keyless ↦ rw keyless (Succeeds-ok tt w h tt)
  | inr keyed ↦
      rw (keyed, encoded)
        (bind-Succeeds (λ _ _. Unit) _ _ w (Succeeds-ok json w h tt)
          λ j w1 h1 _. mark_idempotency_success-Completes w1 h1 uid k hash j)
]

pub invalidate-Succeeds :
    (account month : ℕ) (w : World)
    → w.faults ≡ []
    → Succeeds (λ _ w'. (w'.db ≡ w.db) × (w'.saved ≡ w.saved)) (invalidate account month w)
unfolding invalidate ignore call answer
invalidate-Succeeds account month w h = rw h (Succeeds-ok tt _ refl (refl, refl))
