-- ===== src/Service/Transactions/Frame.antt =====
-- The service's steps inside a transaction keep what a rollback and the trigger rely on.
use ledger_x.Repo.Keeps.{Keeps-call, Keeps-raise, Keeps-pure, Keeps-bind, Keeps}
use ledger_x.Repo.Models.{Posting, succeeded, started, Status, IdempotencyKey, Database, Account}
use ledger_x.Service.Types.{TransactionDto, Leg, EventPayload, Env, BalancedInput}
use ledger_x.Repo.World.{◌>>◌, ◌>>=◌, pure, Action, ok, err, call, Result, CacheEntry}
use ledger_x.Repo.Atomic.{CacheOnly}
use ledger_x.Repo.Inside.{
  inside_rules, create_transaction_header-Inside, create_posting-Inside, Inside,
}
use ledger_x.Prelude.{◌≡◌, ◌∙◌, refl, ◌∷◌, ℕ, some, none, [], String, Option, List}
use ledger_x.Service.Samples.{account}
use ledger_x.Service.Transactions.Claim.{
  write_postings, stored_response, replay, remember, publish, or_bad_json, claim_idempotency,
  after_claim,
}
use ledger_x.Service.Transactions.Legs.{
  resolve_legs, resolve_external, external_or_create, check_legs, check_leg,
}
use ledger_x.Service.Summary.{without_entry, invalidate, ignore}
use ledger_x.Service.Transactions.Create.{invalidate_legs, record_transaction}
use ledger_x.Service.Transactions.Reverse.{invalidate_postings}

module _ (d : Database) (c : List CacheEntry) where
  external_or_create-Inside :
      (uid : ℕ) (currency : String) (r : Result Account)
      → Keeps (Inside d c) (external_or_create uid currency r)
  unfolding external_or_create
  external_or_create-Inside uid currency (ok a) = Keeps-pure _
  external_or_create-Inside uid currency (err e) = search inside_rules

  resolve_external-Inside :
      (uid : ℕ) (currency : String) → Keeps (Inside d c) (resolve_external uid currency)
  unfolding resolve_external
  resolve_external-Inside uid currency = search (inside_rules, external_or_create-Inside)

  resolve_legs-Inside : (input : BalancedInput) → Keeps (Inside d c) (resolve_legs input)
  unfolding resolve_legs
  resolve_legs-Inside input = search (inside_rules, resolve_external-Inside)

  check_leg-Inside :
      (uid : ℕ) (currency : String) (l : Leg) → Keeps (Inside d c) (check_leg uid currency l)
  unfolding check_leg
  check_leg-Inside uid currency l = search inside_rules depth 9

  check_legs-Inside :
      (uid : ℕ) (currency : String) (legs : List Leg)
      → Keeps (Inside d c) (check_legs uid currency legs)
  unfolding check_legs
  check_legs-Inside uid currency [] = Keeps-pure tt
  check_legs-Inside uid currency (l ∷ legs) =
      Keeps-bind _ _ (check_leg-Inside uid currency l) (λ _. check_legs-Inside uid currency legs)

  pub write_postings-Inside : (t : ℕ) (legs : List Leg) → Keeps (Inside d c) (write_postings t legs)
  unfolding write_postings
  write_postings-Inside t [] = Keeps-pure []
  write_postings-Inside t (l ∷ legs) =
      Keeps-bind _ _ (create_posting-Inside d c t l.account_id l.amount_minor)
        λ p. Keeps-bind _ _ (write_postings-Inside t legs) (λ rest. Keeps-pure _)

  or_bad_json-Inside : {A : Type 0} (o : Option A) → Keeps (Inside d c) (or_bad_json o)
  unfolding or_bad_json
  or_bad_json-Inside none = Keeps-raise _
  or_bad_json-Inside (some a) = Keeps-pure a

  pub publish-Inside :
      (env : Env) (event_type : String) (event : EventPayload)
      → Keeps (Inside d c) (publish env event_type event)
  unfolding publish
  publish-Inside env event_type event = search (inside_rules, or_bad_json-Inside)

  pub remember-Inside :
      (env : Env) (uid : ℕ) (k hash : String) (dto : TransactionDto)
      → Keeps (Inside d c) (remember env uid k hash dto)
  unfolding remember
  remember-Inside env uid k hash dto = search (inside_rules, or_bad_json-Inside)

  stored_response-Inside :
      (env : Env) (status : Status) (response : Option String)
      → Keeps (Inside d c) (stored_response env status response)
  unfolding stored_response
  stored_response-Inside env succeeded (some json) = search (inside_rules, or_bad_json-Inside)
  stored_response-Inside env succeeded none = Keeps-raise _
  stored_response-Inside env started response = Keeps-raise _

  replay-Inside :
      (env : Env) (hash : String) (row : IdempotencyKey) → Keeps (Inside d c) (replay env hash row)
  unfolding replay
  replay-Inside env hash row = search (inside_rules, stored_response-Inside)

  after_claim-Inside :
      (env : Env) (uid : ℕ) (k hash : String) (r : Result IdempotencyKey)
      → Keeps (Inside d c) (after_claim env uid k hash r)
  unfolding after_claim
  after_claim-Inside env uid k hash (ok row) = Keeps-pure none
  after_claim-Inside env uid k hash (err e) = search (inside_rules, replay-Inside)

  pub claim_idempotency-Inside :
      (env : Env) (uid : ℕ) (k hash : String)
      → Keeps (Inside d c) (claim_idempotency env uid k hash)
  unfolding claim_idempotency
  claim_idempotency-Inside env uid k hash = search (inside_rules, after_claim-Inside)

  pub record_transaction-Inside :
      (env : Env) (hash : String) (input : BalancedInput)
      → Keeps (Inside d c) (record_transaction env hash input)
  unfolding record_transaction
  record_transaction-Inside env hash input = Keeps-bind _ _ (resolve_legs-Inside input) λ legs.
      Keeps-bind _ _ (check_legs-Inside input.user_id input.currency legs) λ _.
        Keeps-bind _ _ (create_transaction_header-Inside d c _) λ header.
          Keeps-bind _ _ (write_postings-Inside header.id legs) λ postings.
            Keeps-bind _ _ (publish-Inside env _ _) λ _.
              Keeps-bind _ _ (remember-Inside env input.user_id input.idempotency_key hash _)
                λ _. Keeps-pure _

abbrev drop_entry : ℕ → ℕ → Action Unit
drop_entry account month w = (ok tt, record w { cache = without_entry account month w.cache })

-- Invalidation is best effort: it never fails, and it touches the cache at most.
invalidate-CacheOnly : (account month : ℕ) → CacheOnly (invalidate account month)
unfolding invalidate ignore
invalidate-CacheOnly account month = record {
  after = λ w. (call (drop_entry account month) w).1;
  runs = λ w. refl;
  db_same = λ w.
      (Keeps-call {P = λ v. v.db ≡ w.db} (drop_entry account month) (λ v fs h. h)
          (record { at = λ v h. h })).at
        w refl;
  saved_same = λ w.
      (Keeps-call {P = λ v. v.saved ≡ w.saved} (drop_entry account month) (λ v fs h. h)
          (record { at = λ v h. h })).at
        w refl;
}

bind-CacheOnly : {m n : Action Unit} → CacheOnly m → CacheOnly n → CacheOnly (m >> n)
unfolding ◌>>=◌
bind-CacheOnly h k = record {
  after = λ w. k.after (h.after w);
  runs = λ w. rw (h.runs w) (k.runs (h.after w));
  db_same = λ w. k.db_same (h.after w) ∙ h.db_same w;
  saved_same = λ w. k.saved_same (h.after w) ∙ h.saved_same w;
}

pure-CacheOnly : CacheOnly (pure tt)
pure-CacheOnly = record {
  after = λ w. w;
  runs = λ w. refl;
  db_same = λ w. refl;
  saved_same = λ w. refl;
}

pub invalidate_legs-CacheOnly :
    (month : ℕ) (legs : List Leg) → CacheOnly (invalidate_legs month legs)
unfolding invalidate_legs
invalidate_legs-CacheOnly month [] = pure-CacheOnly
invalidate_legs-CacheOnly month (l ∷ legs) =
    bind-CacheOnly (invalidate-CacheOnly l.account_id month) (invalidate_legs-CacheOnly month legs)

pub invalidate_postings-CacheOnly :
    (month now_month : ℕ) (ps : List Posting) → CacheOnly (invalidate_postings month now_month ps)
unfolding invalidate_postings
invalidate_postings-CacheOnly month now_month [] = pure-CacheOnly
invalidate_postings-CacheOnly month now_month (p ∷ ps) =
    bind-CacheOnly (invalidate-CacheOnly p.account_id month) (
      bind-CacheOnly (invalidate-CacheOnly p.account_id now_month)
        (invalidate_postings-CacheOnly month now_month ps))
