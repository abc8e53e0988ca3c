-- ===== src/Service/Transactions/Clock.antt =====
-- now() does not move inside a transaction.
use ledger_x.Repo.Models.{Kind, succeeded, started, Status, IdempotencyKey, Account}
use ledger_x.Service.Types.{Leg, Env, BalancedInput}
use ledger_x.Prelude.{
  ◌≡◌, ◌∷◌, ℕ, true, some, none, if◌then◌else◌, false, [], String, Option, List, Bool,
}
use ledger_x.Repo.World.{Action, ok, err, World, Result, Fault}
use ledger_x.Repo.Keeps.{
  keeps_rules, Keeps-raise, Keeps-query, Keeps-pure, Keeps-call, Keeps-bind, Keeps,
}
use ledger_x.Service.Transactions.Claim.{
  stored_response, replay, or_bad_json, claim_idempotency, after_claim,
}
use ledger_x.Service.Transactions.Legs.{
  resolve_legs, resolve_external, external_or_create, check_legs, check_leg,
}
use ledger_x.Repo.Idempotency.{is_key, insert_idempotency_key, get_idempotency, claim_key}
use ledger_x.Repo.Accounts.{
  user_exists, insert_account, get_external_account, get_account, create_external_account,
}
use ledger_x.Repo.Transactions.{list_postings_by_transaction, get_transaction_for_user}
use ledger_x.Repo.Success.{Succeeds}
use ledger_x.Prelude.Select.{exists_row}

-- now() answers `n`.
pub record At (n : ℕ) (w : World) : Type 0 where
  pub now_is : w.now ≡ n

module _ (n : ℕ) where
  faults-At : (w : World) (fs : List Fault) → At n w → At n (record w { faults = fs })
  faults-At w fs h = record { now_is = h.now_is }

  if-At :
      {A : Type 0} (b : Bool) (r s : Result A × World)
      → At n r.1
      → At n s.1
      → At n (if b then r else s).1
  if-At true r s h k = h
  if-At false r s h k = k

  get_account-At : (id : ℕ) → Keeps (At n) (get_account id)
  unfolding get_account
  get_account-At id = Keeps-call _ faults-At (Keeps-query _)

  get_external_account-At : (uid : ℕ) → Keeps (At n) (get_external_account uid)
  unfolding get_external_account
  get_external_account-At uid = Keeps-call _ faults-At (Keeps-query _)

  insert_account-At :
      (uid : ℕ) (name currency : String) (kind : Kind)
      → Keeps (At n) (insert_account uid name currency kind)
  unfolding insert_account
  insert_account-At uid name currency kind = record {
    at = λ w h.
        if-At (exists_row _ w.db.accounts) _ _ (record { now_is = h.now_is })
          (if-At (user_exists w.db uid) _ _ (record { now_is = h.now_is })
            (record { now_is = h.now_is }));
  }

  create_external_account-At :
      (uid : ℕ) (currency : String) → Keeps (At n) (create_external_account uid currency)
  unfolding create_external_account
  create_external_account-At uid currency = Keeps-call _ faults-At (insert_account-At uid _ _ _)

  claim_key-At : (uid : ℕ) (k hash : String) → Keeps (At n) (claim_key uid k hash)
  unfolding claim_key
  claim_key-At uid k hash = record {
    at = λ w h.
        if-At (exists_row (is_key uid k) w.db.idempotency_keys) _ _ h
          (if-At (user_exists w.db uid) _ _ (record { now_is = h.now_is }) h);
  }

  insert_idempotency_key-At :
      (uid : ℕ) (k hash : String) → Keeps (At n) (insert_idempotency_key uid k hash)
  unfolding insert_idempotency_key
  insert_idempotency_key-At uid k hash = Keeps-call _ faults-At (claim_key-At uid k hash)

  get_idempotency-At : (uid : ℕ) (k : String) → Keeps (At n) (get_idempotency uid k)
  unfolding get_idempotency
  get_idempotency-At uid k = Keeps-call _ faults-At (Keeps-query _)

  pub get_transaction_for_user-At : (id uid : ℕ) → Keeps (At n) (get_transaction_for_user id uid)
  unfolding get_transaction_for_user
  get_transaction_for_user-At id uid = Keeps-call _ faults-At (Keeps-query _)

  pub list_postings_by_transaction-At : (t : ℕ) → Keeps (At n) (list_postings_by_transaction t)
  unfolding list_postings_by_transaction
  list_postings_by_transaction-At t = Keeps-call _ faults-At (record { at = λ w h. h })

ruleset clock_rules = (
  keeps_rules, get_account-At, get_external_account-At, create_external_account-At,
  insert_idempotency_key-At, get_idempotency-At,
)

module _ (n : ℕ) where
  external_or_create-At :
      (uid : ℕ) (currency : String) (r : Result Account)
      → Keeps (At n) (external_or_create uid currency r)
  unfolding external_or_create
  external_or_create-At uid currency (ok a) = Keeps-pure _
  external_or_create-At uid currency (err e) = search clock_rules

  resolve_external-At : (uid : ℕ) (currency : String) → Keeps (At n) (resolve_external uid currency)
  unfolding resolve_external
  resolve_external-At uid currency = search (clock_rules, external_or_create-At)

  pub resolve_legs-At : (input : BalancedInput) → Keeps (At n) (resolve_legs input)
  unfolding resolve_legs
  resolve_legs-At input = search (clock_rules, resolve_external-At)

  check_leg-At : (uid : ℕ) (currency : String) (l : Leg) → Keeps (At n) (check_leg uid currency l)
  unfolding check_leg
  check_leg-At uid currency l = search clock_rules depth 9

  pub check_legs-At :
      (uid : ℕ) (currency : String) (legs : List Leg) → Keeps (At n) (check_legs uid currency legs)
  unfolding check_legs
  check_legs-At uid currency [] = Keeps-pure tt
  check_legs-At uid currency (l ∷ legs) =
      Keeps-bind _ _ (check_leg-At uid currency l) (λ _. check_legs-At uid currency legs)

  or_bad_json-At : {A : Type 0} (o : Option A) → Keeps (At n) (or_bad_json o)
  unfolding or_bad_json
  or_bad_json-At none = Keeps-raise _
  or_bad_json-At (some a) = Keeps-pure a

  stored_response-At :
      (env : Env) (status : Status) (response : Option String)
      → Keeps (At n) (stored_response env status response)
  unfolding stored_response
  stored_response-At env succeeded (some json) = search (keeps_rules, or_bad_json-At)
  stored_response-At env succeeded none = Keeps-raise _
  stored_response-At env started response = Keeps-raise _

  replay-At :
      (env : Env) (hash : String) (row : IdempotencyKey) → Keeps (At n) (replay env hash row)
  unfolding replay
  replay-At env hash row = search (keeps_rules, stored_response-At)

  after_claim-At :
      (env : Env) (uid : ℕ) (k hash : String) (r : Result IdempotencyKey)
      → Keeps (At n) (after_claim env uid k hash r)
  unfolding after_claim
  after_claim-At env uid k hash (ok row) = Keeps-pure none
  after_claim-At env uid k hash (err e) = search (clock_rules, replay-At)

  pub claim_idempotency-At :
      (env : Env) (uid : ℕ) (k hash : String) → Keeps (At n) (claim_idempotency env uid k hash)
  unfolding claim_idempotency
  claim_idempotency-At env uid k hash = search (clock_rules, after_claim-At)

module _ {A : Type 0} {Q : A → World → Type 0} {P : World → Type 0} where
  -- A step that succeeds and keeps something does both.
  pub kept-Succeeds :
      (m : Action A) (w : World)
      → Succeeds Q (m w)
      → Keeps P m
      → P w
      → Succeeds (λ a v. Q a v × P v) (m w)
  kept-Succeeds m w h k start = kept (m w) h (k.at w start)
    where
      kept : (r : Result A × World) → Succeeds Q r → P r.1 → Succeeds (λ a v. Q a v × P v) r
      kept (ok a, v) l p = record { at = (l.at.0, (l.at.1, p)) }
      kept (err e, v) l p = absurd l.at
