-- ===== src/Repo/Inside.antt =====
-- Inside a transaction: the tables to go back to and the cache are as they were, and every
-- transaction whose postings do not sum to zero waits for the deferred trigger.
use ledger_x.Repo.World.{Result, Fault, CacheEntry, World}
use ledger_x.Prelude.{
  inr, inl, arith, Bool-cases, ◌⊎◌, ◌≡◌, ◌∷◌, ◌∙◌, ◌==◌, ◌++◌, ◌&&◌, ℕ, true, some, refl,
  if◌then◌else◌, false, [], String, List, Bool,
}
use ledger_x.Repo.Models.{external, Posting, Kind, Database}
use ledger_x.Repo.Transactions.{
  find_owned_transaction, transaction_exists, reversal_taken, reversal_known,
  list_postings_by_transaction, insert_posting, insert_header, get_transaction_for_user,
  create_transaction_header, create_posting, account_exists, HeaderParams,
}
use ledger_x.Repo.Keeps.{Keeps-query, keeps_rules, Keeps-call, Keeps}
use ledger_x.Repo.Idempotency.{
  find_key, mark_idempotency_success, is_key, insert_idempotency_key, get_idempotency, claim_key,
}
use ledger_x.Repo.Accounts.{
  find_external, find_account, user_exists, insert_account, get_external_account, get_account,
  create_external_account,
}
use ledger_x.Repo.Outbox.{insert_event, create_outbox_event}
use ledger_x.Prelude.Int.{zero-+ℤ, ℤ, pos, eq_ℤ}
use ledger_x.Prelude.Select.{sum_where-append, exists_row}
use ledger_x.Repo.Tx.{tx_sum}

abbrev pub is_deferred : ℕ → List ℕ → Bool
is_deferred t [] = false
is_deferred t (u ∷ us) = if u == t then true else is_deferred t us

pub record Inside (d : Database) (c : List CacheEntry) (w : World) : Type 0 where
  pub saved_is : w.saved ≡ some d
  pub cache_is : w.cache ≡ c
  pub covered : (t : ℕ) → (is_deferred t w.deferred ≡ true) ⊎ (tx_sum t w.db.postings ≡ pos 0)

module _ (d : Database) (c : List CacheEntry) where
  pub faults-Inside :
      (w : World) (fs : List Fault) → Inside d c w → Inside d c (record w { faults = fs })
  faults-Inside w fs h = record {
    saved_is = h.saved_is;
    cache_is = h.cache_is;
    covered = h.covered;
  }

  -- An action that leaves the postings and the bookkeeping of the transaction alone.
  pub same-Inside :
      (w w' : World)
      → w'.saved ≡ w.saved
      → w'.cache ≡ w.cache
      → w'.deferred ≡ w.deferred
      → w'.db.postings ≡ w.db.postings
      → Inside d c w
      → Inside d c w'
  same-Inside w w' s e f p h = record {
    saved_is = s ∙ h.saved_is;
    cache_is = e ∙ h.cache_is;
    covered = rw (f, p) h.covered;
  }

  if-Inside :
      {A : Type 0} (b : Bool) (r s : Result A × World)
      → Inside d c r.1
      → Inside d c s.1
      → Inside d c (if b then r else s).1
  if-Inside true r s h k = h
  if-Inside false r s h k = k

  posting_covered :
      (t u : ℕ) (p : Posting) (ps : List Posting) (us : List ℕ)
      → p.transaction_id ≡ t
      → (is_deferred u us ≡ true) ⊎ (tx_sum u ps ≡ pos 0)
      → (is_deferred u (t ∷ us) ≡ true) ⊎ (tx_sum u (ps ++ p ∷ []) ≡ pos 0)
  posting_covered t u p ps us e (inl waits) = inl (ground arith)
  posting_covered t u p ps us e (inr zero_sum) = elim (Bool-cases (t == u)) [
    | inl same ↦ inl (rw same refl)
    | inr other ↦ inr (rw (sum_where-append, zero_sum) (rw (zero-+ℤ) (ground arith)))
  ]

  insert_posting-Inside : (t a : ℕ) (amount : ℤ) → Keeps (Inside d c) (insert_posting t a amount)
  unfolding insert_posting
  insert_posting-Inside t a amount = record {
    at = λ w h. if-Inside (eq_ℤ amount (pos 0)) _ _ (same-Inside w _ refl refl refl refl h) (
        if-Inside (transaction_exists t w.db.transactions && account_exists w.db a) _ _
          (record {
            saved_is = h.saved_is;
            cache_is = h.cache_is;
            covered = λ u. posting_covered t u _ w.db.postings w.deferred refl (h.covered u);
          })
          (same-Inside w _ refl refl refl refl h));
  }

  pub create_posting-Inside :
      (t a : ℕ) (amount : ℤ) → Keeps (Inside d c) (create_posting t a amount)
  unfolding create_posting
  create_posting-Inside t a amount = Keeps-call _ faults-Inside (insert_posting-Inside t a amount)

  insert_header-Inside : (p : HeaderParams) → Keeps (Inside d c) (insert_header p)
  unfolding insert_header
  insert_header-Inside p = record {
    at = λ w h.
        if-Inside (reversal_taken p.reversal_of w.db.transactions) _ _
          (same-Inside w _ refl refl refl refl h)
          (if-Inside (user_exists w.db p.user_id && reversal_known p.reversal_of w.db.transactions)
            _ _ (same-Inside w _ refl refl refl refl h) (same-Inside w _ refl refl refl refl h));
  }

  pub create_transaction_header-Inside :
      (p : HeaderParams) → Keeps (Inside d c) (create_transaction_header p)
  unfolding create_transaction_header
  create_transaction_header-Inside p = Keeps-call _ faults-Inside (insert_header-Inside p)

  claim_key-Inside : (uid : ℕ) (k hash : String) → Keeps (Inside d c) (claim_key uid k hash)
  unfolding claim_key
  claim_key-Inside uid k hash = record {
    at = λ w h.
        if-Inside (exists_row (is_key uid k) w.db.idempotency_keys) _ _ h
          (if-Inside (user_exists w.db uid) _ _ (same-Inside w _ refl refl refl refl h) h);
  }

  pub insert_idempotency_key-Inside :
      (uid : ℕ) (k hash : String) → Keeps (Inside d c) (insert_idempotency_key uid k hash)
  unfolding insert_idempotency_key
  insert_idempotency_key-Inside uid k hash =
      Keeps-call _ faults-Inside (claim_key-Inside uid k hash)

  insert_account-Inside :
      (uid : ℕ) (name currency : String) (kind : Kind)
      → Keeps (Inside d c) (insert_account uid name currency kind)
  unfolding insert_account
  insert_account-Inside uid name currency kind = record {
    at = λ w h. if-Inside (exists_row _ w.db.accounts) _ _ (same-Inside w _ refl refl refl refl h) (
        if-Inside (user_exists w.db uid) _ _ (same-Inside w _ refl refl refl refl h)
          (same-Inside w _ refl refl refl refl h));
  }

  pub create_external_account-Inside :
      (uid : ℕ) (currency : String) → Keeps (Inside d c) (create_external_account uid currency)
  unfolding create_external_account
  create_external_account-Inside uid currency =
      Keeps-call _ faults-Inside (insert_account-Inside uid _ currency external)

  pub get_account-Inside : (id : ℕ) → Keeps (Inside d c) (get_account id)
  unfolding get_account
  get_account-Inside id = Keeps-call _ faults-Inside (Keeps-query (λ w. find_account id w.db))

  pub get_external_account-Inside : (uid : ℕ) → Keeps (Inside d c) (get_external_account uid)
  unfolding get_external_account
  get_external_account-Inside uid =
      Keeps-call _ faults-Inside (Keeps-query (λ w. find_external uid w.db))

  pub get_idempotency-Inside : (uid : ℕ) (k : String) → Keeps (Inside d c) (get_idempotency uid k)
  unfolding get_idempotency
  get_idempotency-Inside uid k =
      Keeps-call _ faults-Inside (Keeps-query (λ w. find_key uid k w.db.idempotency_keys))

  pub get_transaction_for_user-Inside :
      (id uid : ℕ) → Keeps (Inside d c) (get_transaction_for_user id uid)
  unfolding get_transaction_for_user
  get_transaction_for_user-Inside id uid =
      Keeps-call _ faults-Inside (Keeps-query (λ w. find_owned_transaction id uid w.db))

  pub list_postings_by_transaction-Inside :
      (t : ℕ) → Keeps (Inside d c) (list_postings_by_transaction t)
  unfolding list_postings_by_transaction
  list_postings_by_transaction-Inside t = Keeps-call _ faults-Inside (record { at = λ w h. h })

  pub create_outbox_event-Inside :
      (event_type payload : String) → Keeps (Inside d c) (create_outbox_event event_type payload)
  unfolding create_outbox_event insert_event
  create_outbox_event-Inside event_type payload =
      Keeps-call _ faults-Inside (record { at = λ w. same-Inside w _ refl refl refl refl })

  pub mark_idempotency_success-Inside :
      (uid : ℕ) (k hash json : String)
      → Keeps (Inside d c) (mark_idempotency_success uid k hash json)
  unfolding mark_idempotency_success
  mark_idempotency_success-Inside uid k hash json =
      Keeps-call _ faults-Inside (record { at = λ w. same-Inside w _ refl refl refl refl })

pub ruleset inside_rules = (
  keeps_rules, create_posting-Inside, create_transaction_header-Inside,
  insert_idempotency_key-Inside, create_external_account-Inside, get_account-Inside,
  get_external_account-Inside, get_idempotency-Inside, get_transaction_for_user-Inside,
  list_postings_by_transaction-Inside, create_outbox_event-Inside, mark_idempotency_success-Inside,
)
