-- ===== src/Repo/Rows.antt =====
-- What each query leaves in the tables when it succeeds.
use ledger_x.Prelude.{
  ℕ, String, false, ◌&&◌, Option, none, some, List, [], ◌∷◌, ◌++◌, ◌≡◌, refl, Bool-cases, inl, inr,
  str_eq,
}
use ledger_x.Prelude.Int.{ℤ, pos, eq_ℤ}
use ledger_x.Prelude.Select.{exists_row, update_rows}
use ledger_x.Repo.Models.{
  Transaction, Posting, Database, IdempotencyKey, Account, external, Outbox, started,
}
use ledger_x.Repo.World.{one_row, World}
use ledger_x.Repo.Accounts.{
  user_exists, find_account, find_external, get_account, get_external_account,
  create_external_account, insert_account,
}
use ledger_x.Repo.Idempotency.{
  is_key, find_key, claim_key, insert_idempotency_key, get_idempotency, mark_idempotency_success,
  succeed,
}
use ledger_x.Repo.Outbox.{insert_event, create_outbox_event}
use ledger_x.Repo.Transactions.{
  HeaderParams, insert_header, create_transaction_header, insert_posting, create_posting,
  reversal_taken, reversal_known, transaction_exists, account_exists, find_owned_transaction,
  get_transaction_for_user, list_postings_by_transaction, postings_of,
}
use ledger_x.Repo.Outcome.{
  Yields, Yields-ok, Yields-err, call-Yields, if-Yields, Ends, NoRows, call-Ends,
}

-- The header that an INSERT adds, and the checks that it has passed.
pub record HeaderAdded (p : HeaderParams) (d : Database) (now : ℕ) (h : Transaction) (w : World)
    : Type 0 where
  pub added : w.db ≡ record d { transactions = d.transactions ++ h ∷ [] }
  pub user_id : h.user_id ≡ p.user_id
  pub currency : h.currency ≡ p.currency
  pub occurred_at : h.occurred_at ≡ p.occurred_at
  pub created_at : h.created_at ≡ now
  pub reversal_of : h.reversal_of ≡ p.reversal_of
  pub first_reversal : reversal_taken p.reversal_of d.transactions ≡ false

insert_header-Yields :
    (p : HeaderParams) (w : World) → Yields (HeaderAdded p w.db w.now) (insert_header p w)
unfolding insert_header
insert_header-Yields p w =
    if-Yields (reversal_taken p.reversal_of w.db.transactions) _ _ (λ _. Yields-err _ _)
      λ free.
        if-Yields (user_exists w.db p.user_id && reversal_known p.reversal_of w.db.transactions) _ _
          (λ _. Yields-ok _ _ (record {
            added = refl;
            user_id = refl;
            currency = refl;
            occurred_at = refl;
            created_at = refl;
            reversal_of = refl;
            first_reversal = free;
          }))
          (λ _. Yields-err _ _)

pub create_transaction_header-Yields :
    (p : HeaderParams) (w : World)
    → Yields (HeaderAdded p w.db w.now) (create_transaction_header p w)
unfolding create_transaction_header
create_transaction_header-Yields p w = call-Yields _ _ (insert_header-Yields p _)

pub record PostingAdded (t a : ℕ) (amount : ℤ) (d : Database) (p : Posting) (w : World)
    : Type 0 where
  pub added : w.db ≡ record d { postings = d.postings ++ p ∷ [] }
  pub transaction_id : p.transaction_id ≡ t
  pub account_id : p.account_id ≡ a
  pub amount_minor : p.amount_minor ≡ amount
  pub nonzero : eq_ℤ amount (pos 0) ≡ false

insert_posting-Yields :
    (t a : ℕ) (amount : ℤ) (w : World)
    → Yields (PostingAdded t a amount w.db) (insert_posting t a amount w)
unfolding insert_posting
insert_posting-Yields t a amount w =
    if-Yields (eq_ℤ amount (pos 0)) _ _ (λ _. Yields-err _ _)
      λ nonzero.
        if-Yields (transaction_exists t w.db.transactions && account_exists w.db a) _ _
          (λ _. Yields-ok _ _ (record {
            added = refl;
            transaction_id = refl;
            account_id = refl;
            amount_minor = refl;
            nonzero = nonzero;
          }))
          (λ _. Yields-err _ _)

pub create_posting-Yields :
    (t a : ℕ) (amount : ℤ) (w : World)
    → Yields (PostingAdded t a amount w.db) (create_posting t a amount w)
unfolding create_posting
create_posting-Yields t a amount w = call-Yields _ _ (insert_posting-Yields t a amount _)

-- A claim adds a row for a key that had none.
pub record KeyClaimed (uid : ℕ) (k hash : String) (d : Database) (r : IdempotencyKey) (w : World)
    : Type 0 where
  pub added : w.db ≡ record d { idempotency_keys = d.idempotency_keys ++ r ∷ [] }
  pub user_id : r.user_id ≡ uid
  pub key : r.key ≡ k
  pub request_hash : r.request_hash ≡ hash
  pub status : r.status ≡ started
  pub is_new : exists_row (is_key uid k) d.idempotency_keys ≡ false

claim_key-Ends :
    (uid : ℕ) (k hash : String) (w : World)
    → Ends (KeyClaimed uid k hash w.db) (NoRows (λ w'. w'.db ≡ w.db)) (claim_key uid k hash w)
unfolding claim_key
claim_key-Ends uid k hash w = elim (Bool-cases (exists_row (is_key uid k) w.db.idempotency_keys)) [
  | inl old ↦ rw old (record { at = λ _. refl })
  | inr new ↦ rw new (elim (Bool-cases (user_exists w.db uid)) [
    | inl known ↦ rw known (record {
      at = record {
        added = refl;
        user_id = refl;
        key = refl;
        request_hash = refl;
        status = refl;
        is_new = new;
      };
    })
    | inr unknown ↦ rw unknown (record { at = λ e. cc })
  ])
]

pub insert_idempotency_key-Ends :
    (uid : ℕ) (k hash : String) (w : World)
    → Ends
        (KeyClaimed uid k hash w.db)
        (NoRows (λ w'. w'.db ≡ w.db))
        (insert_idempotency_key uid k hash w)
unfolding insert_idempotency_key
insert_idempotency_key-Ends uid k hash w = call-Ends _ _ (claim_key-Ends uid k hash _)

-- A read of one row leaves the tables as they are, also where there is none.
pub record RowRead {A : Type 0} (o : Option A) (d : Database) (a : A) (w : World) : Type 0 where
  pub read : o ≡ some a
  pub same : w.db ≡ d

one_row-Ends :
    {A : Type 0} (o : Option A) (w : World)
    → Ends (RowRead o w.db) (NoRows (λ w'. w'.db ≡ w.db)) (one_row o w)
one_row-Ends none w = record { at = λ _. refl }
one_row-Ends (some a) w = record { at = record { read = refl; same = refl } }

pub get_account-Ends :
    (id : ℕ) (w : World)
    → Ends (RowRead (find_account id w.db) w.db) (NoRows (λ w'. w'.db ≡ w.db)) (get_account id w)
unfolding get_account
get_account-Ends id w = call-Ends _ _ (one_row-Ends (find_account id w.db) _)

pub get_external_account-Ends :
    (uid : ℕ) (w : World)
    → Ends
        (RowRead (find_external uid w.db) w.db)
        (NoRows (λ w'. w'.db ≡ w.db))
        (get_external_account uid w)
unfolding get_external_account
get_external_account-Ends uid w = call-Ends _ _ (one_row-Ends (find_external uid w.db) _)

pub get_idempotency-Ends :
    (uid : ℕ) (k : String) (w : World)
    → Ends
        (RowRead (find_key uid k w.db.idempotency_keys) w.db)
        (NoRows (λ w'. w'.db ≡ w.db))
        (get_idempotency uid k w)
unfolding get_idempotency
get_idempotency-Ends uid k w = call-Ends _ _ (one_row-Ends (find_key uid k w.db.idempotency_keys) _)

pub get_transaction_for_user-Ends :
    (id uid : ℕ) (w : World)
    → Ends
        (RowRead (find_owned_transaction id uid w.db) w.db)
        (NoRows (λ w'. w'.db ≡ w.db))
        (get_transaction_for_user id uid w)
unfolding get_transaction_for_user
get_transaction_for_user-Ends id uid w =
    call-Ends _ _ (one_row-Ends (find_owned_transaction id uid w.db) _)

pub list_postings_by_transaction-Yields :
    (t : ℕ) (w : World)
    → Yields
        (λ ps w'. (ps ≡ postings_of t w.db.postings) × (w'.db ≡ w.db))
        (list_postings_by_transaction t w)
unfolding list_postings_by_transaction
list_postings_by_transaction-Yields t w = call-Yields _ _ (Yields-ok _ _ (refl, refl))

pub record ExternalAdded (uid : ℕ) (d : Database) (a : Account) (w : World) : Type 0 where
  pub added : w.db ≡ record d { accounts = d.accounts ++ a ∷ [] }
  pub user_id : a.user_id ≡ uid
  pub kind : a.kind ≡ external

insert_external-Yields :
    (uid : ℕ) (name currency : String) (w : World)
    → Yields (ExternalAdded uid w.db) (insert_account uid name currency external w)
unfolding insert_account
insert_external-Yields uid name currency w =
    if-Yields (exists_row _ w.db.accounts) _ _ (λ _. Yields-err _ _)
      λ _.
        if-Yields (user_exists w.db uid) _ _
          (λ _. Yields-ok _ _ (record { added = refl; user_id = refl; kind = refl }))
          (λ _. Yields-err _ _)

pub create_external_account-Yields :
    (uid : ℕ) (currency : String) (w : World)
    → Yields (ExternalAdded uid w.db) (create_external_account uid currency w)
unfolding create_external_account
create_external_account-Yields uid currency w =
    call-Yields _ _ (insert_external-Yields uid _ currency _)

pub record EventAdded (event_type payload : String) (d : Database) (e : Outbox) (w : World)
    : Type 0 where
  pub added : w.db ≡ record d { outbox = d.outbox ++ e ∷ [] }
  pub event_type_eq : e.event_type ≡ event_type
  pub payload_eq : e.payload ≡ payload
  pub waits : e.processed_at ≡ none

pub create_outbox_event-Yields :
    (event_type payload : String) (w : World)
    → Yields (EventAdded event_type payload w.db) (create_outbox_event event_type payload w)
unfolding create_outbox_event insert_event
create_outbox_event-Yields event_type payload w =
    call-Yields _ _ (
      Yields-ok _ _
        (record { added = refl; event_type_eq = refl; payload_eq = refl; waits = refl }))

-- The row under the key, with its answer.
abbrev pub marked : ℕ → String → String → String → List IdempotencyKey → List IdempotencyKey
marked uid k hash json =
    update_rows (λ (r : IdempotencyKey). is_key uid k r && str_eq r.request_hash hash)
      (succeed json)

pub mark_idempotency_success-Yields :
    (uid : ℕ) (k hash json : String) (w : World)
    → Yields
        (λ _ w'.
          w'.db ≡ record w.db { idempotency_keys = marked uid k hash json w.db.idempotency_keys })
        (mark_idempotency_success uid k hash json w)
unfolding mark_idempotency_success
mark_idempotency_success-Yields uid k hash json w = call-Yields _ _ (Yields-ok _ _ refl)
