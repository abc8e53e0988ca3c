-- ===== src/Repo/Success.antt =====
-- Total correctness without faults: an action that succeeds, and what it then ensures.
use ledger_x.Repo.Outcome.{Yields}
use ledger_x.Repo.Models.{Transaction, Posting, Account}
use ledger_x.Repo.World.{
  ◌>>=◌, raise_if, one_row, ok, later_faults, err, continue, call, attempt, answer, World, Result,
  Error, Action,
}
use ledger_x.Prelude.{◌≡◌, ◌∷◌, ℕ, true, some, refl, none, false, [], String, Option, List, Bool}
use ledger_x.Repo.Transactions.{
  get_transaction_for_user, find_owned_transaction, transaction_exists, reversal_taken,
  reversal_known, list_postings_by_transaction, insert_posting, insert_header,
  create_transaction_header, create_posting, account_exists, HeaderParams,
}
use ledger_x.Repo.Commit.{IsBalanced}
use ledger_x.Service.Samples.{user, header, account}
use ledger_x.Repo.Idempotency.{mark_idempotency_success, is_key, insert_idempotency_key, claim_key}
use ledger_x.Repo.Tx.{triggers_pass, trigger_passes, finish, commit}
use ledger_x.Repo.Outbox.{insert_event, create_outbox_event}
use ledger_x.Prelude.Int.{ℤ, pos, eq_ℤ}
use ledger_x.Prelude.Select.{exists_row}
use ledger_x.Repo.Accounts.{
  user_exists, get_external_account, get_account, find_external, find_account,
}

abbrev pub OnSuccess : {A : Type 0} → (A → World → Type 0) → Result A × World → Type 0
OnSuccess Q (ok a, w) = (w.faults ≡ []) × Q a w
OnSuccess Q (err e, w) = ⊥

pub record Succeeds {A : Type 0} (Q : A → World → Type 0) (r : Result A × World) : Type 0 where
  pub at : OnSuccess Q r

-- It succeeds, whatever it ensures.
abbrev pub Completes : {A : Type 0} → Result A × World → Type 0
Completes = Succeeds (λ _ _. Unit)

module _ {A : Type 0} {Q : A → World → Type 0} where
  pub Succeeds-ok : (a : A) (w : World) → w.faults ≡ [] → Q a w → Succeeds Q (ok a, w)
  Succeeds-ok a w h k = record { at = (h, k) }

  pub ensure : (r : Result A × World) → Completes r → Yields Q r → Succeeds Q r
  ensure (ok a, w) h k = record { at = (h.at.0, k.at) }
  ensure (err e, w) h k = absurd h.at

  pub weaken-Succeeds :
      (R : A → World → Type 0) (r : Result A × World)
      → Succeeds R r
      → ((a : A) (w : World) → R a w → Q a w)
      → Succeeds Q r
  weaken-Succeeds R (ok a, w) h k = record { at = (h.at.0, k a w h.at.1) }
  weaken-Succeeds R (err e, w) h k = absurd h.at

  pub both-Succeeds :
      (R : A → World → Type 0) (r : Result A × World)
      → Succeeds R r
      → Yields Q r
      → Succeeds (λ a w. R a w × Q a w) r
  both-Succeeds R (ok a, w) h k = record { at = (h.at.0, (h.at.1, k.at)) }
  both-Succeeds R (err e, w) h k = absurd h.at

  pub Succeeds-Completes : (r : Result A × World) → Succeeds Q r → Completes r
  Succeeds-Completes (ok a, w) h = record { at = (h.at.0, tt) }
  Succeeds-Completes (err e, w) h = absurd h.at

  -- The answer itself.
  pub answer_of : (r : Result A × World) → Succeeds Q r → (a : A) × ((r.0 ≡ ok a) × Q a r.1)
  answer_of (ok a, w) h = (a, (refl, h.at.1))
  answer_of (err e, w) h = absurd h.at

  pub call-Succeeds :
      (m : Action A) (w : World)
      → w.faults ≡ []
      → Succeeds Q (m (record w { faults = later_faults w.faults }))
      → Succeeds Q (call m w)
  unfolding call answer
  call-Succeeds m w h k = rw h (rw h at k)

  pub attempt-Succeeds :
      (m : Action A) (w : World)
      → Succeeds Q (m w)
      → Succeeds (λ r w'. (a : A) × ((r ≡ ok a) × Q a w')) (attempt m w)
  unfolding attempt
  attempt-Succeeds m w h = attempted (m w) h
    where
      attempted :
          (r : Result A × World)
          → Succeeds Q r
          → Succeeds (λ s w'. (a : A) × ((s ≡ ok a) × Q a w')) (ok r.0, r.1)
      attempted (ok a, v) k = record { at = (k.at.0, (a, (refl, k.at.1))) }
      attempted (err e, v) k = absurd k.at

module _ {A B : Type 0} {Q : B → World → Type 0} (R : A → World → Type 0) where
  pub bind-Succeeds :
      (m : Action A) (f : A → Action B) (w : World)
      → Succeeds R (m w)
      → ((a : A) (w' : World) → w'.faults ≡ [] → R a w' → Succeeds Q (f a w'))
      → Succeeds Q ((m >>= f) w)
  unfolding ◌>>=◌
  bind-Succeeds m f w h k = continued (m w) h
    where
      continued : (r : Result A × World) → Succeeds R r → Succeeds Q (continue r.0 f r.1)
      continued (ok a, v) l = k a v l.at.0 l.at.1
      continued (err e, v) l = absurd l.at

pub raise_if-Succeeds :
    (b : Bool) (e : Error) (w : World)
    → b ≡ false
    → w.faults ≡ []
    → Succeeds (λ _ w'. w'.db ≡ w.db) (raise_if b e w)
raise_if-Succeeds b e w h k = rw h (record { at = (k, refl) })

pub one_row-Succeeds :
    {A : Type 0} (o : Option A) (a : A) (w : World)
    → o ≡ some a
    → w.faults ≡ []
    → Succeeds (λ b w'. (b ≡ a) × (w'.db ≡ w.db)) (one_row o w)
one_row-Succeeds o a w h k = rw h (record { at = (k, (refl, refl)) })

pub no_faults_later : (w : World) → w.faults ≡ [] → later_faults w.faults ≡ []
no_faults_later w h = rw h refl

module _ (w : World) (h : w.faults ≡ []) where
  pub get_account-Succeeds :
      (id : ℕ) (a : Account)
      → find_account id w.db ≡ some a
      → Succeeds (λ b w'. (b ≡ a) × (w'.db ≡ w.db)) (get_account id w)
  unfolding get_account
  get_account-Succeeds id a k =
      call-Succeeds _ w h (one_row-Succeeds (find_account id w.db) a _ k (no_faults_later w h))

  pub get_external_account-Succeeds :
      (uid : ℕ) (a : Account)
      → find_external uid w.db ≡ some a
      → Succeeds (λ b w'. (b ≡ a) × (w'.db ≡ w.db)) (get_external_account uid w)
  unfolding get_external_account
  get_external_account-Succeeds uid a k =
      call-Succeeds _ w h (one_row-Succeeds (find_external uid w.db) a _ k (no_faults_later w h))

  pub get_transaction_for_user-Succeeds :
      (id uid : ℕ) (t : Transaction)
      → find_owned_transaction id uid w.db ≡ some t
      → Succeeds (λ u w'. (u ≡ t) × (w'.db ≡ w.db)) (get_transaction_for_user id uid w)
  unfolding get_transaction_for_user
  get_transaction_for_user-Succeeds id uid t k =
      call-Succeeds _ w h
        (one_row-Succeeds (find_owned_transaction id uid w.db) t _ k (no_faults_later w h))

  pub create_transaction_header-Completes :
      (p : HeaderParams)
      → reversal_taken p.reversal_of w.db.transactions ≡ false
      → user_exists w.db p.user_id ≡ true
      → reversal_known p.reversal_of w.db.transactions ≡ true
      → Completes (create_transaction_header p w)
  unfolding create_transaction_header insert_header
  create_transaction_header-Completes p free user known =
      call-Succeeds _ w h (rw (free, user, known) (record { at = (no_faults_later w h, tt) }))

  pub create_posting-Completes :
      (t a : ℕ) (amount : ℤ)
      → eq_ℤ amount (pos 0) ≡ false
      → transaction_exists t w.db.transactions ≡ true
      → account_exists w.db a ≡ true
      → Completes (create_posting t a amount w)
  unfolding create_posting insert_posting
  create_posting-Completes t a amount nonzero header account =
      call-Succeeds _ w h
        (rw (nonzero, header, account) (record { at = (no_faults_later w h, tt) }))

  pub create_outbox_event-Completes :
      (event_type payload : String) → Completes (create_outbox_event event_type payload w)
  unfolding create_outbox_event insert_event
  create_outbox_event-Completes event_type payload =
      call-Succeeds _ w h (record { at = (no_faults_later w h, tt) })

  pub insert_idempotency_key-Completes :
      (uid : ℕ) (k hash : String)
      → exists_row (is_key uid k) w.db.idempotency_keys ≡ false
      → user_exists w.db uid ≡ true
      → Completes (insert_idempotency_key uid k hash w)
  unfolding insert_idempotency_key claim_key
  insert_idempotency_key-Completes uid k hash new user =
      call-Succeeds _ w h (rw (new, user) (record { at = (no_faults_later w h, tt) }))

  pub mark_idempotency_success-Completes :
      (uid : ℕ) (k hash json : String) → Completes (mark_idempotency_success uid k hash json w)
  unfolding mark_idempotency_success
  mark_idempotency_success-Completes uid k hash json =
      call-Succeeds _ w h (record { at = (no_faults_later w h, tt) })

  pub list_postings_by_transaction-Completes :
      (t : ℕ) → Completes (list_postings_by_transaction t w)
  unfolding list_postings_by_transaction
  list_postings_by_transaction-Completes t =
      call-Succeeds _ w h (record { at = (no_faults_later w h, tt) })

-- COMMIT passes the triggers of balanced postings.
triggers_pass_balanced :
    (ps : List Posting) (ts : List ℕ) → IsBalanced ps → triggers_pass ps ts ≡ true
unfolding triggers_pass trigger_passes
triggers_pass_balanced ps [] h = refl
triggers_pass_balanced ps (t ∷ ts) h = rw (h t, triggers_pass_balanced ps ts h) refl

pub commit-Succeeds :
    (w : World)
    → w.faults ≡ []
    → IsBalanced w.db.postings
    → Succeeds (λ _ w'. (w'.db ≡ w.db) × (w'.saved ≡ none)) (commit w)
unfolding commit finish
commit-Succeeds w h balanced = call-Succeeds _ w h (
    rw (triggers_pass_balanced w.db.postings w.deferred balanced)
      (record { at = (no_faults_later w h, (refl, refl)) }))
