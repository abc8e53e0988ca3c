-- ===== src/Service/Transactions/Reverse.antt =====
-- internal/service/transactions.go, Reverse.
use ledger_x.Prelude.{
  ℕ, String, Bool, true, false, Option, none, some, List, [], ◌∷◌, map, if◌then◌else◌,
}
use ledger_x.Int64.{neg64}
use ledger_x.Repo.World.{
  Error, Result, ok, err, unique_violation, tx_not_found, already_reversed, is_reversal, Action,
  pure, attempt, found, raise, raise_if, ◌>>=◌, ◌>>◌,
}
use ledger_x.Repo.Tx.{begin, commit, with_rollback}
use ledger_x.Repo.Models.{Transaction, Posting}
use ledger_x.Repo.Transactions.{
  create_transaction_header, get_transaction_for_user, list_postings_by_transaction,
}
use ledger_x.Service.Types.{Env, from_db, Leg, PostingDto, TransactionDto, ReverseInput}
use ledger_x.Service.Summary.{invalidate}
use ledger_x.Service.Transactions.Claim.{claim_idempotency, write_postings, publish, remember}

unfoldable pub reverse_hash : Env → ReverseInput → String
reverse_hash env input =
    env.reverse_digest
      (record { user_id = input.user_id; op = "reverse"; transaction_id = input.transaction_id })

-- isUniqueViolation
abbrev pub is_unique_violation : Error → Bool
is_unique_violation unique_violation = true
is_unique_violation _ = false

abbrev pub or_already_reversed : {A : Type 0} → Result A → Action A
or_already_reversed (ok a) = pure a
or_already_reversed (err e) = raise (if is_unique_violation e then already_reversed else e)

abbrev pub is_some : {A : Type 0} → Option A → Bool
is_some none = false
is_some (some _) = true

abbrev pub is_empty : {A : Type 0} → List A → Bool
is_empty [] = true
is_empty (_ ∷ _) = false

abbrev pub negated : Posting → Leg
negated p = record { account_id = p.account_id; amount_minor = neg64 p.amount_minor }

abbrev pub reversal_dto : Env → Transaction → Transaction → List PostingDto → TransactionDto
reversal_dto env orig header postings = record {
  id = header.id;
  user_id = header.user_id;
  currency = header.currency;
  occurred_at = from_db env header.occurred_at;
  note = env.reversal_note orig.id;
  reversal_of = orig.id;
  postings = postings;
  created_at = from_db env header.created_at;
}

pub record Reversal : Type 0 where
  pub dto : TransactionDto
  pub original : Transaction
  pub postings : List Posting

-- Everything from the lookup of the original to the commit.
unfoldable pub record_reversal : Env → String → ReverseInput → Action Reversal
record_reversal env hash input = do
  r ← attempt (get_transaction_for_user input.transaction_id input.user_id)
  orig ← found tx_not_found r
  raise_if (is_some orig.reversal_of) is_reversal
  orig_postings ← list_postings_by_transaction orig.id
  raise_if (is_empty orig_postings) tx_not_found
  h ← attempt (
      create_transaction_header (record {
        user_id = input.user_id;
        currency = orig.currency;
        category_id = none;
        occurred_at = env.store_time env.go_now;
        note = some (env.reversal_note orig.id);
        reversal_of = some orig.id;
      }))
  header ← or_already_reversed h
  postings ← write_postings header.id (map negated orig_postings)
  let dto = reversal_dto env orig header postings
  publish env "TransactionReversed" (record {
    transaction_id = header.id;
    reversal_of = some orig.id;
    user_id = header.user_id;
    currency = header.currency;
    occurred_at = from_db env header.occurred_at;
    postings = postings;
  })
  remember env input.user_id input.idempotency_key hash dto
  pure (record { dto = dto; original = orig; postings = orig_postings })

-- The months of the original and of the reversal, for each posting.
unfoldable pub invalidate_postings : ℕ → ℕ → List Posting → Action Unit
invalidate_postings month now_month [] = pure tt
invalidate_postings month now_month (p ∷ ps) = do
  invalidate p.account_id month
  invalidate p.account_id now_month
  invalidate_postings month now_month ps

unfoldable pub reverse_unless_cached :
    Env → String → ReverseInput → Option TransactionDto → Action TransactionDto
reverse_unless_cached env hash input (some dto) = pure dto
reverse_unless_cached env hash input none = do
  written ← record_reversal env hash input
  commit
  invalidate_postings (env.civil_month (env.local_wall written.original.occurred_at))
      (env.civil_month env.go_now) written.postings
  pure written.dto

unfoldable pub reverse_in_tx : Env → String → ReverseInput → Action TransactionDto
reverse_in_tx env hash input = do
  cached ← claim_idempotency env input.user_id input.idempotency_key hash
  reverse_unless_cached env hash input cached

unfoldable pub reverse : Env → ReverseInput → Action TransactionDto
reverse env input = begin >> with_rollback (reverse_in_tx env (reverse_hash env input) input)
