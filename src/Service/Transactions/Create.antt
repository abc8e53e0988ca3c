-- ===== src/Service/Transactions/Create.antt =====
-- internal/service/transactions.go, createBalanced, Create and Transfer.
use ledger_x.Prelude.{
  ℕ, String, true, false, Option, none, some, List, [], ◌∷◌, ◌==◌, str_eq, if◌then◌else◌,
}
use ledger_x.Prelude.Int.{pos, eq_ℤ, leb_ℤ}
use ledger_x.Int64.{neg64}
use ledger_x.Repo.World.{Error, unbalanced, zero_amount, Action, pure, raise, ◌>>=◌, ◌>>◌}
use ledger_x.Repo.Tx.{begin, commit, with_rollback}
use ledger_x.Repo.Models.{Transaction}
use ledger_x.Repo.Transactions.{create_transaction_header}
use ledger_x.Service.Types.{
  Env, utc, from_db, Leg, PostingDto, TransactionDto, CreateInput, TransferInput, BalancedInput,
}
use ledger_x.Service.Summary.{cached, invalidate}
use ledger_x.Service.Transactions.Legs.{validate_legs, resolve_legs, check_legs}
use ledger_x.Service.Transactions.Claim.{claim_idempotency, write_postings, publish, remember}

unfoldable pub request_hash : Env → BalancedInput → String
request_hash env input = env.request_digest (record {
  user_id = input.user_id;
  legs = input.legs;
  external = input.use_external_leg;
  currency = input.currency;
  occurred_at = utc input.occurred_at;
  note = input.note;
})

-- pgtype.Text{String: s, Valid: s != ""}
abbrev pub text_or_null : String → Option String
text_or_null s = if str_eq s "" then none else some s

abbrev pub created_dto : Env → BalancedInput → Transaction → List PostingDto → TransactionDto
created_dto env input header postings = record {
  id = header.id;
  user_id = header.user_id;
  currency = header.currency;
  occurred_at = from_db env header.occurred_at;
  note = input.note;
  reversal_of = 0;
  postings = postings;
  created_at = from_db env header.created_at;
}

-- Steps 2 to 6 up to the commit; the legs are needed after it.
unfoldable pub record_transaction :
    Env → String → BalancedInput → Action (TransactionDto × List Leg)
record_transaction env hash input = do
  legs ← resolve_legs input
  check_legs input.user_id input.currency legs
  header ← create_transaction_header (record {
    user_id = input.user_id;
    currency = input.currency;
    category_id = none;
    occurred_at = env.store_time input.occurred_at.instant;
    note = text_or_null input.note;
    reversal_of = none;
  })
  postings ← write_postings header.id legs
  let dto = created_dto env input header postings
  publish env "TransactionCreated" (record {
    transaction_id = header.id;
    reversal_of = none;
    user_id = header.user_id;
    currency = header.currency;
    occurred_at = from_db env header.occurred_at;
    postings = postings;
  })
  remember env input.user_id input.idempotency_key hash dto
  pure (dto, legs)

-- Step 7, once the transaction is committed.
unfoldable pub invalidate_legs : ℕ → List Leg → Action Unit
invalidate_legs month [] = pure tt
invalidate_legs month (l ∷ legs) = do invalidate l.account_id month; invalidate_legs month legs

unfoldable pub create_unless_cached :
    Env → String → BalancedInput → Option TransactionDto → Action TransactionDto
create_unless_cached env hash input (some dto) = pure dto
create_unless_cached env hash input none = do
  written ← record_transaction env hash input
  commit
  invalidate_legs (env.civil_month input.occurred_at.wall) written.1
  pure written.0

unfoldable pub create_in_tx : Env → String → BalancedInput → Action TransactionDto
create_in_tx env hash input = do
  cached ← claim_idempotency env input.user_id input.idempotency_key hash
  create_unless_cached env hash input cached

-- if err := …; err != nil { return err }
abbrev pub unless : {A : Type 0} → Option Error → Action A → Action A
unless (some e) m = raise e
unless none m = m

unfoldable pub create_balanced : Env → BalancedInput → Action TransactionDto
create_balanced env input =
    unless (validate_legs input.legs input.use_external_leg)
      (begin >> with_rollback (create_in_tx env (request_hash env input) input))

abbrev pub create_legs : CreateInput → BalancedInput
create_legs input = record {
  user_id = input.user_id;
  legs = record { account_id = input.account_id; amount_minor = input.amount_minor } ∷ [];
  use_external_leg = true;
  currency = input.currency;
  occurred_at = input.occurred_at;
  note = input.note;
  idempotency_key = input.idempotency_key;
}

unfoldable pub create : Env → CreateInput → Action TransactionDto
create env input =
    if eq_ℤ input.amount_minor (pos 0)
    then raise zero_amount
    else create_balanced env (create_legs input)

abbrev pub transfer_legs : TransferInput → BalancedInput
transfer_legs input = record {
  user_id = input.user_id;
  legs =
      record { account_id = input.from_account_id; amount_minor = neg64 input.amount_minor }
      ∷ record { account_id = input.to_account_id; amount_minor = input.amount_minor }
      ∷ [];
  use_external_leg = false;
  currency = input.currency;
  occurred_at = input.occurred_at;
  note = input.note;
  idempotency_key = input.idempotency_key;
}

unfoldable pub transfer : Env → TransferInput → Action TransactionDto
transfer env input =
    if leb_ℤ input.amount_minor (pos 0)
    then raise zero_amount
    else if input.from_account_id == input.to_account_id
    then raise unbalanced
    else create_balanced env (transfer_legs input)
