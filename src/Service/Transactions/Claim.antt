-- ===== src/Service/Transactions/Claim.antt =====
-- internal/service/transactions.go, claimIdempotency and the writes that every operation makes:
-- postings, the outbox event, the cached response.
use ledger_x.Prelude.{ℕ, String, not, Option, none, some, List, [], ◌∷◌, str_eq, if◌then◌else◌}
use ledger_x.Repo.Models.{IdempotencyKey, Posting, Status, succeeded}
use ledger_x.Repo.World.{
  Result, ok, err, idempotency_conflict, idempotency_in_flight, bad_json, Action, pure, raise,
  ◌>>=◌, ◌>>◌, attempt, is_no_rows,
}
use ledger_x.Repo.Idempotency.{insert_idempotency_key, get_idempotency, mark_idempotency_success}
use ledger_x.Repo.Transactions.{create_posting}
use ledger_x.Repo.Outbox.{create_outbox_event}
use ledger_x.Service.Types.{Env, Leg, PostingDto, TransactionDto, EventPayload}

unfoldable pub or_bad_json : {A : Type 0} → Option A → Action A
or_bad_json none = raise bad_json
or_bad_json (some a) = pure a

unfoldable pub stored_response : Env → Status → Option String → Action (Option TransactionDto)
stored_response env succeeded (some json) = do
  dto ← or_bad_json (env.unmarshal_dto json)
  pure (some dto)
stored_response env _ _ = raise idempotency_in_flight

-- The key exists: replay, conflict, or in flight.
unfoldable pub replay : Env → String → IdempotencyKey → Action (Option TransactionDto)
replay env hash row =
    if not (str_eq row.request_hash hash)
    then raise idempotency_conflict
    else stored_response env row.status row.response_json

unfoldable pub after_claim :
    Env → ℕ → String → String → Result IdempotencyKey → Action (Option TransactionDto)
after_claim env uid key hash (ok _) = pure none
after_claim env uid key hash (err e) =
    if is_no_rows e then (do row ← get_idempotency uid key; replay env hash row) else raise e

unfoldable pub claim_idempotency : Env → ℕ → String → String → Action (Option TransactionDto)
claim_idempotency env uid key hash =
    if str_eq key ""
    then pure none
    else do r ← attempt (insert_idempotency_key uid key hash); after_claim env uid key hash r

abbrev pub posting_dto : Posting → PostingDto
posting_dto p = record { id = p.id; account_id = p.account_id; amount_minor = p.amount_minor }

-- for _, l := range legs { qtx.CreatePosting … }
unfoldable pub write_postings : ℕ → List Leg → Action (List PostingDto)
write_postings t [] = pure []
write_postings t (l ∷ legs) = do
  p ← create_posting t l.account_id l.amount_minor
  rest ← write_postings t legs
  pure (posting_dto p ∷ rest)

unfoldable pub publish : Env → String → EventPayload → Action Unit
publish env event_type event = do
  payload ← or_bad_json (env.marshal_event event)
  create_outbox_event event_type payload
  pure tt

-- Step 6: the response under the key, where there is one.
unfoldable pub remember : Env → ℕ → String → String → TransactionDto → Action Unit
remember env uid key hash dto =
    if str_eq key ""
    then pure tt
    else do json ← or_bad_json (env.marshal_dto dto); mark_idempotency_success uid key hash json
