-- ===== src/Service/Tests.antt =====
-- Runs of the services on the sample world, and the theorems applied to them.
use ledger_x.Prelude.{
  ◌↔◌, ◌≢◌, ◌^◌, ap, ◌⊎◌, ◌≡◌, ◌∷◌, ◌==◌, ◌<◌, true, some, refl, none, map, if◌then◌else◌, false,
  arith, [], List, Bool, All,
}
use ledger_x.Repo.Atomic.{IsReady, Atomic}
use ledger_x.Service.Types.{Leg, TransactionDto, Env, BalancedInput}
use ledger_x.Service.Transactions.AllOrNothing.{create_balanced-Atomic, Replays, Created}
use ledger_x.Repo.World.{
  ◌>>=◌, unacknowledged, ok, found, fine, failed, call, attempt, answer, World, Fault,
}
use ledger_x.Int64.{min_int64, wrap64, of_bits, neg64, bits, add64, InRange}
use ledger_x.Service.Transactions.Reversals.{reverse_undoes, Negatable}
use ledger_x.Repo.Models.{normal}
use ledger_x.Service.Requests.{
  transfer_request, serve_all, reverse_request, create_request, Request,
}
use ledger_x.Service.Transactions.Reversed.{reverse-Atomic, Reversed, ReverseReplays}
use ledger_x.Service.Samples.{
  reversed_world, posted_world, sample_world, sample_transfer, sample_reverse, sample_env,
  sample_db, sample_create, at_utc, account,
}
use ledger_x.Service.Transactions.Ownership.{create_balanced_foreign, account_sum}
use ledger_x.Service.Transactions.Claim.{
  write_postings, stored_response, replay, remember, publish, or_bad_json, claim_idempotency,
  after_claim,
}
use ledger_x.Service.Transactions.Attempts.{attempts_once, attempts}
use ledger_x.Repo.Tx.{
  with_rollback, triggers_pass, trigger_passes, rollback, finish, commit, begin_after, begin,
}
use ledger_x.Service.Transactions.Legs.{
  validate_legs, validate_from, sum_from, resolve_legs, resolve_external, external_or_create,
  check_legs, check_leg,
}
use ledger_x.Repo.Idempotency.{
  mark_idempotency_success, insert_idempotency_key, get_idempotency, claim_key,
}
use ledger_x.Service.Transactions.Create.{
  request_hash, record_transaction, invalidate_legs, create_unless_cached, create_legs,
  create_in_tx, create_balanced, create,
}
use ledger_x.Repo.Outbox.{insert_event, create_outbox_event}
use ledger_x.Repo.Transactions.{
  postings_of, insert_posting, insert_header, create_transaction_header, create_posting,
}
use ledger_x.Service.Transactions.Retry.{quiet, create_retry}
use ledger_x.Repo.Accounts.{get_external_account, get_account}
use ledger_x.Service.Summary.{set_entry, invalidate, ignore}
use ledger_x.Prelude.Int.{eq_ℤ, neg_part, ◌+ℤ◌, ℤ, pos, negsuc}
use ledger_x.Service.Transactions.Reverse.{reverse}
use ledger_x.Service.Transactions.Once.{reverse_twice, reverse_taken}
use ledger_x.Service.Requests.Sound.{total, serve_all-total, serve_all-IsReady}
use ledger_x.Service.Transactions.Validated.{validate_legs_iff, sum_from_exact, exact_sum}

abbrev amounts : World → List ℤ
amounts w = map (λ p. p.amount_minor) w.db.postings

pub sample-IsReady : IsReady sample_world
sample-IsReady = record { idle = refl; balanced = λ t. refl }

-- Responses are stored as one text, which reads back as the first response.
abbrev first_dto : TransactionDto
first_dto = record {
  id = 1;
  user_id = 1;
  currency = "USD";
  occurred_at = at_utc 700;
  note = "salary";
  reversal_of = 0;
  postings =
      record { id = 1; account_id = 1; amount_minor = pos 500 }
      ∷ record { id = 2; account_id = 4; amount_minor = negsuc 499 }
      ∷ [];
  created_at = at_utc 1000;
}

abbrev pub storing_env : Env
storing_env = record sample_env {
  marshal_dto = λ d. some "dto";
  unmarshal_dto = λ s. some first_dto;
}

abbrev keyed_input : BalancedInput
keyed_input = create_legs (record sample_create { idempotency_key = "k" })

create_posts : amounts (create sample_env sample_create sample_world).1 ≡ pos 500 ∷ negsuc 499 ∷ []
unfolding create create_balanced create_in_tx create_unless_cached record_transaction
    invalidate_legs validate_legs validate_from resolve_legs resolve_external external_or_create
    sum_from check_legs check_leg claim_idempotency after_claim replay stored_response or_bad_json
    claim_key insert_idempotency_key get_idempotency mark_idempotency_success write_postings publish
    remember begin begin_after commit finish trigger_passes triggers_pass rollback with_rollback
    create_transaction_header insert_header create_posting insert_posting get_account
    get_external_account create_outbox_event insert_event invalidate set_entry ignore request_hash
    answer call attempt found ◌>>=◌ ◌+ℤ◌ add64 neg64 wrap64 bits of_bits
create_posts = refl

first_answer : (create_balanced storing_env keyed_input sample_world).0 ≡ ok first_dto
unfolding create create_balanced create_in_tx create_unless_cached record_transaction
    invalidate_legs validate_legs validate_from resolve_legs resolve_external external_or_create
    sum_from check_legs check_leg claim_idempotency after_claim replay stored_response or_bad_json
    claim_key insert_idempotency_key get_idempotency mark_idempotency_success write_postings publish
    remember begin begin_after commit finish trigger_passes triggers_pass rollback with_rollback
    create_transaction_header insert_header create_posting insert_posting get_account
    get_external_account create_outbox_event insert_event invalidate set_entry ignore request_hash
    answer call attempt found ◌>>=◌ ◌+ℤ◌ add64 neg64 wrap64 bits of_bits
first_answer = refl

pub pair_sum :
    (b : Bool)
    → (if b
        then pos 500 +ℤ (if b then negsuc 499 +ℤ pos 0 else pos 0)
        else (if b then negsuc 499 +ℤ pos 0 else pos 0))
      ≡ pos 0
unfolding ◌+ℤ◌
pair_sum true = refl
pair_sum false = refl

pub posted-IsReady : IsReady posted_world
posted-IsReady = record { idle = refl; balanced = λ t. pair_sum (1 == t) }

pub above_min : (x : ℤ) → neg_part x < 2 ^ 63 → x ≢ min_int64
above_min x h e = let same : neg_part x ≡ 2 ^ 63 = ap neg_part e in omega arith

posted-Negatable : All Negatable posted_world.db.postings
posted-Negatable = (
  ((ground arith, ground arith), above_min (pos 500) (ground arith)),
  (((ground arith, ground arith), above_min (negsuc 499) (ground arith)), tt),
)

reversed-IsReady : IsReady reversed_world
reversed-IsReady = record { idle = refl; balanced = λ t. pair_sum (1 == t) }

create_balanced-Atomic_example :
    Atomic sample_world.db sample_world.cache
      (Replays sample_env keyed_input sample_world.db)
      (Created sample_env keyed_input sample_world.db)
      (create_balanced sample_env keyed_input sample_world)
create_balanced-Atomic_example =
    create_balanced-Atomic sample_env keyed_input sample_world sample-IsReady

reverse-Atomic_example :
    Atomic posted_world.db posted_world.cache
      (ReverseReplays sample_env sample_reverse posted_world.db)
      (Reversed sample_env sample_reverse posted_world.db)
      (reverse sample_env sample_reverse posted_world)
reverse-Atomic_example = reverse-Atomic sample_env sample_reverse posted_world posted-IsReady

abbrev history : List (List Fault × Request)
history =
    ([], create_request sample_create)
    ∷ (fine ∷ failed ∷ [], transfer_request sample_transfer)
    ∷ ([], reverse_request sample_reverse)
    ∷ []

serve_all-IsReady_example : IsReady (serve_all sample_env history sample_world)
serve_all-IsReady_example = serve_all-IsReady sample_env history sample_world sample-IsReady

serve_all-total_example : total (serve_all sample_env history sample_world).db.postings ≡ pos 0
serve_all-total_example = serve_all-total sample_env history sample_world sample-IsReady

attempts_once_example :
    let d' =
      (attempts storing_env keyed_input ((fine ∷ unacknowledged ∷ []) ∷ [] ∷ []) sample_world).db in
    (d' ≡ sample_db) ⊎ ((dto : TransactionDto) × Created storing_env keyed_input sample_db dto d')
attempts_once_example =
    attempts_once storing_env keyed_input refl ((fine ∷ unacknowledged ∷ []) ∷ [] ∷ []) sample_world
      sample-IsReady

create_retry_example :
    let w' = (create_balanced storing_env keyed_input sample_world).1 in
    let (r, w'') = create_balanced storing_env keyed_input (quiet w') in
    (r ≡ ok first_dto) × (w''.db ≡ w'.db) × (w''.cache ≡ w'.cache)
create_retry_example =
    create_retry storing_env keyed_input refl sample_world first_dto (λ json h. refl) sample-IsReady
      first_answer

create_balanced_foreign_example :
    account_sum 3 (create_balanced sample_env keyed_input sample_world).1.db.postings
    ≡ account_sum 3 []
create_balanced_foreign_example =
    create_balanced_foreign sample_env keyed_input sample_world 3 (account 3 2 "other" normal)
      sample-IsReady refl refl

reverse_undoes_example :
    let d' = (reverse sample_env sample_reverse posted_world).1.db in
    (d' ≡ posted_world.db)
    ⊎ (account_sum 1 d'.postings +ℤ account_sum 1 (postings_of 1 posted_world.db.postings)
        ≡ account_sum 1 posted_world.db.postings)
reverse_undoes_example =
    reverse_undoes sample_env sample_reverse posted_world 1 posted-IsReady posted-Negatable

reverse_taken_example : (reverse sample_env sample_reverse reversed_world).1.db ≡ reversed_world.db
reverse_taken_example = reverse_taken sample_env sample_reverse reversed_world reversed-IsReady refl

reverse_twice_example :
    let w' = (reverse sample_env sample_reverse posted_world).1 in
    (w'.db ≡ posted_world.db)
    ⊎ ((reverse sample_env (record sample_reverse { user_id = 2 }) (record w' { faults = [] })).1.db
        ≡ w'.db)
reverse_twice_example =
    reverse_twice sample_env sample_reverse (record sample_reverse { user_id = 2 }) posted_world []
      posted-IsReady refl

validate_legs_iff_example : (validate_legs keyed_input.legs true ≡ none) ↔ (
    All (λ (l : Leg). eq_ℤ l.amount_minor (pos 0) ≡ false) keyed_input.legs
    × ((true ≡ true) ⊎ (wrap64 (exact_sum keyed_input.legs) ≡ pos 0)))
validate_legs_iff_example = validate_legs_iff keyed_input.legs true

in_range : InRange (exact_sum keyed_input.legs)
unfolding ◌+ℤ◌
in_range = (ground arith, ground arith)

sum_from_exact_example : sum_from (pos 0) keyed_input.legs ≡ exact_sum keyed_input.legs
sum_from_exact_example = sum_from_exact keyed_input.legs in_range
