-- ===== src/Service/Transactions/Retry.antt =====
-- Retries under one idempotency key: the stored response comes back, and at most one attempt is
-- ever recorded.
use ledger_x.Service.Types.{TransactionDto, Env, BalancedInput}
use ledger_x.Service.Transactions.AllOrNothing.{create_balanced-Atomic, Replays, Created}
use ledger_x.Repo.Models.{Database}
use ledger_x.Repo.Atomic.{Atomic-IsReady, committed, replayed, unheard, undone, Atomic, IsReady}
use ledger_x.Service.Transactions.Claimed.{StoredReply}
use ledger_x.Prelude.{
  inr, inl, Option-cases, ◌∙◌, ap, List, ◌≡◌, ◌∷◌, ◌++◌, ℕ, str_eq, some, refl, none, false,
  eq_refl, [], String,
}
use ledger_x.Repo.World.{Error, Result, CacheEntry, ◌>>=◌, ok, call, attempt, answer, World}
use ledger_x.Service.Transactions.Claim.{
  stored_response, replay, or_bad_json, claim_idempotency, after_claim,
}
use ledger_x.Repo.Tx.{with_rollback, rollback, begin_after, begin}
use ledger_x.Repo.Idempotency.{
  find_key, succeed, is_key, insert_idempotency_key, get_idempotency, claim_key,
}
use ledger_x.Service.Transactions.Create.{
  request_hash, create_unless_cached, create_in_tx, create_balanced,
}
use ledger_x.Prelude.Select.{exists_row_found}
use ledger_x.Service.Transactions.Keys.{find_key-claimed}
use ledger_x.Repo.Rows.{marked}
use ledger_x.Service.Transactions.Legs.{validate_legs}

-- json.Unmarshal reads back what json.Marshal wrote for this response.
abbrev pub JsonRoundTrip : Env → TransactionDto → Type 0
JsonRoundTrip env dto =
    (json : String) → env.marshal_dto dto ≡ some json → env.unmarshal_dto json ≡ some dto

-- The world with no fault to come.
abbrev pub quiet : World → World
quiet w = record w { faults = [] }

claim_stored :
    (env : Env) (uid : ℕ) (k hash : String) (w : World) (dto : TransactionDto)
    → StoredReply env uid k hash w.db dto
    → claim_idempotency env uid k hash (quiet w) ≡ (ok (some dto), quiet w)
unfolding claim_idempotency attempt insert_idempotency_key call answer claim_key after_claim
    get_idempotency replay stored_response or_bad_json ◌>>=◌
claim_stored env uid k hash w dto s =
    let taken = exists_row_found (is_key uid k) w.db.idempotency_keys s.row s.found_row in
    rw s.keyed (
      rw taken
        (rw s.found_row (rw s.same_hash (rw (s.succeeded_row, s.response) (rw s.decoded refl)))))

-- With no fault, a request whose response is stored is answered by it, and nothing changes.
stored-Replays :
    (env : Env) (input : BalancedInput) (w : World) (dto : TransactionDto)
    → IsReady w
    → validate_legs input.legs input.use_external_leg ≡ none
    → Replays env input w.db dto
    → let (r, w') = create_balanced env input (quiet w) in
      (r ≡ ok dto) × (w'.db ≡ w.db) × (w'.cache ≡ w.cache)
unfolding create_balanced begin begin_after with_rollback rollback create_in_tx create_unless_cached
    ◌>>=◌
stored-Replays env input w dto ready valid s = rw valid (
    rw
      (claim_stored env input.user_id input.idempotency_key (request_hash env input)
        (record w { saved = some w.db; deferred = [] }) dto s)
      (refl, refl, refl))

-- The row that a committed request has left under its key.
pub Created-find_key :
    (env : Env) (input : BalancedInput) (d d' : Database) (dto : TransactionDto)
    → str_eq input.idempotency_key "" ≡ false
    → (h : Created env input d dto d')
    → find_key input.user_id input.idempotency_key d'.idempotency_keys
      ≡ some (succeed h.recorded.json h.claimed.row)
Created-find_key env input d d' dto keyed h =
    let k = h.claimed in
    let claimed_rows : h.between.idempotency_keys ≡ d.idempotency_keys ++ k.row ∷ [] =
      ap (λ x. x.idempotency_keys) k.claimed ∙ rw keyed refl in
    let rows_after : d'.idempotency_keys
        ≡ marked input.user_id input.idempotency_key (request_hash env input) h.recorded.json
            (d.idempotency_keys ++ k.row ∷ []) =
      h.recorded.keys ∙ rw (keyed, claimed_rows) refl in
    rw rows_after (
      find_key-claimed input.user_id input.idempotency_key (request_hash env input) h.recorded.json
        d.idempotency_keys k.row (k.is_new keyed) k.row_user k.row_key k.row_hash)

-- A committed request has left its response under the key.
Created-StoredReply :
    (env : Env) (input : BalancedInput) (d d' : Database) (dto : TransactionDto)
    → JsonRoundTrip env dto
    → str_eq input.idempotency_key "" ≡ false
    → Created env input d dto d'
    → Replays env input d' dto
Created-StoredReply env input d d' dto law keyed h = record {
  row = succeed h.recorded.json h.claimed.row;
  json = h.recorded.json;
  keyed = keyed;
  found_row = Created-find_key env input d d' dto keyed h;
  same_hash = rw (h.claimed.row_hash, eq_refl (request_hash env input)) refl;
  succeeded_row = refl;
  response = refl;
  decoded = law h.recorded.json (h.recorded.encoded keyed);
}

err_ne_ok : {A : Type 0} {e : Error} {a : A} → Result.err e ≡ ok a → ⊥
err_ne_ok h = cc

module _ (env : Env) (input : BalancedInput) (keyed : str_eq input.idempotency_key "" ≡ false) where
  answered :
      (d : Database) (c : List CacheEntry) {r : Result TransactionDto × World}
      → Atomic d c (Replays env input d) (Created env input d) r
      → (dto : TransactionDto) → JsonRoundTrip env dto
      → r.0 ≡ ok dto
      → Replays env input r.1.db dto
  answered d c (undone e v back) dto law p = cc
  answered d c (unheard y v h b same idle) dto law p = cc
  answered d c (replayed y v s back) dto law p =
      let same : y ≡ dto = cc in rw (← same, back.db_is) s
  answered d c (committed y v h b idle) dto law p =
      let same : y ≡ dto = cc in
      rw (← same) (Created-StoredReply env input d v.db y (rw same law) keyed h)

  answered_valid :
      (w : World) (dto : TransactionDto)
      → (create_balanced env input w).0 ≡ ok dto
      → validate_legs input.legs input.use_external_leg ≡ none
  unfolding create_balanced
  answered_valid w dto h = elim (Option-cases (validate_legs input.legs input.use_external_leg)) [
    | inl valid ↦ valid
    | inr (e, invalid) ↦ absurd (err_ne_ok (rw invalid at h))
  ]

  -- When no transaction is open, every transaction balances, the key is not empty and JSON reads
  -- back the response that was answered, a request that was answered under any faults is
  -- answered the same when it is sent again without faults, and the second call changes no table
  -- and no cache entry.
  pub create_retry :
      (w : World) (dto : TransactionDto)
      → JsonRoundTrip env dto
      → IsReady w
      → (create_balanced env input w).0 ≡ ok dto
      → let w' = (create_balanced env input w).1 in
        let (r, w'') = create_balanced env input (quiet w') in
        (r ≡ ok dto) × (w''.db ≡ w'.db) × (w''.cache ≡ w'.cache)
  create_retry w dto law ready first =
      stored-Replays env input (create_balanced env input w).1 dto
        (Atomic-IsReady ready.balanced (create_balanced-Atomic env input w ready))
        (answered_valid w dto first)
        (answered w.db w.cache (create_balanced-Atomic env input w ready) dto law first)
