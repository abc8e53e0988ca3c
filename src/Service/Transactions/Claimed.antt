-- ===== src/Service/Transactions/Claimed.antt =====
-- What claimIdempotency finds: a fresh key, or the response of an earlier request.
use ledger_x.Repo.Outcome.{
  bind-Yields, attempt-Ends, Yields-ok, Yields-err, NoRows, Ends-Yields, Ends, Yields,
}
use ledger_x.Prelude.{
  ◌≡◌, ◌∷◌, ◌++◌, ℕ, true, str_eq, some, refl, none, inr, inl, if◌then◌else◌, false, [], String,
  Option, Bool-cases,
}
use ledger_x.Repo.Models.{succeeded, started, Status, IdempotencyKey, Database}
use ledger_x.Service.Types.{TransactionDto, Env}
use ledger_x.Repo.Rows.{insert_idempotency_key-Ends, get_idempotency-Ends, KeyClaimed}
use ledger_x.Repo.World.{◌>>=◌, pure, ok, is_no_rows, err, World, Result}
use ledger_x.Service.Transactions.Claim.{
  stored_response, replay, or_bad_json, claim_idempotency, after_claim,
}
use ledger_x.Prelude.Select.{exists_row}
use ledger_x.Repo.Idempotency.{is_key, find_key}
use ledger_x.Service.Transactions.Written.{or_bad_json-Yields}

-- `d'` is `d` with the key claimed, where there is a key.
pub record Claimed (uid : ℕ) (k hash : String) (d d' : Database) : Type 0 where
  pub row : IdempotencyKey
  pub claimed : d' ≡ record d {
    idempotency_keys = if str_eq k "" then d.idempotency_keys else d.idempotency_keys ++ row ∷ [];
  }
  pub row_user : row.user_id ≡ uid
  pub row_key : row.key ≡ k
  pub row_hash : row.request_hash ≡ hash
  pub is_new : str_eq k "" ≡ false → exists_row (is_key uid k) d.idempotency_keys ≡ false

-- The key carries the same hash and a response, which decodes to `dto`.
pub record StoredReply (env : Env) (uid : ℕ) (k hash : String) (d : Database) (dto : TransactionDto)
    : Type 0 where
  pub row : IdempotencyKey
  pub json : String
  pub keyed : str_eq k "" ≡ false
  pub found_row : find_key uid k d.idempotency_keys ≡ some row
  pub same_hash : str_eq row.request_hash hash ≡ true
  pub succeeded_row : row.status ≡ succeeded
  pub response : row.response_json ≡ some json
  pub decoded : env.unmarshal_dto json ≡ some dto

abbrev pub Claims : Env → ℕ → String → String → Database → Option TransactionDto → World → Type 0
Claims env uid k hash d none w = Claimed uid k hash d w.db
Claims env uid k hash d (some dto) w = StoredReply env uid k hash d dto

module _ (env : Env) (uid : ℕ) (k hash : String) where
  no_key : (d : Database) → str_eq k "" ≡ true → Claimed uid k hash d d
  no_key d e = record {
    row = record {
      user_id = uid;
      key = k;
      request_hash = hash;
      status = started;
      response_json = none;
      created_at = 0;
    };
    claimed = rw e refl;
    row_user = refl;
    row_key = refl;
    row_hash = refl;
    is_new = λ f. cc;
  }

  new_key :
      (d : Database) (row : IdempotencyKey) (w : World)
      → str_eq k "" ≡ false
      → KeyClaimed uid k hash d row w
      → Claimed uid k hash d w.db
  new_key d row w e h = record {
    row = row;
    claimed = rw (e, h.added) refl;
    row_user = h.user_id;
    row_key = h.key;
    row_hash = h.request_hash;
    is_new = λ _. h.is_new;
  }

  decode-Yields :
      (json : String) (d : Database) (row : IdempotencyKey) (w : World)
      → str_eq k "" ≡ false
      → find_key uid k d.idempotency_keys ≡ some row
      → str_eq row.request_hash hash ≡ true
      → row.status ≡ succeeded
      → row.response_json ≡ some json
      → Yields
          (Claims env uid k hash d)
          ((or_bad_json (env.unmarshal_dto json) >>= λ dto. pure (some dto)) w)
  decode-Yields json d row w e f g s r =
      bind-Yields _ _ _ w (or_bad_json-Yields (env.unmarshal_dto json) w) λ dto w' (decoded, _).
        Yields-ok (some dto) w' (record {
          row = row;
          json = json;
          keyed = e;
          found_row = f;
          same_hash = g;
          succeeded_row = s;
          response = r;
          decoded = decoded;
        })

  stored_response-Yields :
      (status : Status) (response : Option String) (d : Database) (row : IdempotencyKey) (w : World)
      → str_eq k "" ≡ false
      → find_key uid k d.idempotency_keys ≡ some row
      → str_eq row.request_hash hash ≡ true
      → row.status ≡ status
      → row.response_json ≡ response
      → Yields (Claims env uid k hash d) (stored_response env status response w)
  unfolding stored_response
  stored_response-Yields succeeded (some json) d row w e f g s r =
      decode-Yields json d row w e f g s r
  stored_response-Yields succeeded none d row w e f g s r = Yields-err _ w
  stored_response-Yields started response d row w e f g s r = Yields-err _ w

  replay-Yields :
      (d : Database) (row : IdempotencyKey) (w : World)
      → str_eq k "" ≡ false
      → find_key uid k d.idempotency_keys ≡ some row
      → Yields (Claims env uid k hash d) (replay env hash row w)
  unfolding replay
  replay-Yields d row w e f = elim (Bool-cases (str_eq row.request_hash hash)) [
    | inl same ↦
        rw same (stored_response-Yields row.status row.response_json d row w e f same refl refl)
    | inr other ↦ rw other (Yields-err _ w)
  ]

  after_claim-Yields :
      (d : Database) (r : Result IdempotencyKey) (w : World)
      → str_eq k "" ≡ false
      → Ends (KeyClaimed uid k hash d) (NoRows (λ w'. w'.db ≡ d)) (r, w)
      → Yields (Claims env uid k hash d) (after_claim env uid k hash r w)
  unfolding after_claim
  after_claim-Yields d (ok row) w e h = Yields-ok none w (new_key d row w e h.at)
  after_claim-Yields d (err x) w e h = elim (Bool-cases (is_no_rows x)) [
    | inl exists ↦ rw exists (
        bind-Yields _ _ _ w (Ends-Yields _ (get_idempotency-Ends uid k w))
          λ row w' read. replay-Yields d row w' e (rw (h.at exists) at read.read))
    | inr other ↦ rw other (Yields-err _ w)
  ]

  pub claim_idempotency-Yields :
      (w : World) → Yields (Claims env uid k hash w.db) (claim_idempotency env uid k hash w)
  unfolding claim_idempotency
  claim_idempotency-Yields w = elim (Bool-cases (str_eq k "")) [
    | inl keyless ↦ rw keyless (Yields-ok none w (no_key w.db keyless))
    | inr keyed ↦ rw keyed (
        bind-Yields _ _ _ w (attempt-Ends _ w (insert_idempotency_key-Ends uid k hash w))
          λ r w' h. after_claim-Yields w.db r w' keyed h)
  ]
