-- ===== src/Repo/Idempotency.antt =====
-- internal/repo/sqlc/idempotency.sql.go
use ledger_x.Prelude.{
  ℕ, String, Bool, ◌&&◌, Option, none, some, List, [], ◌∷◌, ◌++◌, ◌==◌, str_eq, if◌then◌else◌,
}
use ledger_x.Prelude.Select.{find_row, exists_row, update_rows}
use ledger_x.Repo.Models.{IdempotencyKey, started, succeeded}
use ledger_x.Repo.World.{ok, err, no_rows, foreign_key_violation, Action, one_row, call}
use ledger_x.Repo.Accounts.{user_exists}

-- PRIMARY KEY (user_id, key)
abbrev pub is_key : ℕ → String → IdempotencyKey → Bool
is_key uid k r = r.user_id == uid && str_eq r.key k

abbrev pub find_key : ℕ → String → List IdempotencyKey → Option IdempotencyKey
find_key uid k = find_row (is_key uid k)

-- ON CONFLICT (user_id, key) DO NOTHING returns no row.
unfoldable pub claim_key : ℕ → String → String → Action IdempotencyKey
claim_key uid k hash w =
    let row : IdempotencyKey = record {
      user_id = uid;
      key = k;
      request_hash = hash;
      status = started;
      response_json = none;
      created_at = w.now;
    } in
    if exists_row (is_key uid k) w.db.idempotency_keys
    then (err no_rows, w)
    else if user_exists w.db uid
    then (
      ok row,
      record w { db = record w.db { idempotency_keys = w.db.idempotency_keys ++ row ∷ [] } },
    )
    else (err foreign_key_violation, w)

unfoldable pub insert_idempotency_key : ℕ → String → String → Action IdempotencyKey
insert_idempotency_key uid k hash = call (claim_key uid k hash)

unfoldable pub get_idempotency : ℕ → String → Action IdempotencyKey
get_idempotency uid k = call (λ w. one_row (find_key uid k w.db.idempotency_keys) w)

abbrev pub succeed : String → IdempotencyKey → IdempotencyKey
succeed json r = record r { status = succeeded; response_json = some json }

unfoldable pub mark_idempotency_success : ℕ → String → String → String → Action Unit
mark_idempotency_success uid k hash json = call λ w. (
  ok tt,
  record w {
    db = record w.db {
      idempotency_keys =
          update_rows (λ (r : IdempotencyKey). is_key uid k r && str_eq r.request_hash hash)
            (succeed json) w.db.idempotency_keys;
    };
  },
)
