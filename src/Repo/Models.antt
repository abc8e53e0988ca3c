-- ===== src/Repo/Models.antt =====
-- internal/repo/sqlc/models.go: a record for each table. Row ids are the positive numbers that the
-- sequences hand out, instants are nanoseconds, and a nullable column is an Option.
use ledger_x.Prelude.{ℕ, String, Bool, Option, List}
use ledger_x.Prelude.Int.{ℤ}

-- accounts.kind, by its CHECK constraint
pub data Kind : Type 0 where
  normal external : Kind

pub record User : Type 0 where
  pub id : ℕ
  pub email : String
  pub password_hash : String
  pub created_at : ℕ

pub record Account : Type 0 where
  pub id : ℕ
  pub user_id : ℕ
  pub name : String
  pub currency : String
  pub is_active : Bool
  pub kind : Kind
  pub created_at : ℕ

pub record Transaction : Type 0 where
  pub id : ℕ
  pub user_id : ℕ
  pub currency : String
  pub category_id : Option ℕ
  pub occurred_at : ℕ
  pub note : Option String
  pub reversal_of : Option ℕ
  pub created_at : ℕ

pub record Posting : Type 0 where
  pub id : ℕ
  pub transaction_id : ℕ
  pub account_id : ℕ
  pub amount_minor : ℤ
  pub created_at : ℕ

-- idempotency_keys.status: the two values that the queries write
pub data Status : Type 0 where
  started succeeded : Status

pub record IdempotencyKey : Type 0 where
  pub user_id : ℕ
  pub key : String
  pub request_hash : String
  pub status : Status
  pub response_json : Option String
  pub created_at : ℕ

pub record Outbox : Type 0 where
  pub id : ℕ
  pub event_type : String
  pub payload : String
  pub created_at : ℕ
  pub processed_at : Option ℕ

-- as_of_date counts days
pub record BalanceSnapshot : Type 0 where
  pub id : ℕ
  pub account_id : ℕ
  pub as_of_date : ℕ
  pub balance_minor : ℤ
  pub created_at : ℕ

pub record Export : Type 0 where
  pub id : ℕ
  pub user_id : ℕ
  pub month : ℕ
  pub status : String
  pub file_path : Option String
  pub created_at : ℕ
  pub updated_at : ℕ

pub record Database : Type 0 where
  pub users : List User
  pub accounts : List Account
  pub transactions : List Transaction
  pub postings : List Posting
  pub idempotency_keys : List IdempotencyKey
  pub outbox : List Outbox
  pub balance_snapshots : List BalanceSnapshot
  pub exports : List Export
