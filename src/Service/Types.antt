-- ===== src/Service/Types.antt =====
-- The inputs and results of internal/service/transactions.go, and what the service calls outside
-- the repository.
use ledger_x.Prelude.{ℕ, String, Bool, Option, List}
use ledger_x.Prelude.Int.{ℤ}

-- time.Time: the instant in nanoseconds, and what the clock of its zone shows, read as if in UTC.
pub record GoTime : Type 0 where
  pub instant : ℕ
  pub wall : ℕ

-- t.UTC()
abbrev pub utc : GoTime → GoTime
utc t = record { instant = t.instant; wall = t.instant }

pub record Leg : Type 0 where
  pub account_id : ℕ
  pub amount_minor : ℤ

pub record PostingDto : Type 0 where
  pub id : ℕ
  pub account_id : ℕ
  pub amount_minor : ℤ

-- reversal_of is 0 where the transaction reverses nothing.
pub record TransactionDto : Type 0 where
  pub id : ℕ
  pub user_id : ℕ
  pub currency : String
  pub occurred_at : GoTime
  pub note : String
  pub reversal_of : ℕ
  pub postings : List PostingDto
  pub created_at : GoTime

pub record CreateInput : Type 0 where
  pub user_id : ℕ
  pub account_id : ℕ
  pub amount_minor : ℤ
  pub currency : String
  pub occurred_at : GoTime
  pub note : String
  pub idempotency_key : String

pub record TransferInput : Type 0 where
  pub user_id : ℕ
  pub from_account_id : ℕ
  pub to_account_id : ℕ
  pub amount_minor : ℤ
  pub currency : String
  pub occurred_at : GoTime
  pub note : String
  pub idempotency_key : String

pub record BalancedInput : Type 0 where
  pub user_id : ℕ
  pub legs : List Leg
  pub use_external_leg : Bool
  pub currency : String
  pub occurred_at : GoTime
  pub note : String
  pub idempotency_key : String

pub record ReverseInput : Type 0 where
  pub user_id : ℕ
  pub transaction_id : ℕ
  pub idempotency_key : String

-- What requestHash and reverseHash digest.
pub record RequestPayload : Type 0 where
  pub user_id : ℕ
  pub legs : List Leg
  pub external : Bool
  pub currency : String
  pub occurred_at : GoTime
  pub note : String

pub record ReversePayload : Type 0 where
  pub user_id : ℕ
  pub op : String
  pub transaction_id : ℕ

-- The map of an outbox event.
pub record EventPayload : Type 0 where
  pub transaction_id : ℕ
  pub reversal_of : Option ℕ
  pub user_id : ℕ
  pub currency : String
  pub occurred_at : GoTime
  pub postings : List PostingDto

-- What lies outside the repository: the driver's encoding of an instant, the server's zone, the
-- calendar, hex(sha256(json)), JSON, fmt and the clock.
pub record Env : Type 0 where
  pub store_time : ℕ → ℕ
  pub local_wall : ℕ → ℕ
  pub civil_month : ℕ → ℕ
  pub sql_month : ℕ → ℕ
  pub request_digest : RequestPayload → String
  pub reverse_digest : ReversePayload → String
  pub marshal_dto : TransactionDto → Option String
  pub unmarshal_dto : String → Option TransactionDto
  pub marshal_event : EventPayload → Option String
  pub reversal_note : ℕ → String
  pub go_now : ℕ

-- An instant read back from the database, in the server's zone.
abbrev pub from_db : Env → ℕ → GoTime
from_db env t = record { instant = t; wall = env.local_wall t }
