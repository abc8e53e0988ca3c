-- ===== src/Repo/World.antt =====
-- What a handler works on: the database as its connection sees it, the sequences, the Redis cache,
-- and the faults that the network is going to show. A statement that fails returns an error beside
-- the state that it left.

use ledger_x.Prelude.{
  String, if◌then◌else◌, ℕ, Bool, true, false, Option, none, some, List, [], ◌∷◌,
}
use ledger_x.Prelude.Int.{ℤ}
use ledger_x.Repo.Models.{Database}

-- The sentinel errors of internal/service/transactions.go, those of the driver, and a few texts.
pub data Error : Type 0 where
  account_not_found forbidden account_inactive currency_mismatch : Error
  unbalanced zero_amount idempotency_conflict idempotency_in_flight : Error
  tx_not_found already_reversed is_reversal : Error
  no_rows unique_violation foreign_key_violation check_violation : Error
  trigger_raised out_of_range unavailable bad_json bad_input missing_file : Error

pub data Result (A : Type 0) : Type 0 where
  ok : A → Result A
  err : Error → Result A

-- How a round trip to a server ends: as asked, not done, or done with the reply lost.
pub data Fault : Type 0 where
  fine failed unacknowledged : Fault

-- The BIGSERIAL sequences: each number is the next id. A rollback does not set them back.
pub record Sequences : Type 0 where
  pub users : ℕ
  pub accounts : ℕ
  pub transactions : ℕ
  pub postings : ℕ
  pub outbox : ℕ
  pub balance_snapshots : ℕ
  pub exports : ℕ

-- internal/service/summary.go, MonthlySummary
pub record MonthlySummary : Type 0 where
  pub inflow : ℤ
  pub outflow : ℤ
  pub net : ℤ

-- A Redis entry under "summary:<account>:<month>".
pub record CacheEntry : Type 0 where
  pub account_id : ℕ
  pub month : ℕ
  pub summary : MonthlySummary

-- What Redis has received on a channel.
pub record Message : Type 0 where
  pub channel : String
  pub payload : String

-- A task that asynq holds; `task_id` is what the caller chose, if it did.
pub record Task : Type 0 where
  pub task_id : Option String
  pub type_name : String
  pub payload : String

-- A file, or an object in a bucket.
pub record File : Type 0 where
  pub path : String
  pub body : String

pub record World : Type 0 where
  pub db : Database
  -- the tables to which ROLLBACK returns, while a transaction is open
  pub saved : Option Database
  -- the transactions for which the deferred trigger of postings waits
  pub deferred : List ℕ
  pub seqs : Sequences
  pub cache : List CacheEntry
  pub messages : List Message
  pub tasks : List Task
  pub files : List File
  pub faults : List Fault
  -- now() of the open transaction or statement
  pub now : ℕ

abbrev pub Action : Type 0 → Type 0
Action A = World → Result A × World

module _ {A : Type 0} where
  abbrev pub pure : A → Action A
  pure a w = (ok a, w)

  abbrev pub raise : Error → Action A
  raise e w = (err e, w)

  -- `:one` queries scan no row as pgx.ErrNoRows.
  abbrev pub one_row : Option A → Action A
  one_row none = raise no_rows
  one_row (some a) = pure a

module _ {A B : Type 0} where
  abbrev pub continue : Result A → (A → Action B) → Action B
  continue (ok a) f w = f a w
  continue (err e) f w = (err e, w)

  infixl 5 ◌>>=◌ ◌>>◌
  unfoldable pub ◌>>=◌ : Action A → (A → Action B) → Action B
  ◌>>=◌ m f w = let (r, w') = m w in continue r f w'

  abbrev pub ◌>>◌ : Action A → Action B → Action B
  m >> k = m >>= λ _. k

abbrev pub raise_if : Bool → Error → Action Unit
raise_if true e = raise e
raise_if false e = pure tt

abbrev pub next_fault : List Fault → Fault
next_fault [] = fine
next_fault (f ∷ fs) = f

abbrev pub later_faults : List Fault → List Fault
later_faults [] = []
later_faults (f ∷ fs) = fs

abbrev lose_reply : {A : Type 0} → Result A × World → Result A × World
lose_reply (r, w) = (err unavailable, w)

-- One round trip. With the reply lost, what the statement did stays done.
unfoldable pub answer : {A : Type 0} → Fault → Action A → Action A
answer fine m w = m w
answer failed m w = (err unavailable, w)
answer unacknowledged m w = lose_reply (m w)

unfoldable pub call : {A : Type 0} → Action A → Action A
call m w = answer (next_fault w.faults) m (record w { faults = later_faults w.faults })

-- errors.Is(err, pgx.ErrNoRows)
abbrev pub is_no_rows : Error → Bool
is_no_rows no_rows = true
is_no_rows _ = false

-- A call whose error the code looks at.
unfoldable pub attempt : {A : Type 0} → Action A → Action (Result A)
attempt m w = let (r, w') = m w in (ok r, w')

unfoldable pub found : {A : Type 0} → Error → Result A → Action A
found missing (ok a) = pure a
found missing (err e) = raise (if is_no_rows e then missing else e)
