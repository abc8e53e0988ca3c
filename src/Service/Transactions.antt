-- ===== src/Service/Transactions.antt =====
-- internal/service/transactions.go: legs, idempotency, and the three operations.
pub mod Legs
pub mod Validated
pub mod Claim
pub mod Permitted
pub mod Written
pub mod Recorded
pub mod Claimed
pub mod Frame
pub mod AllOrNothing
pub mod ReversalRecorded
pub mod Reversed
pub mod Keys
pub mod Retry
pub mod Attempts
pub mod Ownership
pub mod Once
pub mod Reversals
pub mod Clock
pub mod Accepted
pub mod Succeeded
pub mod Effects
pub mod NegatedSum
pub mod ReversalSucceeds
pub mod ReverseSucceeds
pub mod Create
pub mod Reverse
mod Tests
