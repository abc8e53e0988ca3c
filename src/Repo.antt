-- ===== src/Repo.antt =====
-- internal/repo/sqlc: the tables and the queries that the services send to PostgreSQL. A query is
-- modelled from its SQL text, its constraints from migrations/.
pub mod Models
pub mod World
pub mod Tx
pub mod Outcome
pub mod Rows
pub mod Keeps
pub mod Inside
pub mod Commit
pub mod Atomic
pub mod Success
pub mod Accounts
pub mod Users
pub mod Transactions
pub mod Idempotency
pub mod Outbox
pub mod Snapshots
pub mod Entries
pub mod Exports
