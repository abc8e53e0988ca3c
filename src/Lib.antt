-- ===== src/Lib.antt =====
-- LedgerX, a double-entry accounting service in Go over PostgreSQL and Redis.
--
-- A request enters through the HTTP handlers (internal/transport/http), which call the services
-- (internal/service). A service that writes opens one PostgreSQL transaction, claims the
-- request's idempotency key, writes a header, its postings and an outbox event, stores the
-- response under the key, commits, and then drops cached summaries from Redis. Workers
-- (internal/worker) publish the outbox to Redis, take daily snapshots of the balances, and write
-- the exports of a month to a store (internal/storage), from which a handler serves them.
--
-- Files:
--   Prelude: shared names, Boolean tests, lists, integers over the native numbers, and the
--     operations of a SELECT on a list of rows.
--   Int64: Go's int64, by two's complement.
--   Repo: internal/repo/sqlc. Models holds a record for each table; World what a handler works on;
--     Tx BEGIN, COMMIT with the deferred trigger of migrations/000012_double_entry.up.sql, and
--     the deferred Rollback; Accounts, Users, Transactions, Idempotency, Outbox, Snapshots and
--     Exports the queries, a function for each; Entries the list of an account's entries by
--     pages. Outcome, Keeps, Inside, Rows, Commit, Atomic and Success prove what holds of
--     statements and of whole transactions.
--   Service.Transactions: internal/service/transactions.go. Legs is validateLegs and the checks of
--     createBalanced; Claim claimIdempotency and the steps that Create and Reverse share; Create is
--     createBalanced, Create and Transfer; Reverse is Reverse. The other modules are proofs.
--   Service.Summary, Service.Balance: internal/service/summary.go and balance.go, with
--     handleSnapshotAccount of internal/worker/snapshot_worker.go.
--   Service.Requests: a server's life as a sequence of requests, and the journal of legs that its
--     clients see.
--   Service.Auth: internal/service/auth.go.
--   Storage: internal/storage, the interface with its laws, the local directory and S3.
--   Config: the environment of cmd/ledgerx/main.go, with the signing key.
--   Worker.Outbox: ProcessBatch of internal/worker/outbox.go.
--   Worker.Exports: internal/worker/csv-export.go, with the payload of jobs.go.
--   Worker.Snapshots: internal/worker/snapshot_worker.go, with its tasks of jobs.go.
--   Transport: internal/transport/http. RateLimit is ratelimit.go with its Lua script; Handlers
--     the writing handlers of transactions.go, writeServiceError, ownership.go and balance.go;
--     Listing ListAccountEntries, with parseInt of users.go; Exports exports.go; Auth auth.go,
--     middleware.go and Me of users.go; Accounts accounts.go, summary.go and admin.go;
--     Cors cors.go.
--   Samples and Tests: a small world, runs of the code on it, and the theorems applied to it.
--
-- State: an action maps a World to a result and a World. A World is the tables as lists of rows,
-- the tables to which ROLLBACK returns, the transactions for which the deferred trigger waits,
-- the sequences, the Redis cache and messages, the tasks that asynq has accepted, the files or
-- objects of the store, and the faults to come. Each round trip to PostgreSQL, Redis or the store
-- takes one fault: it is done, or not done, or done with the reply lost; the last two are errors
-- to the code. So a theorem about every World is about every pattern of faults.
--
-- Numbers: row ids and instants are natural numbers (instants in nanoseconds from Go's zero
-- time), amounts are integers, and arithmetic that Go does on int64 wraps. SUM is exact and its
-- cast to BIGINT fails out of range. Every loop of the code is structural recursion; a client
-- that follows cursors has fuel, and one page more than there are entries is enough; the loop of
-- the outbox worker is a number of ticks, and a fiftieth of the waiting events, rounded up, is
-- enough. The rate limiter's script computes on natural numbers, which its doubles hold exactly
-- to 2^53.
--
-- Parameters: an Env holds what lies outside the repository: the driver's encoding of instants,
-- the zones and the calendar, SHA-256 over JSON, JSON itself, fmt and the clock; Formats the
-- formats of an export and encoding/csv; SnapshotFormats the payloads and keys of the snapshot
-- tasks; AuthEnv bcrypt and JWT; Paths package filepath; CorsStrings what CORS uses of package
-- strings. What a theorem needs of them is a hypothesis of it.
--
-- Not modelled: requests that run at the same time (a transaction here sees no other's writes),
-- the text form of a cursor, wiring, metrics, and the web client. When asynq delivers a task
-- again is left open: a task may run at any time. The texts of HTTP errors are left out, and so
-- are the TTL of a cached summary, the account and the time that CurrentBalance repeats, and the
-- part of a file that a failed io.Copy can leave.
pub mod Prelude
pub mod Int64
pub mod Repo
pub mod Service
pub mod Worker
pub mod Transport
pub mod Storage
pub mod Config
