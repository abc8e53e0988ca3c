-- ===== src/Service.antt =====
-- internal/service: the business logic over the queries.
pub mod Samples
pub mod Types
pub mod Tests
pub mod Summary
pub mod Transactions
pub mod Balance
pub mod Requests
pub mod Auth
