-- ===== src/Transport.antt =====
-- internal/transport/http: what stands between a request and the services.
pub mod RateLimit
pub mod Handlers
pub mod Exports
pub mod Auth
pub mod Cors
pub mod Accounts
pub mod Listing
mod Tests
