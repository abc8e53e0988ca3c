-- ===== src/Worker.antt =====
-- internal/worker: the background workers.
pub mod Outbox
pub mod Exports
pub mod Snapshots
mod Tests
