-- ===== src/Idempotency.antt =====
-- execution/idempotency.py.
pub mod Manager
pub mod File
pub mod Locks
pub mod Failures
mod Tests
