-- ===== src/Queues.antt =====
-- execution/queues.py.
pub mod Limiter
pub mod Signals
pub mod Combined
pub mod Tokens
pub mod Rate
pub mod Order
pub mod Drain
mod Tests
