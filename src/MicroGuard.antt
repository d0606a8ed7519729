-- ===== src/MicroGuard.antt =====
-- execution/safety/micro_guard.py.
pub mod Guard
pub mod Limits
mod Tests
