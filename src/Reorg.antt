-- ===== src/Reorg.antt =====
-- execution/reorg_guard.py.
pub mod Status
pub mod Guard
pub mod Polls
mod Tests
