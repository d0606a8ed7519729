-- ===== src/Exits.antt =====
-- strategy/exits.py, in its parts.
pub mod Config
pub mod Evaluate
pub mod Simulate
pub mod Decisions
pub mod Kept
pub mod Shares
pub mod Quantities
mod Tests
