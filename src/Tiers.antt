-- ===== src/Tiers.antt =====
-- strategy/tiers/autoscaler.py.
pub mod Data
pub mod Scaling
pub mod Moves
pub mod Partition
pub mod Whitelist
mod Tests
