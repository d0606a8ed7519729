-- ===== src/Promotion.antt =====
-- The daily pruning and promotion of wallets, strategy/promotion.py.
pub mod Daily
pub mod Settings
pub mod Reasons
pub mod Best
mod Tests
