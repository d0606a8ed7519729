-- ===== src/Risk.antt =====
-- The risk checks before a trade, strategy/risk_engine.py and integration/portfolio_stub.py.
pub mod Limits
pub mod Checks
pub mod Aggressive
mod Tests
