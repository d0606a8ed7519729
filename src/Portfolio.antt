-- ===== src/Portfolio.antt =====
-- strategy/state.py, strategy/state_update.py and integration/portfolio_manager.py.
pub mod State
pub mod Update
pub mod Manager
pub mod Cooldown
pub mod Assets
pub mod Exposure
mod Tests
