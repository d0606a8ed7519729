-- ===== src/AggrSwitch.antt =====
-- strategy/aggr_logic.py.
pub mod Logic
pub mod Decisions
mod Tests
