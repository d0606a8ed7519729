-- ===== src/Positions.antt =====
-- execution/position_state.py and execution/trailing_adjuster.py.
pub mod State
pub mod Times
pub mod Trailing
pub mod Volume
mod Tests
