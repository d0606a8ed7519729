-- ===== src/Gates.antt =====
-- The gates before a signal, integration/gates.py and the parts of strategy/honeypot_filter.py
-- that they call.
pub mod Data
pub mod Checks
pub mod Thresholds
pub mod Decisions
pub mod Honeypot
mod Tests
