-- ===== src/Retry.antt =====
-- execution/partial_retry.py and execution/models.py.
pub mod Manager
pub mod Attempts
pub mod Budget
mod Tests
