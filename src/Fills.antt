-- ===== src/Fills.antt =====
-- execution/partial_fill_handler.py.
pub mod Handler
pub mod Lookups
pub mod Closes
pub mod Timeouts
pub mod Expired
mod Tests
