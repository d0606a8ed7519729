-- ===== src/Trades.antt =====
-- execution/transaction_builder.py, and process_exit_signal of execution/sim_fill.py.
pub mod Amounts
pub mod Exits
pub mod Balance
mod Tests
