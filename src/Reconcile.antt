-- ===== src/Reconcile.antt =====
-- The comparison of the local balance with the chain's, monitoring/state_reconciler.py.
pub mod Balance
pub mod Ledger
mod Tests
