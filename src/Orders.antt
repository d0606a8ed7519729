-- ===== src/Orders.antt =====
-- execution/order_state_machine.py and execution/order_manager.py.
pub mod Position
pub mod Manager
pub mod Reports
pub mod Invariant
pub mod Ticks
pub mod Due
pub mod Steps
pub mod Closing
pub mod Records
mod Tests
