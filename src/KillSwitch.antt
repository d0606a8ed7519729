-- ===== src/KillSwitch.antt =====
-- ops/panic.py and ops/kill_switch.py.
pub mod Panic
pub mod Shutdown
pub mod Gate
pub mod NoClose
mod Tests
