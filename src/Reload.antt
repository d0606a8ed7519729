-- ===== src/Reload.antt =====
-- config/runtime_schema.py and config/hot_reload.py.
pub mod Schema
pub mod Watcher
pub mod Ranges
pub mod Runs
mod Tests
