-- ===== src/Amm.antt =====
-- ingestion/dex/raydium/math.py.
pub mod Swap
pub mod Bounds
pub mod Inverse
mod Tests
