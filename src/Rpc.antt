-- ===== src/Rpc.antt =====
-- ingestion/rpc/cache.py.
pub mod Cache
pub mod Expiry
pub mod Cleanup
mod Tests
