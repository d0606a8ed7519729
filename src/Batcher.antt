-- ===== src/Batcher.antt =====
-- The batching of RPC requests, ingestion/rpc/batcher.py.
pub mod Queue
pub mod Steps
pub mod Answers
pub mod Unanswered
mod Tests
