-- ===== src/Failover.antt =====
-- The choice of the endpoint: ingestion/rpc/monitor.py (Health, Scores, Rounds) and
-- ingestion/rpc/failover.py (Manager, Choice, Active).
pub mod Health
pub mod Scores
pub mod Rounds
pub mod Manager
pub mod Ranking
pub mod Choice
pub mod Active
mod Tests
