-- ===== src/Knowledge.antt =====
-- apps/knowledge-service: the index of the runbooks, and what is retrieved from it.
pub mod Reconciliation
pub mod Index
pub mod Indexer
pub mod Manifest
pub mod Idle
pub mod Settled
pub mod Fusion
pub mod Positions
pub mod Fused
pub mod Grading
pub mod Judged
pub mod Ranked
pub mod Retrieval
pub mod Retrieved
pub mod Tests
