-- ===== src/Orchestration/Executor.antt =====
-- core/src/core/orchestration/executor.py.
pub mod Tools
pub mod Candidates
pub mod Graph
pub mod Run
