-- ===== src/Orchestration/Evidence.antt =====
-- core/src/core/orchestration/evidence.py.
pub mod Findings
pub mod Stopwords
pub mod Terms
pub mod Assess
pub mod Refine
pub mod Merge
mod Examples
