-- ===== src/Analysis.antt =====
-- core/src/core/analysis: the source snippets that an analysis reads.
pub mod Snippets
