-- ===== src/Querying.antt =====
-- core/src/core/querying: what guards the read-only queries, and the service that runs them.
pub mod Safety
pub mod Ranking
pub mod Lucene
pub mod Hits
pub mod Service
