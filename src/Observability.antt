-- ===== src/Observability.antt =====
-- core/src/core/observability: the token ledger.
pub mod Ledger
