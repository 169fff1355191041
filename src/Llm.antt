-- ===== src/Llm.antt =====
-- core/src/core/llm: what the model calls cost.
pub mod Pricing
