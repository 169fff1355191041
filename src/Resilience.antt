-- ===== src/Resilience.antt =====
-- core/src/core/resilience: failing fast, retrying and pooling for calls to the agents.
pub mod Breaker
pub mod Registry
pub mod Retry
pub mod Bucket
pub mod Pool
