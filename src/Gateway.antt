-- ===== src/Gateway.antt =====
-- core/src/core/gateway.py: what the HTTP gateway does around the orchestrator.
pub mod RateLimiter
pub mod Events
pub mod Payload
pub mod Stream
pub mod Run
pub mod Jobs
mod Examples
