-- ===== src/Orchestration/Router.antt =====
-- core/src/core/orchestration/router.py.
pub mod Fillers
pub mod Names
pub mod Rules
pub mod Intents
mod Examples
