-- ===== src/Indexing.antt =====
-- core/src/core/indexing.
pub mod Dotted
pub mod Imports
pub mod Names
pub mod Graph
pub mod Run
mod Examples
