-- ===== src/Orchestration.antt =====
-- core/src/core/orchestration: budgets, evidence and the refinement loop of one request.
pub mod Models
pub mod Router
pub mod Loop
pub mod Evidence
pub mod Executor
pub mod Budget
pub mod PromptBudget
