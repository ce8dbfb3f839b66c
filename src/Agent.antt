-- ===== src/Agent.antt =====
-- The crate that runs a model's turn, crates/loreloom-agent: budgets, cancellation, the turn loop.
pub mod Budget
pub mod Tools
pub mod Turn
pub mod Runner
pub mod Cancellation
pub mod Examples
