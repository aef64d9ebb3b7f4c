-- ===== src/Engine.antt =====
-- internal/engine: what `ExecuteQueryPlan` does at one fetch of a plan.
pub mod Representation
pub mod Execute
pub mod Fetch
pub mod Flatten
