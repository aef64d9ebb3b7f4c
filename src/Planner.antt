-- ===== src/Planner.antt =====
-- internal/planner: the query planner.
pub mod Scope
pub mod Grouping
pub mod FieldSets
pub mod Context
pub mod Groups
pub mod Splitting
pub mod Build
