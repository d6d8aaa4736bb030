-- ===== src/Sql.antt =====
-- The crate rspark-sql: logical plans and the catalog.
pub mod Plan
pub mod ShowCreate
pub mod Session
pub mod Ast
pub mod Build
pub mod Planner
pub mod Parser
