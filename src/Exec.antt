-- ===== src/Exec.antt =====
-- The crate rspark-exec: the operators and the executor that applies them along a plan.
pub mod Predicate
pub mod Project
pub mod Aggregate
pub mod Sort
pub mod Join
pub mod Distinct
pub mod Executor
pub mod Seeded
pub mod Physical
pub mod Partitioned
