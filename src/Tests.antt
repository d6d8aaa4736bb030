-- ===== src/Tests.antt =====
-- The theorems at concrete inputs: one witness for each result that has hypotheses.
pub mod Samples
mod Engine
mod Planner
mod Pipelines
mod Rows
mod Files
mod Cluster
