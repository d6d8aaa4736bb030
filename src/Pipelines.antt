-- ===== src/Pipelines.antt =====
-- The crate rspark-pipelines: the specification of a pipeline, the order of its flows, and its runs.
pub mod Spec
pub mod Dag
pub mod Source
pub mod Runner
