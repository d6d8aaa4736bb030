-- ===== src/Cluster.antt =====
-- The crate rspark-cluster: tasks, stages, jobs, the shared state and the master.
pub mod Task
pub mod Stage
pub mod Job
pub mod Partitioner
pub mod State
pub mod Master
pub mod Worker
