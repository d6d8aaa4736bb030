-- ===== src/Cluster/Worker.antt =====
-- crates/rspark-cluster/src/worker.rs: a worker and the tasks it runs. `plan_sql` stands for
-- `Planner::plan_sql` with the catalog.
use rust_spark.Common.{ℕ, String, Result, ◌>>=◌}
use rust_spark.Core.Platform.{Platform}
use rust_spark.Core.Record.{RecordBatch}
use rust_spark.Sql.Plan.{LogicalPlan}
use rust_spark.Exec.Executor.{ExecutionContext, execute}
use rust_spark.Cluster.Task.{Task}
use rust_spark.Cluster.State.{
  ClusterState, WorkerInfo, new_worker, register_worker, update_worker_heartbeat,
}

pub record Worker (p : Platform) : Type 0 where
  pub info : WorkerInfo
  pub context : ExecutionContext p

module _ {p : Platform} where
  -- `Worker::new`, with the id and the time that it draws.
  unfoldable pub start_worker :
      (id address : String) (cores memory_mb now : ℕ) → ExecutionContext p → Worker p
  start_worker id address cores memory_mb now ctx = record {
    info = new_worker id address cores memory_mb now;
    context = ctx;
  }

  -- `Worker::register`
  unfoldable pub join_cluster : (now : ℕ) → Worker p → ClusterState → Worker p × ClusterState
  join_cluster now w s =
      let beat : WorkerInfo = record w.info { last_heartbeat = now } in
      (record w { info = beat }, register_worker beat s)

  unfoldable pub heartbeat : (now : ℕ) → Worker p → ClusterState → ClusterState
  heartbeat now w s = update_worker_heartbeat w.info.id now s

  unfoldable pub execute_task :
      (plan_sql : String → Result (LogicalPlan p)) → Worker p → Task → Result (RecordBatch p)
  execute_task plan_sql w t = do plan ← plan_sql t.sql; execute w.context plan
