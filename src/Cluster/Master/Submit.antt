-- ===== src/Cluster/Master/Submit.antt =====
-- A submitted job is in the table together with its tasks.
use rust_spark.Common.{
  ℕ, suc, ◌≡◌, refl, true, ◌||◌, some, String, List, [], ◌∷◌, Result, ok, err, panic, str_eq,
  eq_iff, arith,
}
use rust_spark.Core.Platform.{Platform}
use rust_spark.Sql.Plan.{LogicalPlan}
use rust_spark.Cluster.Task.{Task, new_task}
use rust_spark.Cluster.Stage.{Stage}
use rust_spark.Cluster.Job.{Job, JobRequest, new_job}
use rust_spark.Cluster.Partitioner.{PartitionSpec, plan_partitions}
use rust_spark.Cluster.State.{ClusterState, task, insert_task, insert_stage, insert_job}
use rust_spark.Cluster.State.Queue.{task-insert_task}
use rust_spark.Cluster.Master.{FreshIds, tasks_of, insert_tasks, enter_job, submit_job}
use rust_spark.Cluster.Master.Jobs.{has_job, HasJobs, has_job-insert_job, insert_job-HasJobs}

-- The job of every task is in the table, but for the tasks of the job `new`, which comes later.
record HasJobsBut (new : String) (s : ClusterState) : Type 0 where
  known :
      (id : String) (t : Task)
      → task id s ≡ some t
      → (has_job t.job_id s || str_eq t.job_id new) ≡ true

has_job-insert_task :
    (t : Task) (s : ClusterState) (id : String) → has_job id (insert_task t s) ≡ has_job id s
unfolding insert_task
has_job-insert_task t s id = refl

insert_task-HasJobsBut :
    (new : String) (t : Task) (s : ClusterState)
    → t.job_id ≡ new
    → HasJobsBut new s
    → HasJobsBut new (insert_task t s)
insert_task-HasJobsBut new t s own inv = record {
  known = λ id u e.
      rw (has_job-insert_task t s u.job_id)
        (ground (arith, task-insert_task t s id, inv.known id u, eq_iff u.job_id new));
}

insert_tasks-HasJobsBut :
    (ids : FreshIds) (sql : String) (i : ℕ) (specs : List PartitionSpec) (s : ClusterState)
    → HasJobsBut ids.of_job s
    → HasJobsBut ids.of_job (insert_tasks (tasks_of ids sql i specs) s)
unfolding insert_tasks tasks_of new_task
insert_tasks-HasJobsBut ids sql i [] s inv = inv
insert_tasks-HasJobsBut ids sql i (spec ∷ specs) s inv =
    insert_tasks-HasJobsBut ids sql (suc i) specs _ (insert_task-HasJobsBut ids.of_job _ s refl inv)

insert_job-owns :
    (new : String) (j : Job) (s : ClusterState)
    → j.id ≡ new
    → HasJobsBut new s
    → HasJobs (insert_job j s)
insert_job-owns new j s own inv = record {
  known = λ id t e.
      let old : task id s ≡ some t = (unfold insert_job in e) in
      ground (arith, has_job-insert_job j s t.job_id, inv.known id t old);
}

from_HasJobs :
    (new : String) (st : Stage) (s : ClusterState) → HasJobs s → HasJobsBut new (insert_stage st s)
unfolding insert_stage
from_HasJobs new st s inv = record { known = λ id t e. ground (arith, inv.known id t e) }

enter_job-HasJobs :
    (ids : FreshIds) (now : ℕ) (request : JobRequest) (specs : List PartitionSpec)
    (s : ClusterState)
    → HasJobs s
    → HasJobs (enter_job ids now request specs s).0
unfolding enter_job new_job
enter_job-HasJobs ids now request specs s inv = insert_job-HasJobs _ _ (
    insert_job-owns ids.of_job _ _ refl
      (insert_tasks-HasJobsBut ids request.sql 0 specs _ (from_HasJobs ids.of_job _ s inv)))

-- Submitting a job leaves every task of the table with its job in the table.
pub submit_job-HasJobs :
    {p : Platform} (ids : FreshIds) (now : ℕ) (request : JobRequest) (plan : Result (LogicalPlan p))
    (s : ClusterState)
    → HasJobs s
    → HasJobs (submit_job ids now request plan s).0
unfolding submit_job plan_partitions
submit_job-HasJobs ids now request (ok plan) s inv = enter_job-HasJobs ids now request _ s inv
submit_job-HasJobs ids now request (err e) s inv = inv
submit_job-HasJobs ids now request panic s inv = inv
