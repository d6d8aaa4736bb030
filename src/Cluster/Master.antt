-- ===== src/Cluster/Master.antt =====
-- crates/rspark-cluster/src/master.rs: submitting jobs, handing out tasks and taking results.
-- New ids and the clock are arguments; the stage callback of the host is not modelled.
pub mod Queue
pub mod Jobs
pub mod Submit
pub mod Counts
pub mod Drain
pub mod Reach
pub mod Verdict
use Prim.Native.Nat.{max}
use rust_spark.Common.{
  ℕ, zero, suc, ◌+◌, Bool, true, false, not, ◌&&◌, Option, none, some, String, List, [], ◌∷◌, ◌++◌,
  all, any, is_empty, str_eq, Error, Result, ok, err, panic, ◌>>=◌, if◌then◌else◌,
}
use rust_spark.Core.Platform.{Platform}
use rust_spark.Sql.Plan.{LogicalPlan}
use rust_spark.Cluster.Task.{Task, TaskStatus, new_task, is_succeeded, is_failed}
use rust_spark.Cluster.Stage.{Stage, StageStatus, new_stage, is_complete}
use rust_spark.Cluster.Job.{Job, JobStatus, JobRequest, new_job}
use rust_spark.Cluster.Partitioner.{PartitionSpec, plan_partitions}
use rust_spark.Cluster.State.{
  ClusterState, insert_job, insert_stage, insert_task, update_task, pop_pending_task, tasks_for_job,
  job, stage, task,
}

-- The ids that `Uuid::new_v4` draws while a job is submitted: of the job, of its stage, and of the
-- tasks in order.
pub record FreshIds : Type 0 where
  pub of_job : String
  pub of_stage : String
  pub of_task : ℕ → String

unfoldable pub tasks_of : FreshIds → (sql : String) → (i : ℕ) → List PartitionSpec → List Task
unfolding new_task
tasks_of ids sql i [] = []
tasks_of ids sql i (spec ∷ specs) =
    new_task (ids.of_task i) ids.of_job ids.of_stage spec.label sql ∷ tasks_of ids sql (suc i) specs

unfoldable pub insert_tasks : List Task → ClusterState → ClusterState
insert_tasks [] s = s
insert_tasks (t ∷ ts) s = insert_tasks ts (insert_task t s)

abbrev or_job : Option Job → Job → Job
or_job none j = j
or_job (some j) _ = j

-- The part of `submit_job` behind planning and partitioning. The stage that is read back is the
-- one just inserted, and the job that is returned is read back from the table.
unfoldable pub enter_job :
    FreshIds → (now : ℕ) → JobRequest → List PartitionSpec → ClusterState → ClusterState × Job
unfolding new_job new_stage
enter_job ids now request partitions s =
    let created = record (new_job ids.of_job request.name request.sql now) {
      parallelism = max request.parallelism 1;
    } in
    let main = record (new_stage ids.of_stage ids.of_job 0 "main") {
      tasks = tasks_of ids request.sql 0 partitions;
    } in
    let s1 = insert_tasks main.tasks (insert_stage main s) in
    let placed = record created { stages = ids.of_stage ∷ [] } in
    let started = record placed { status = JobStatus.running; started_at = some now } in
    let s2 = insert_job started (insert_job placed s1) in (s2, or_job (job ids.of_job s2) placed)

-- `plan` is the answer of `Planner::plan_sql` for the request's text. This is one step here; the source
-- takes a lock for each call on the state, and queues the tasks before the job is in the table.
unfoldable pub submit_job :
    {p : Platform}
    → FreshIds
    → (now : ℕ) → JobRequest
    → Result (LogicalPlan p)
    → ClusterState
    → ClusterState × Result Job
submit_job ids now request (ok plan) s = elim (plan_partitions plan request.parallelism) [
  | ok partitions ↦ let (s', j) = enter_job ids now request partitions s in (s', ok j)
  | err e ↦ (s, err e)
  | panic ↦ (s, panic)
]
submit_job ids now request (err e) s = (s, err e)
submit_job ids now request panic s = (s, panic)

unfoldable pub submit_job_skip_plan :
    (id : String) (now : ℕ) → JobRequest → ClusterState → ClusterState × Job
unfolding new_job
submit_job_skip_plan id now request s =
    let j = record (new_job id request.name request.sql now) {
      parallelism = max request.parallelism 1;
      status = JobStatus.running;
      started_at = some now;
    } in
    (insert_job j s, j)

-- `stage.tasks.iter_mut().find(|t| t.id == id)` and the writes to that slot.
unfoldable pub update_slot : String → (Task → Task) → List Task → List Task
update_slot id f [] = []
update_slot id f (t ∷ ts) =
    let rest = update_slot id f ts in if str_eq t.id id then f t ∷ ts else t ∷ rest

unfoldable pub assign_in_stage : Task → Option Stage → ClusterState → ClusterState
unfolding update_slot
assign_in_stage t none s = s
assign_in_stage t (some st) s =
    insert_stage
      (record st {
        tasks =
            update_slot t.id
              (λ slot. record slot { assigned_worker = t.assigned_worker; status = t.status })
              st.tasks;
      })
      s

abbrev pub assigned_to : String → Task → Task
assigned_to worker t = record t { assigned_worker = some worker; status = TaskStatus.assigned }

unfoldable pub assign : String → Option Task → ClusterState → ClusterState × Option Task
unfolding assign_in_stage
assign worker none s = (s, none)
assign worker (some t) s =
    let t' = assigned_to worker t in
    let s1 = update_task t' s in (assign_in_stage t' (stage t'.stage_id s1) s1, some t')

-- It never fails, so its `Result` is left out.
unfoldable pub try_assign_task : (worker : String) → ClusterState → ClusterState × Option Task
unfolding assign
try_assign_task worker s = let (s1, t) = pop_pending_task s in assign worker t s1

abbrev or_empty : Option String → String
or_empty none = ""
or_empty (some e) = e

unfoldable pub finished_task :
    (rows : ℕ) (success : Bool) (error : Option String) (now : ℕ) → Task → Task
finished_task rows success error now t = record t {
  completed_at = some now;
  result_rows = some rows;
  status = if success then TaskStatus.succeeded else TaskStatus.failed (or_empty error);
  error = if success then t.error else error;
}

unfoldable pub stage_verdict : Stage → StageStatus
stage_verdict st =
    if is_complete st
    then StageStatus.succeeded
    else if any (λ t. is_failed t.status) st.tasks
    then StageStatus.failed "one or more tasks failed"
    else StageStatus.running

unfoldable pub finish_in_stage : Task → Option Stage → ClusterState → ClusterState
unfolding update_slot stage_verdict
finish_in_stage t none s = s
finish_in_stage t (some st) s =
    let st' = record st {
      tasks =
          update_slot t.id
            (λ slot. record slot {
              status = t.status;
              completed_at = t.completed_at;
              result_rows = t.result_rows;
              error = t.error;
            })
            st.tasks;
    } in
    insert_stage (record st' { status = stage_verdict st' }) s

rows_or_zero : Option ℕ → ℕ
rows_or_zero none = 0
rows_or_zero (some n) = n

-- `job_tasks.iter().filter_map(|t| t.result_rows).sum()`
unfoldable pub total_rows : List Task → ℕ
unfolding rows_or_zero
total_rows [] = 0
total_rows (t ∷ ts) = rows_or_zero t.result_rows + total_rows ts

unfoldable pub first_failure : List Task → String
first_failure [] = "task failed"
first_failure (t ∷ ts) =
    let rest = first_failure ts in elim t.status [ TaskStatus.failed msg ↦ msg | _ ↦ rest ]

unfoldable pub judge_job : (now : ℕ) → List Task → Job → Job
judge_job now ts j =
    if not (is_empty ts) && all (λ t. is_succeeded t.status) ts
    then record j {
      status = JobStatus.succeeded;
      completed_at = some now;
      result_rows = some (total_rows ts);
    }
    else if any (λ t. is_failed t.status) ts
    then record j { status = JobStatus.failed (first_failure ts); completed_at = some now }
    else j

-- `self.state.job(&job_id).unwrap()` and the update of that job.
unfoldable pub judge :
    (now : ℕ) → List Task → Option Job → ClusterState → ClusterState × Result (Unit {0})
unfolding judge_job
judge now ts none s = (s, panic)
judge now ts (some j) s = (insert_job (judge_job now ts j) s, ok tt)

unfoldable pub complete :
    (rows : ℕ) (success : Bool) (error : Option String) (now : ℕ)
    → Option Task
    → ClusterState
    → ClusterState × Result (Unit {0})
unfolding finish_in_stage finished_task judge
complete rows success error now none s = (s, err Error.not_found)
complete rows success error now (some t) s =
    let t' = finished_task rows success error now t in
    let s1 = update_task t' s in
    let s2 = finish_in_stage t' (stage t'.stage_id s1) s1 in
    judge now (tasks_for_job t'.job_id s2) (job t'.job_id s2) s2

unfoldable pub complete_task :
    (task_id : String) (rows : ℕ) (success : Bool) (error : Option String) (now : ℕ)
    → ClusterState
    → ClusterState × Result (Unit {0})
unfolding complete
complete_task task_id rows success error now s = complete rows success error now (task task_id s) s
