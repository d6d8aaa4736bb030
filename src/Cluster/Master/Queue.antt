-- ===== src/Cluster/Master/Queue.antt =====
-- The master keeps the queue in order: what is queued waits, and only once.
use rust_spark.Common.{
  ℕ, suc, ◌≤◌, ◌≡◌, refl, sym, ◌∙◌, Bool, true, false, Option, none, some, String, List, [], ◌∷◌,
  Result, ok, err, panic, str_eq, eq_iff, arith, Bool-cases, inl, inr,
}
use rust_spark.Core.Platform.{Platform}
use rust_spark.Sql.Plan.{LogicalPlan}
use rust_spark.Cluster.Task.{Task, is_done}
use rust_spark.Cluster.Stage.{Stage}
use rust_spark.Cluster.Job.{Job, JobRequest}
use rust_spark.Cluster.Partitioner.{PartitionSpec, plan_partitions}
use rust_spark.Cluster.State.{
  ClusterState, task, job, stage, update_task, insert_task, insert_stage, pop_pending_task,
  tasks_for_job,
}
use rust_spark.Cluster.State.Queue.{
  queued, IsQueued, update_task-IsQueued, insert_task-IsQueued, task-insert_task, pop-IsQueued,
  pop_fresh, insert_stage-IsQueued, insert_job-IsQueued,
}
use rust_spark.Cluster.Master.{
  FreshIds, tasks_of, insert_tasks, enter_job, submit_job, assign_in_stage, assign, assigned_to,
  try_assign_task, finished_task, finish_in_stage, judge, complete, complete_task,
}

assign_in_stage-IsQueued :
    (t : Task) (st : Option Stage) (s : ClusterState)
    → IsQueued s
    → IsQueued (assign_in_stage t st s)
unfolding assign_in_stage
assign_in_stage-IsQueued t none s inv = inv
assign_in_stage-IsQueued t (some st) s inv = insert_stage-IsQueued s inv _

assign-IsQueued :
    (worker : String) (o : Option Task) (s : ClusterState)
    → IsQueued s
    → ((t : Task) → o ≡ some t → queued t.id s.pending ≡ false)
    → IsQueued (assign worker o s).0
unfolding assign
assign-IsQueued worker none s inv free = inv
assign-IsQueued worker (some t) s inv free =
    let t' = assigned_to worker t in
    let s1 = update_task t' s in
    assign_in_stage-IsQueued t' (stage t'.stage_id s1) s1
      (update_task-IsQueued t' s inv (λ q. ground (arith, free t refl)))

-- Handing out a task keeps the queue in order.
pub try_assign_task-IsQueued :
    (worker : String) (s : ClusterState) → IsQueued s → IsQueued (try_assign_task worker s).0
unfolding try_assign_task
try_assign_task-IsQueued worker s inv =
    assign-IsQueued worker (pop_pending_task s).1 (pop_pending_task s).0 (pop-IsQueued s inv)
      (λ t e. (pop_fresh s inv t e).0)

finish_in_stage-IsQueued :
    (t : Task) (st : Option Stage) (s : ClusterState)
    → IsQueued s
    → IsQueued (finish_in_stage t st s)
unfolding finish_in_stage
finish_in_stage-IsQueued t none s inv = inv
finish_in_stage-IsQueued t (some st) s inv = insert_stage-IsQueued s inv _

judge-IsQueued :
    (now : ℕ) (ts : List Task) (j : Option Job) (s : ClusterState)
    → IsQueued s
    → IsQueued (judge now ts j s).0
unfolding judge
judge-IsQueued now ts none s inv = inv
judge-IsQueued now ts (some j) s inv = insert_job-IsQueued s inv _

finished_task-done :
    (rows : ℕ) (success : Bool) (error : Option String) (now : ℕ) (t : Task)
    → is_done (finished_task rows success error now t).status ≡ true
unfolding finished_task
finished_task-done rows true error now t = refl
finished_task-done rows false error now t = refl

complete-IsQueued :
    (rows : ℕ) (success : Bool) (error : Option String) (now : ℕ) (o : Option Task)
    (s : ClusterState)
    → IsQueued s
    → IsQueued (complete rows success error now o s).0
unfolding complete
complete-IsQueued rows success error now none s inv = inv
complete-IsQueued rows success error now (some t) s inv =
    let t' = finished_task rows success error now t in
    let s1 = update_task t' s in
    let s2 = finish_in_stage t' (stage t'.stage_id s1) s1 in
    judge-IsQueued now (tasks_for_job t'.job_id s2) (job t'.job_id s2) s2 (
      finish_in_stage-IsQueued t' (stage t'.stage_id s1) s1
        (update_task-IsQueued t' s inv (λ q. finished_task-done rows success error now t)))

-- Taking a result keeps the queue in order, whichever task it is for.
pub complete_task-IsQueued :
    (id : String) (rows : ℕ) (success : Bool) (error : Option String) (now : ℕ) (s : ClusterState)
    → IsQueued s
    → IsQueued (complete_task id rows success error now s).0
unfolding complete_task
complete_task-IsQueued id rows success error now s inv =
    complete-IsQueued rows success error now (task id s) s inv

-- The ids of the tasks are new to the state, and differ from one another.
pub record AreFresh (ids : FreshIds) (s : ClusterState) : Type 0 where
  pub unused : (i : ℕ) → task (ids.of_task i) s ≡ none
  pub distinct : (i j : ℕ) → ids.of_task i ≡ ids.of_task j → i ≡ j

still_unused :
    (ids : FreshIds) (i j : ℕ) (t : Task) (s : ClusterState)
    → t.id ≡ ids.of_task i
    → suc i ≤ j
    → task (ids.of_task j) s ≡ none
    → (ids.of_task i ≡ ids.of_task j → i ≡ j)
    → task (ids.of_task j) (insert_task t s) ≡ none
still_unused ids i j t s named later absent distinct =
    elim (Bool-cases (str_eq t.id (ids.of_task j))) [
      | inl e ↦ absurd (omega (arith, distinct (sym named ∙ (eq_iff t.id (ids.of_task j)).0 e)))
      | inr e ↦ rw (task-insert_task t s (ids.of_task j), e) absent
    ]

insert_tasks-IsQueued :
    (ids : FreshIds) (sql : String) (i : ℕ) (specs : List PartitionSpec) (s : ClusterState)
    → IsQueued s
    → ((j : ℕ) → i ≤ j → task (ids.of_task j) s ≡ none)
    → ((j k : ℕ) → ids.of_task j ≡ ids.of_task k → j ≡ k)
    → IsQueued (insert_tasks (tasks_of ids sql i specs) s)
unfolding insert_tasks tasks_of
insert_tasks-IsQueued ids sql i [] s inv unused distinct = inv
insert_tasks-IsQueued ids sql i (spec ∷ specs) s inv unused distinct =
    insert_tasks-IsQueued ids sql (suc i) specs _
      (insert_task-IsQueued _ s inv refl (unused i (omega arith)))
      (λ j le. still_unused ids i j _ s refl le (unused j (omega arith)) (distinct i j)) distinct

enter_job-IsQueued :
    (ids : FreshIds) (now : ℕ) (request : JobRequest) (specs : List PartitionSpec)
    (s : ClusterState)
    → IsQueued s
    → AreFresh ids s
    → IsQueued (enter_job ids now request specs s).0
unfolding enter_job insert_stage
enter_job-IsQueued ids now request specs s inv fresh =
    insert_job-IsQueued _
      (insert_job-IsQueued _
        (insert_tasks-IsQueued ids request.sql 0 specs _ (insert_stage-IsQueued s inv _)
          (λ j le. fresh.unused j) fresh.distinct)
        _)
      _

-- Submitting a job keeps the queue in order, if the task ids that are drawn are new.
pub submit_job-IsQueued :
    {p : Platform} (ids : FreshIds) (now : ℕ) (request : JobRequest) (plan : Result (LogicalPlan p))
    (s : ClusterState)
    → IsQueued s
    → AreFresh ids s
    → IsQueued (submit_job ids now request plan s).0
unfolding submit_job plan_partitions
submit_job-IsQueued ids now request (ok plan) s inv fresh =
    enter_job-IsQueued ids now request _ s inv fresh
submit_job-IsQueued ids now request (err e) s inv fresh = inv
submit_job-IsQueued ids now request panic s inv fresh = inv
