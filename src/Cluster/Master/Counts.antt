-- ===== src/Cluster/Master/Counts.antt =====
-- The master's counters: which results count as runs.
use rust_spark.Common.{
  ℕ, ◌+◌, ◌≡◌, refl, ◌∙◌, Bool, not, ◌&&◌, Option, none, some, String, List, if◌then◌else◌, arith,
}
use rust_spark.Cluster.Task.{Task, is_done, is_succeeded}
use rust_spark.Cluster.Stage.{Stage}
use rust_spark.Cluster.Job.{Job}
use rust_spark.Cluster.State.{
  ClusterState, task, job, stage, done_before, update_task, insert_stage, insert_job, tasks_for_job,
}
use rust_spark.Cluster.State.Queue.{IsQueued}
use rust_spark.Cluster.Master.{finished_task, finish_in_stage, judge, complete, complete_task}

total_runs-update_task :
    (t : Task) (s : ClusterState)
    → (update_task t s).total_runs ≡ (
        if not (done_before (task t.id s)) && is_succeeded t.status
        then s.total_runs + 1
        else s.total_runs)
unfolding update_task
total_runs-update_task t s = ground arith

total_runs-finish_in_stage :
    (t : Task) (st : Option Stage) (s : ClusterState)
    → (finish_in_stage t st s).total_runs ≡ s.total_runs
unfolding finish_in_stage insert_stage
total_runs-finish_in_stage t none s = refl
total_runs-finish_in_stage t (some st) s = refl

total_runs-judge :
    (now : ℕ) (ts : List Task) (j : Option Job) (s : ClusterState)
    → (judge now ts j s).0.total_runs ≡ s.total_runs
unfolding judge insert_job
total_runs-judge now ts none s = refl
total_runs-judge now ts (some j) s = refl

module _ (rows : ℕ) (success : Bool) (error : Option String) (now : ℕ) where
  finished_task-succeeded :
      (t : Task) → is_succeeded (finished_task rows success error now t).status ≡ success
  unfolding finished_task
  finished_task-succeeded t = ground arith

  id-finished_task : (t : Task) → (finished_task rows success error now t).id ≡ t.id
  unfolding finished_task
  id-finished_task t = refl

  total_runs-complete :
      (t : Task) (s : ClusterState)
      → (complete rows success error now (some t) s).0.total_runs
        ≡ (if not (done_before (task t.id s)) && success then s.total_runs + 1 else s.total_runs)
  unfolding complete
  total_runs-complete t s =
      let t' = finished_task rows success error now t in
      let s1 = update_task t' s in
      let st = stage t'.stage_id s1 in
      let s2 = finish_in_stage t' st s1 in
      total_runs-judge now (tasks_for_job t'.job_id s2) (job t'.job_id s2) s2
      ∙ total_runs-finish_in_stage t' st s1
      ∙ total_runs-update_task t' s
      ∙ rw (finished_task-succeeded t) refl

  -- A result counts as a run exactly once: when it reports success for a task that has no result
  -- yet. A result for a task that is done leaves the counter as it is.
  pub complete_task_counts :
      (id : String) (s : ClusterState) (t : Task)
      → IsQueued s
      → task id s ≡ some t
      → (complete_task id rows success error now s).0.total_runs
        ≡ (if not (is_done t.status) && success then s.total_runs + 1 else s.total_runs)
  unfolding complete_task
  complete_task_counts id s t inv e = rw e (total_runs-complete t s ∙ rw (inv.keyed id t e, e) refl)
