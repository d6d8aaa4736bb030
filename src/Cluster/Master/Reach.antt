-- ===== src/Cluster/Master/Reach.antt =====
-- Every state the master can come to, by any sequence of its operations.
use rust_spark.Common.{ℕ, ◌≡◌, refl, Bool, Option, none, String, Result}
use rust_spark.Common.Dict
use rust_spark.Core.Platform.{Platform}
use rust_spark.Sql.Plan.{LogicalPlan}
use rust_spark.Cluster.Job.{JobRequest}
use rust_spark.Cluster.State.{
  ClusterState, WorkerInfo, new_state, task, register_worker, remove_worker,
  update_worker_heartbeat, inc_running_round, record_completed_round,
}
use rust_spark.Cluster.State.Queue.{IsQueued, insert_job-IsQueued}
use rust_spark.Cluster.Master.{
  FreshIds, submit_job, submit_job_skip_plan, try_assign_task, complete_task,
}
use rust_spark.Cluster.Master.Queue.{
  AreFresh, submit_job-IsQueued, try_assign_task-IsQueued, complete_task-IsQueued,
}
use rust_spark.Cluster.Master.Jobs.{
  HasJobs, insert_job-HasJobs, try_assign_task-HasJobs, complete_task-HasJobs,
}
use rust_spark.Cluster.Master.Submit.{submit_job-HasJobs}

module _ (p : Platform) where
  -- One operation of the master, taken as one step. The source has a lock for each table and none for
  -- an operation, so what two operations do between each other's steps is left out.
  pub data Step : ClusterState → ClusterState → Type 0 where
    submit :
        (ids : FreshIds) (now : ℕ) (request : JobRequest) (plan : Result (LogicalPlan p))
        {s : ClusterState}
        → AreFresh ids s
        → Step s (submit_job ids now request plan s).0
    submit_skip_plan :
        (id : String) (now : ℕ) (request : JobRequest) {s : ClusterState}
        → Step s (submit_job_skip_plan id now request s).0
    assign_next : (worker : String) {s : ClusterState} → Step s (try_assign_task worker s).0
    finish :
        (id : String) (rows : ℕ) (success : Bool) (error : Option String) (now : ℕ)
        {s : ClusterState}
        → Step s (complete_task id rows success error now s).0
    register : (w : WorkerInfo) {s : ClusterState} → Step s (register_worker w s)
    remove : (id : String) {s : ClusterState} → Step s (remove_worker id s)
    heartbeat :
        (id : String) (now : ℕ) {s : ClusterState} → Step s (update_worker_heartbeat id now s)
    start_round : {s : ClusterState} → Step s (inc_running_round s).0
    end_round : {s : ClusterState} → Step s (record_completed_round s)

  pub data Reachable : ClusterState → Type 0 where
    start : (master : String) → Reachable (new_state master)
    then_step : {s t : ClusterState} → Reachable s → Step s t → Reachable t

  step-IsQueued : {s t : ClusterState} → Step s t → IsQueued s → IsQueued t
  unfolding submit_job_skip_plan register_worker remove_worker update_worker_heartbeat
      inc_running_round record_completed_round
  step-IsQueued (Step.submit ids now request plan {s} fresh) q =
      submit_job-IsQueued ids now request plan s q fresh
  step-IsQueued (Step.submit_skip_plan id now request {s}) q = insert_job-IsQueued s q _
  step-IsQueued (Step.assign_next worker {s}) q = try_assign_task-IsQueued worker s q
  step-IsQueued (Step.finish id rows success error now {s}) q =
      complete_task-IsQueued id rows success error now s q
  step-IsQueued (Step.register w) q = record { waiting = q.waiting; once = q.once; keyed = q.keyed }
  step-IsQueued (Step.remove id) q = record { waiting = q.waiting; once = q.once; keyed = q.keyed }
  step-IsQueued (Step.heartbeat id now) q = record {
    waiting = q.waiting;
    once = q.once;
    keyed = q.keyed;
  }
  step-IsQueued Step.start_round q = record { waiting = q.waiting; once = q.once; keyed = q.keyed }
  step-IsQueued Step.end_round q = record { waiting = q.waiting; once = q.once; keyed = q.keyed }

  step-HasJobs : {s t : ClusterState} → Step s t → HasJobs s → HasJobs t
  unfolding submit_job_skip_plan register_worker remove_worker update_worker_heartbeat
      inc_running_round record_completed_round
  step-HasJobs (Step.submit ids now request plan {s} fresh) h =
      submit_job-HasJobs ids now request plan s h
  step-HasJobs (Step.submit_skip_plan id now request {s}) h = insert_job-HasJobs _ s h
  step-HasJobs (Step.assign_next worker {s}) h = try_assign_task-HasJobs worker s h
  step-HasJobs (Step.finish id rows success error now {s}) h =
      complete_task-HasJobs rows success error now id s h
  step-HasJobs (Step.register w) h = record { known = h.known }
  step-HasJobs (Step.remove id) h = record { known = h.known }
  step-HasJobs (Step.heartbeat id now) h = record { known = h.known }
  step-HasJobs Step.start_round h = record { known = h.known }
  step-HasJobs Step.end_round h = record { known = h.known }

  task-new_state : (master id : String) → task id (new_state master) ≡ none
  unfolding Dict.get
  task-new_state master id = refl

  -- In every state that the master reaches from its first one, by any order of its operations,
  -- each queued id names a task that nobody has taken, no id is queued twice, every task stands
  -- under its own id, and the job of every task is in the table. Task ids are assumed new when
  -- a job is submitted.
  pub Reachable-invariant : {s : ClusterState} → Reachable s → IsQueued s × HasJobs s
  Reachable-invariant (Reachable.start master) = (
    record {
      waiting = λ id q. cc;
      once = tt;
      keyed = λ id t e. absurd (cc (task-new_state master id));
    },
    record { known = λ id t e. absurd (cc (task-new_state master id)) },
  )
  Reachable-invariant (Reachable.then_step r step) =
      (step-IsQueued step (Reachable-invariant r).0, step-HasJobs step (Reachable-invariant r).1)
