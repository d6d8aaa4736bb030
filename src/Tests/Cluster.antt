-- ===== src/Tests/Cluster.antt =====
-- The master and the partitioner at concrete inputs.
use rust_spark.Common.{
  ℕ, zero, suc, ◌+◌, ◌≡◌, refl, ap, Bool, true, false, not, ◌&&◌, Option, none, some, String, List,
  [], ◌∷◌, ok, Result, Error, if◌then◌else◌,
}
use rust_spark.Common.Dict
use rust_spark.Cluster.Task.{Task, TaskStatus, is_done}
use rust_spark.Cluster.Job.{Job, JobStatus, JobRequest}
use rust_spark.Cluster.Partitioner.{PartitionSpec, plan_partitions}
use rust_spark.Cluster.State.{ClusterState, new_state, task, job, tasks_for_job}
use rust_spark.Cluster.State.Queue.{IsQueued}
use rust_spark.Cluster.Master.{FreshIds, submit_job, try_assign_task, complete_task}
use rust_spark.Cluster.Master.Queue.{AreFresh}
use rust_spark.Cluster.Master.Jobs.{HasJobs}
use rust_spark.Cluster.Master.Counts.{complete_task_counts}
use rust_spark.Cluster.Master.Verdict.{Decides, complete_task_verdict}
use rust_spark.Cluster.Master.Drain.{hand_out, hand_out_fifo, pair_up, drop_as}
use rust_spark.Cluster.Master.Reach.{Reachable, Step, Reachable-invariant}
use rust_spark.Tests.Samples.{whole, query}

tally : ℕ → String
tally zero = ""
tally (suc n) = String.◌∷◌ "t" (tally n)

tally-injective : (i j : ℕ) → tally i ≡ tally j → i ≡ j
unfolding tally
tally-injective zero zero e = refl
tally-injective zero (suc j) e = cc
tally-injective (suc i) zero e = cc
tally-injective (suc i) (suc j) e = ap suc (tally-injective i j cc)

abbrev ids : FreshIds
ids = record { of_job = "j"; of_stage = "s"; of_task = λ i. tally (suc i) }

ids-AreFresh : AreFresh ids (new_state "m")
unfolding Dict.get
ids-AreFresh = record {
  unused = λ i. refl;
  distinct = λ i j e. cc (tally-injective (suc i) (suc j) e);
}

abbrev request : JobRequest
request = record {
  name = "nightly";
  sql = "SELECT 1";
  submission_time = 5;
  parallelism = 2;
  input_paths = [];
}

abbrev begun : ClusterState
begun = new_state "m"

abbrev submitted : ClusterState
submitted = (submit_job ids 5 request (ok query) begun).0

abbrev assigned : ClusterState
assigned = (try_assign_task "w" submitted).0

reach : Reachable whole assigned
reach =
    Reachable.then_step
      (Reachable.then_step (Reachable.start "m")
        (Step.submit ids 5 request (ok query) ids-AreFresh))
      (Step.assign_next "w")

Reachable-invariant_example : IsQueued assigned × HasJobs assigned
Reachable-invariant_example = Reachable-invariant whole reach

abbrev first : Task
first = record {
  id = "t";
  stage_id = "s";
  job_id = "j";
  partition_label = "scan[people.csv]:p0";
  sql = "SELECT 1";
  status = TaskStatus.assigned;
  assigned_worker = some "w";
  started_at = none;
  completed_at = none;
  result_rows = none;
  error = none;
}

known : task "t" assigned ≡ some first
unfolding Dict.get try_assign_task rust_spark.Cluster.State.pop_pending_task submit_job
    plan_partitions rust_spark.Cluster.Master.enter_job rust_spark.Cluster.State.insert_job
    rust_spark.Cluster.Master.insert_tasks rust_spark.Cluster.Master.tasks_of
    rust_spark.Cluster.Partitioner.collect_scans rust_spark.Cluster.Partitioner.push_scan
    rust_spark.Cluster.State.insert_task rust_spark.Cluster.State.insert_stage Dict.insert
    rust_spark.Cluster.Master.assign rust_spark.Cluster.State.update_task
    rust_spark.Cluster.Master.assign_in_stage rust_spark.Cluster.Partitioner.scan_label
    rust_spark.Common.show_ℕ tally
known = refl

in_queue : IsQueued assigned
in_queue = (Reachable-invariant whole reach).0

complete_task_counts_example :
    (complete_task "t" 3 true none 9 assigned).0.total_runs
    ≡ (if not (is_done first.status) && true then assigned.total_runs + 1 else assigned.total_runs)
complete_task_counts_example = complete_task_counts 3 true none 9 "t" assigned first in_queue known

abbrev two_workers : List String
two_workers = "v" ∷ "w" ∷ []

hand_out_fifo_example :
    ((hand_out two_workers assigned).1 ≡ pair_up two_workers assigned.pending)
    × ((hand_out two_workers assigned).0.pending ≡ drop_as two_workers assigned.pending)
hand_out_fifo_example = hand_out_fifo two_workers assigned in_queue

abbrev halves : List PartitionSpec
halves =
    record { index = 0; label = "scan[people.csv]:p0" }
    ∷ record { index = 1; label = "scan[people.csv]:p1" }
    ∷ []

abbrev nightly : Job
nightly = record {
  id = "j";
  name = "nightly";
  sql = "SELECT 1";
  status = JobStatus.running;
  submitted_at = 5;
  started_at = some 5;
  completed_at = none;
  stages = "s" ∷ [];
  result_rows = none;
  error = none;
  submission_time = 5;
  parallelism = 2;
}

its_job : job "j" assigned ≡ some nightly
unfolding Dict.get try_assign_task rust_spark.Cluster.State.pop_pending_task submit_job
    plan_partitions rust_spark.Cluster.Master.enter_job rust_spark.Cluster.State.insert_job
    rust_spark.Cluster.Master.insert_tasks rust_spark.Cluster.Master.tasks_of
    rust_spark.Cluster.Partitioner.collect_scans rust_spark.Cluster.Partitioner.push_scan
    rust_spark.Cluster.State.insert_task rust_spark.Cluster.State.insert_stage Dict.insert
    rust_spark.Cluster.Master.assign rust_spark.Cluster.State.update_task
    rust_spark.Cluster.Master.assign_in_stage rust_spark.Cluster.Partitioner.scan_label
    rust_spark.Common.show_ℕ tally
its_job = refl

complete_task_verdict_example :
    (j' : Job) × (job "j" (complete_task "t" 3 true none 9 assigned).0 ≡ some j')
    × Decides 9 (tasks_for_job "j" (complete_task "t" 3 true none 9 assigned).0) nightly j'
complete_task_verdict_example =
    complete_task_verdict 3 true none 9 "t" first nightly assigned known its_job refl
