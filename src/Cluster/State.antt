-- ===== src/Cluster/State.antt =====
-- crates/rspark-cluster/src/state.rs: the tables that the master and the workers share. Each
-- method takes the state and returns the new one. The source locks each table on its own; a method is
-- one step here.
pub mod Queue
use rust_spark.Common.{
  ℕ, suc, ◌+◌, Bool, true, false, not, ◌&&◌, Option, none, some, String, List, [], ◌∷◌, ◌++◌, keep,
  str_eq, if◌then◌else◌, length,
}
use rust_spark.Common.Dict
use rust_spark.Common.Dict.{Dict}
use rust_spark.Cluster.Task.{Task, TaskStatus, is_succeeded, is_done}
use rust_spark.Cluster.Stage.{Stage}
use rust_spark.Cluster.Job.{Job}

pub data WorkerStatus : Type 0 where
  alive dead : WorkerStatus

pub record WorkerInfo : Type 0 where
  pub id : String
  pub address : String
  pub last_heartbeat : ℕ
  pub cores : ℕ
  pub memory_mb : ℕ
  pub status : WorkerStatus
  pub running_tasks : List String

-- `WorkerInfo::new`
unfoldable pub new_worker : (id address : String) (cores memory_mb now : ℕ) → WorkerInfo
new_worker i a c m now = record {
  id = i;
  address = a;
  last_heartbeat = now;
  cores = c;
  memory_mb = m;
  status = WorkerStatus.alive;
  running_tasks = [];
}

unfoldable pub is_alive : WorkerInfo → Bool
is_alive w = elim w.status [ WorkerStatus.alive ↦ true | WorkerStatus.dead ↦ false ]

pub record ClusterState : Type 0 where
  pub master_id : String
  pub workers : Dict WorkerInfo
  pub jobs : Dict Job
  pub stages : Dict Stage
  pub tasks : Dict Task
  pub pending : List String
  pub running_round : ℕ
  pub total_runs : ℕ
  pub total_completed_rounds : ℕ

-- `ClusterState::new`
abbrev pub new_state : String → ClusterState
new_state master = record {
  master_id = master;
  workers = [];
  jobs = [];
  stages = [];
  tasks = [];
  pending = [];
  running_round = 0;
  total_runs = 0;
  total_completed_rounds = 0;
}

unfoldable pub register_worker : WorkerInfo → ClusterState → ClusterState
register_worker w s = record s { workers = Dict.insert w.id w s.workers }

unfoldable pub remove_worker : String → ClusterState → ClusterState
remove_worker id s = record s { workers = Dict.remove id s.workers }

heartbeat_entry : String → ℕ → Option WorkerInfo → Dict WorkerInfo → Dict WorkerInfo
heartbeat_entry id now none ws = ws
heartbeat_entry id now (some w) ws = Dict.insert id (record w { last_heartbeat = now }) ws

unfoldable pub update_worker_heartbeat : String → (now : ℕ) → ClusterState → ClusterState
unfolding heartbeat_entry
update_worker_heartbeat id now s = record s {
  workers = heartbeat_entry id now (Dict.get id s.workers) s.workers;
}

unfoldable pub list_workers : ClusterState → List WorkerInfo
list_workers s = Dict.values s.workers

unfoldable pub worker : String → ClusterState → Option WorkerInfo
worker id s = Dict.get id s.workers

-- `insert_job` and `update_job` have one body, and so have `insert_stage` and `update_stage`.
unfoldable pub insert_job : Job → ClusterState → ClusterState
insert_job j s = record s { jobs = Dict.insert j.id j s.jobs }

unfoldable pub insert_stage : Stage → ClusterState → ClusterState
insert_stage st s = record s { stages = Dict.insert st.id st s.stages }

abbrev pub job : String → ClusterState → Option Job
job id s = Dict.get id s.jobs

abbrev pub stage : String → ClusterState → Option Stage
stage id s = Dict.get id s.stages

abbrev pub task : String → ClusterState → Option Task
task id s = Dict.get id s.tasks

unfoldable pub list_jobs : ClusterState → List Job
list_jobs s = Dict.values s.jobs

unfoldable pub list_stages : ClusterState → List Stage
list_stages s = Dict.values s.stages

unfoldable pub list_tasks : ClusterState → List Task
list_tasks s = Dict.values s.tasks

unfoldable pub stages_for_job : String → ClusterState → List Stage
stages_for_job id s = keep (λ st. str_eq st.job_id id) (Dict.values s.stages)

unfoldable pub tasks_for_job : String → ClusterState → List Task
tasks_for_job id s = keep (λ t. str_eq t.job_id id) (Dict.values s.tasks)

unfoldable pub insert_task : Task → ClusterState → ClusterState
insert_task t s = record s { tasks = Dict.insert t.id t s.tasks; pending = s.pending ++ t.id ∷ [] }

abbrev pub done_before : Option Task → Bool
done_before none = false
done_before (some t) = is_done t.status

-- `retain(|t| t != &id)`
abbrev pub without : String → List String → List String
without id ids = keep (λ t. not (str_eq t id)) ids

unfoldable pub update_task : Task → ClusterState → ClusterState
update_task t s =
    let was_terminal = done_before (task t.id s) in
    let stored = record s { tasks = Dict.insert t.id t s.tasks } in
    if not was_terminal && is_done t.status
    then record stored {
      pending = without t.id s.pending;
      total_runs = if is_succeeded t.status then s.total_runs + 1 else s.total_runs;
    }
    else stored

-- The id leaves the queue also where the table has no such task.
unfoldable pub pop_from : List String → ClusterState → ClusterState × Option Task
pop_from [] s = (s, none)
pop_from (id ∷ rest) s = (record s { pending = rest }, task id s)

unfoldable pub pop_pending_task : ClusterState → ClusterState × Option Task
unfolding pop_from
pop_pending_task s = pop_from s.pending s

unfoldable pub pending_count : ClusterState → ℕ
pending_count s = length s.pending

unfoldable pub inc_running_round : ClusterState → ClusterState × ℕ
inc_running_round s = (record s { running_round = s.running_round + 1 }, s.running_round + 1)

unfoldable pub record_completed_round : ClusterState → ClusterState
record_completed_round s = record s { total_completed_rounds = s.total_completed_rounds + 1 }

pub record ClusterSnapshot : Type 0 where
  pub master_id : String
  pub captured_at : ℕ
  pub workers : List WorkerInfo
  pub jobs : List Job
  pub stages : List Stage
  pub tasks : List Task
  pub pending_queue : List String
  pub running_round : ℕ
  pub total_completed_rounds : ℕ
  pub total_runs : ℕ

unfoldable pub snapshot : (now : ℕ) → ClusterState → ClusterSnapshot
unfolding list_workers list_jobs list_stages list_tasks
snapshot now s = record {
  master_id = s.master_id;
  captured_at = now;
  workers = list_workers s;
  jobs = list_jobs s;
  stages = list_stages s;
  tasks = list_tasks s;
  pending_queue = s.pending;
  running_round = s.running_round;
  total_completed_rounds = s.total_completed_rounds;
  total_runs = s.total_runs;
}
