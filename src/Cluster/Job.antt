-- ===== src/Cluster/Job.antt =====
-- crates/rspark-cluster/src/job.rs
use Prim.Native.Nat.{max}
use rust_spark.Common.{ℕ, Bool, true, false, Option, none, String, List, [], ℤ}
use rust_spark.Cluster.Task.{duration_between}

pub record JobRequest : Type 0 where
  pub name : String
  pub sql : String
  pub submission_time : ℕ
  pub parallelism : ℕ
  pub input_paths : List String

-- `JobRequest::new`
unfoldable pub new_request : (name sql : String) (now : ℕ) → JobRequest
new_request n q now = record {
  name = n;
  sql = q;
  submission_time = now;
  parallelism = 1;
  input_paths = [];
}

unfoldable pub with_parallelism : JobRequest → ℕ → JobRequest
with_parallelism r n = record r { parallelism = max n 1 }

unfoldable pub with_input_paths : JobRequest → List String → JobRequest
with_input_paths r paths = record r { input_paths = paths }

pub data JobStatus : Type 0 where
  pending running succeeded : JobStatus
  failed : String → JobStatus
  cancelled : JobStatus

unfoldable pub is_terminal : JobStatus → Bool
is_terminal JobStatus.succeeded = true
is_terminal (JobStatus.failed _) = true
is_terminal JobStatus.cancelled = true
is_terminal _ = false

pub record Job : Type 0 where
  pub id : String
  pub name : String
  pub sql : String
  pub status : JobStatus
  pub submitted_at : ℕ
  pub started_at : Option ℕ
  pub completed_at : Option ℕ
  pub stages : List String
  pub result_rows : Option ℕ
  pub error : Option String
  pub submission_time : ℕ
  pub parallelism : ℕ

-- `Job::new`
unfoldable pub new_job : (id name sql : String) (now : ℕ) → Job
new_job i n q now = record {
  id = i;
  name = n;
  sql = q;
  status = JobStatus.pending;
  submitted_at = now;
  started_at = none;
  completed_at = none;
  stages = [];
  result_rows = none;
  error = none;
  submission_time = now;
  parallelism = 1;
}

unfoldable pub job_duration_ms : Job → Option ℤ
unfolding duration_between
job_duration_ms j = duration_between j.started_at j.completed_at

unfoldable pub is_running : Job → Bool
is_running j = elim j.status [ JobStatus.running ↦ true | _ ↦ false ]
