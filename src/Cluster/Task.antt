-- ===== src/Cluster/Task.antt =====
-- crates/rspark-cluster/src/task.rs. Times are milliseconds; ids and the clock are arguments.
use rust_spark.Common.{ℕ, Bool, true, false, Option, none, some, String, ℤ, sub_ℕ}

pub data TaskStatus : Type 0 where
  pending assigned running succeeded : TaskStatus
  failed : String → TaskStatus

pub record Task : Type 0 where
  pub id : String
  pub stage_id : String
  pub job_id : String
  pub partition_label : String
  pub sql : String
  pub status : TaskStatus
  pub assigned_worker : Option String
  pub started_at : Option ℕ
  pub completed_at : Option ℕ
  pub result_rows : Option ℕ
  pub error : Option String

-- `Task::new`, with the id that `Uuid::new_v4` drew.
unfoldable pub new_task : (id job_id stage_id label sql : String) → Task
new_task i j st label q = record {
  id = i;
  stage_id = st;
  job_id = j;
  partition_label = label;
  sql = q;
  status = TaskStatus.pending;
  assigned_worker = none;
  started_at = none;
  completed_at = none;
  result_rows = none;
  error = none;
}

-- `(end - start).num_milliseconds()` where both times are known.
unfoldable pub duration_between : Option ℕ → Option ℕ → Option ℤ
duration_between (some start) (some end') = some (sub_ℕ end' start)
duration_between _ _ = none

unfoldable pub duration_ms : Task → Option ℤ
unfolding duration_between
duration_ms t = duration_between t.started_at t.completed_at

abbrev pub is_succeeded : TaskStatus → Bool
is_succeeded TaskStatus.succeeded = true
is_succeeded _ = false

abbrev pub is_failed : TaskStatus → Bool
is_failed (TaskStatus.failed _) = true
is_failed _ = false

-- `matches!(…, TaskStatus::Succeeded | TaskStatus::Failed(_))`
abbrev pub is_done : TaskStatus → Bool
is_done TaskStatus.succeeded = true
is_done (TaskStatus.failed _) = true
is_done _ = false
