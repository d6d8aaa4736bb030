-- ===== src/Cluster/Stage.antt =====
-- crates/rspark-cluster/src/stage.rs
use rust_spark.Common.{
  ℕ, Bool, not, ◌&&◌, Option, none, String, List, [], all, keep, length, is_empty,
}
use rust_spark.Cluster.Task.{Task, is_succeeded, is_done}

pub data StageStatus : Type 0 where
  pending running succeeded : StageStatus
  failed : String → StageStatus

pub record Stage : Type 0 where
  pub id : String
  pub job_id : String
  pub index : ℕ
  pub label : String
  pub status : StageStatus
  pub started_at : Option ℕ
  pub completed_at : Option ℕ
  pub tasks : List Task

-- `Stage::new`
unfoldable pub new_stage : (id job_id : String) (index : ℕ) (label : String) → Stage
new_stage i j n l = record {
  id = i;
  job_id = j;
  index = n;
  label = l;
  status = StageStatus.pending;
  started_at = none;
  completed_at = none;
  tasks = [];
}

unfoldable pub progress : Stage → ℕ × ℕ
progress s = (length (keep (λ t. is_done t.status) s.tasks), length s.tasks)

unfoldable pub is_complete : Stage → Bool
is_complete s = not (is_empty s.tasks) && all (λ t. is_succeeded t.status) s.tasks
