-- ===== src/Cluster/Partitioner.antt =====
-- crates/rspark-cluster/src/partitioner.rs: the partitions of a plan, one task each.
pub mod Laws
use rust_spark.Common.{
  ℕ, zero, suc, ◌+◌, String, List, [], ◌∷◌, ◌++◌, length, is_empty, Result, ok, show_ℕ, ◌<>◌,
  if◌then◌else◌,
}
use rust_spark.Core.Platform.{Platform}
use rust_spark.Sql.Plan.{LogicalPlan, LogicalPlans}

pub record PartitionSpec : Type 0 where
  pub index : ℕ
  pub label : String

unfoldable pub scan_label : String → ℕ → String
scan_label path partition = "scan[" <> path <> "]:p" <> show_ℕ partition

-- `for partition in 0..parallelism`: `left'` rounds are left, and `k` is the next partition.
unfoldable pub push_scan : (path : String) (k left' : ℕ) → List PartitionSpec → List PartitionSpec
push_scan path k zero out = out
push_scan path k (suc left') out =
    push_scan path (suc k) left'
      (out ++ record { index = length out; label = scan_label path k } ∷ [])

-- The counter `scan_idx` of the source is never read, so it is left out.
unfoldable mutual
  pub collect_scans :
      {p : Platform} → LogicalPlan p → List PartitionSpec → (parallelism : ℕ) → List PartitionSpec
  collect_scans (LogicalPlan.scan _ path _ _ _ _) out n = push_scan path 0 n out
  collect_scans (LogicalPlan.project x _ _) out n = collect_scans x out n
  collect_scans (LogicalPlan.filter x _ _) out n = collect_scans x out n
  collect_scans (LogicalPlan.aggregate x _ _ _) out n = collect_scans x out n
  collect_scans (LogicalPlan.sort x _ _) out n = collect_scans x out n
  collect_scans (LogicalPlan.limit x _ _) out n = collect_scans x out n
  collect_scans (LogicalPlan.distinct x _) out n = collect_scans x out n
  collect_scans (LogicalPlan.join l r _ _ _) out n = collect_scans r (collect_scans l out n) n
  collect_scans (LogicalPlan.union xs _) out n = collect_all_scans xs out n
  collect_scans LogicalPlan.empty out n = out

  pub collect_all_scans :
      {p : Platform} → LogicalPlans p → List PartitionSpec → (parallelism : ℕ) → List PartitionSpec
  collect_all_scans LogicalPlans.nil out n = out
  collect_all_scans (LogicalPlans.cons x xs) out n = collect_all_scans xs (collect_scans x out n) n

unfoldable pub plan_partitions :
    {p : Platform} → LogicalPlan p → (parallelism : ℕ) → Result (List PartitionSpec)
plan_partitions plan n =
    let out = collect_scans plan [] n in
    ok (if is_empty out then record { index = 0; label = "no-input" } ∷ [] else out)
