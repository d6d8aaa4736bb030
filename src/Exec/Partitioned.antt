-- ===== src/Exec/Partitioned.antt =====
-- crates/rspark-exec/src/partition.rs and the partitioned path of
-- crates/rspark-exec/src/executor.rs: `execute_plan` with the helpers it calls. The hooks, which the
-- host passes in to be told of progress, are not modelled.
pub mod Laws
use rust_spark.Common.{
  ℕ, String, List, [], ◌∷◌, ◌++◌, ◌<>◌, show_ℕ, is_empty, Error, Result, ok, err, panic, ◌>>=◌,
  if◌then◌else◌,
}
use rust_spark.Core.Platform.{Platform}
use rust_spark.Core.Schema.{Schema}
use rust_spark.Core.Record.{Record, RecordBatch, new_batch, push}
use rust_spark.Sql.Plan.{LogicalPlan, LogicalPlans, output_schema}
use rust_spark.Exec.Physical.{PhysicalOp, lower_plan}
use rust_spark.Exec.Executor.{ExecutionContext}

pub data Partition : Type 0 where
  whole_file : (path : String) → Partition
  csv_slice : (path : String) → (start end' : ℕ) → Partition

-- `Partition::label`
unfoldable pub label : Partition → String
label (Partition.whole_file path) = "whole:" <> path
label (Partition.csv_slice path start end') =
    "slice:" <> path <> "[" <> show_ℕ start <> ".." <> show_ℕ end' <> "]"

pub record PartitionedBatch (p : Platform) : Type 0 where
  pub partition : Partition
  pub batch : RecordBatch p
  pub output_schema : Schema

unfoldable mutual
  pub collect_partitions : {p : Platform} → LogicalPlan p → List Partition → List Partition
  collect_partitions (LogicalPlan.scan _ path _ _ _ _) out = out ++ Partition.whole_file path ∷ []
  collect_partitions (LogicalPlan.project x _ _) out = collect_partitions x out
  collect_partitions (LogicalPlan.filter x _ _) out = collect_partitions x out
  collect_partitions (LogicalPlan.aggregate x _ _ _) out = collect_partitions x out
  collect_partitions (LogicalPlan.sort x _ _) out = collect_partitions x out
  collect_partitions (LogicalPlan.limit x _ _) out = collect_partitions x out
  collect_partitions (LogicalPlan.distinct x _) out = collect_partitions x out
  collect_partitions (LogicalPlan.join l r _ _ _) out =
      collect_partitions r (collect_partitions l out)
  collect_partitions (LogicalPlan.union xs _) out = collect_all_partitions xs out
  collect_partitions LogicalPlan.empty out = out

  pub collect_all_partitions : {p : Platform} → LogicalPlans p → List Partition → List Partition
  collect_all_partitions LogicalPlans.nil out = out
  collect_all_partitions (LogicalPlans.cons x xs) out =
      collect_all_partitions xs (collect_partitions x out)

-- `vec![]` is replaced by one nameless file.
abbrev pub or_nameless : List Partition → List Partition
or_nameless [] = Partition.whole_file "" ∷ []
or_nameless (x ∷ xs) = x ∷ xs

-- It never fails, so its `Result` is left out. `ExecutionContext::plan_partitions` calls it.
unfoldable pub find_scan_partitions : {p : Platform} → LogicalPlan p → List Partition
find_scan_partitions plan = or_nameless (collect_partitions plan [])

module _ {p : Platform} where
  unfoldable pub push_all : RecordBatch p → List (Record p) → Result (RecordBatch p)
  push_all combined [] = ok combined
  push_all combined (r ∷ rs) = do combined' ← push combined r; push_all combined' rs

  unfoldable pub push_batches : RecordBatch p → List (PartitionedBatch p) → Result (RecordBatch p)
  unfolding push_all
  push_batches combined [] = ok combined
  push_batches combined (part ∷ parts) = do
    combined' ← push_all combined part.batch.records
    push_batches combined' parts

  unfoldable pub combine_batches : List (PartitionedBatch p) → Schema → Result (RecordBatch p)
  combine_batches parts s = push_batches (new_batch s) parts

module _ {p : Platform} (ctx : ExecutionContext p) where
  abbrev pub read_full_file : (path source : String) → Schema → Result (RecordBatch p)
  read_full_file path source s = ctx.scan_source source path s

  read_partition : PhysicalOp p → Partition → Result (RecordBatch p)
  read_partition (PhysicalOp.scan _ source s) (Partition.whole_file path) =
      read_full_file path source s
  read_partition (PhysicalOp.scan _ source s) (Partition.csv_slice path _ _) =
      read_full_file path source s
  read_partition _ _ = err Error.execution

  unfoldable pub execute_partition : LogicalPlan p → Partition → Result (RecordBatch p)
  unfolding read_partition
  execute_partition plan partition = read_partition (lower_plan plan) partition

  unfoldable pub execute_partitions :
      LogicalPlan p → List Partition → Result (List (PartitionedBatch p))
  execute_partitions plan [] = ok []
  execute_partitions plan (x ∷ xs) = do
    b ← execute_partition plan x
    rest ← execute_partitions plan xs
    ok (record { partition = x; batch = b; output_schema = output_schema plan } ∷ rest)

  unfoldable pub execute_plan : LogicalPlan p → Result (RecordBatch p)
  execute_plan plan = do
    parts ← execute_partitions plan (find_scan_partitions plan)
    combine_batches parts (output_schema plan)
