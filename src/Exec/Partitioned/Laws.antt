-- ===== src/Exec/Partitioned/Laws.antt =====
-- The partitioned path: which plans it can run, and what it then returns.
use mathlib.Core.List.{append_assoc, append-nil}
use rust_spark.Common.{
  arith, ◌≡◌, refl, sym, ◌∙◌, ap, Bool, true, false, Option, List, [], ◌∷◌, ◌++◌, Error, ok, err,
  All, String,
}
use rust_spark.Core.Platform.{Platform}
use rust_spark.Core.Schema.{Schema}
use rust_spark.Core.Record.{Record, RecordBatch, new_batch, push}
use rust_spark.Core.Record.Valid.{IsTyped, Fits, validate_iff}
use rust_spark.Core.Expr.{Expr}
use rust_spark.Sql.Plan.{LogicalPlan, output_schema}
use rust_spark.Exec.Physical.{lower_plan}
use rust_spark.Exec.Executor.{ExecutionContext}
use rust_spark.Exec.Partitioned.{
  Partition, PartitionedBatch, or_nameless, find_scan_partitions, collect_partitions, push_all,
  push_batches, combine_batches, execute_partition, execute_partitions, execute_plan,
}

abbrev pub is_scan : {p : Platform} → LogicalPlan p → Bool
is_scan (LogicalPlan.scan _ _ _ _ _ _) = true
is_scan _ = false

module _ {p : Platform} where
  push-Fits :
      (b : RecordBatch p) (r : Record p)
      → Fits b.schema r
      → push b r ≡ ok (record b { records = b.records ++ r ∷ [] })
  unfolding push
  push-Fits b r h = rw ((validate_iff r b.schema).1 h) refl

  -- Rows that fit are all added, in their order.
  push_all-Fits :
      (b : RecordBatch p) (rs : List (Record p))
      → All (Fits b.schema) rs
      → push_all b rs ≡ ok (record { schema = b.schema; records = b.records ++ rs })
  unfolding push_all
  push_all-Fits b [] h =
      ap (λ l. ok (record { schema = b.schema; records = l })) (sym (append-nil b.records))
  push_all-Fits b (r ∷ rs) h = rw (push-Fits b r h.0) (
      push_all-Fits (record b { records = b.records ++ r ∷ [] }) rs h.1
      ∙ ap (λ l. ok (record { schema = b.schema; records = l }))
          (append_assoc b.records (r ∷ []) rs))

module _ {p : Platform} (ctx : ExecutionContext p) where
  execute_partition-rejects :
      (plan : LogicalPlan p) (x : Partition)
      → is_scan plan ≡ false
      → execute_partition ctx plan x ≡ err Error.execution
  unfolding execute_partition lower_plan
  execute_partition-rejects plan x h = ground arith

  rejects_all :
      (plan : LogicalPlan p) (xs : List Partition)
      → is_scan plan ≡ false
      → execute_partitions ctx plan (or_nameless xs) ≡ err Error.execution
  unfolding execute_partitions
  rejects_all plan [] h = rw (execute_partition-rejects plan (Partition.whole_file "") h) refl
  rejects_all plan (x ∷ xs) h = rw (execute_partition-rejects plan x h) refl

  -- A plan that is not a bare scan is refused by `execute_plan` with an execution error, whatever
  -- the sources hold.
  pub execute_plan-rejects :
      (plan : LogicalPlan p) → is_scan plan ≡ false → execute_plan ctx plan ≡ err Error.execution
  unfolding execute_plan find_scan_partitions
  execute_plan-rejects plan h = rw (rejects_all plan (collect_partitions plan []) h) refl

  combine_one :
      (s : Schema) (b : RecordBatch p) (part : PartitionedBatch p)
      → IsTyped s b
      → part.batch ≡ b
      → combine_batches (part ∷ []) s ≡ ok b
  unfolding combine_batches push_batches
  combine_one s b part typed e =
      rw (e, push_all-Fits (new_batch s) b.records typed.rows_fit)
        (ap (λ t. ok (record { schema = t; records = b.records })) (sym typed.has_schema))

  -- For a bare scan `execute_plan` returns the batch that the source reads, if that batch has the
  -- scan's schema and its rows fit it.
  pub execute_plan-scan :
      (table path source : String) (projection : Option (List (Expr p))) (filter : Option (Expr p))
      (s : Schema) (b : RecordBatch p)
      → ctx.scan_source source path s ≡ ok b
      → IsTyped s b
      → execute_plan ctx (LogicalPlan.scan table path source projection filter s) ≡ ok b
  unfolding execute_plan find_scan_partitions execute_partitions execute_partition lower_plan
      collect_partitions output_schema
  execute_plan-scan table path source projection filter s b read typed =
      rw read (combine_one s b _ typed refl)
