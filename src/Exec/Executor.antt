-- ===== src/Exec/Executor.antt =====
-- crates/rspark-exec/src/executor.rs: `LocalExecutor` drives a logical plan.
pub mod Typed
use rust_spark.Common.{
  ℕ, Bool, true, false, ◌&&◌, not, Option, none, some, String, List, [], ◌∷◌, ◌++◌, any, is_empty,
  length, ◌==◌, Error, Result, ok, err, panic, ◌>>=◌, if◌then◌else◌,
}
use rust_spark.Core.Platform.{Platform}
use rust_spark.Core.Schema.{Schema, empty_schema}
use rust_spark.Core.Record.{Record, RecordBatch, new_batch, from_records, extend, batch_is_empty}
use rust_spark.Core.Expr.{Expr}
use rust_spark.Sql.Plan.{LogicalPlan, LogicalPlans, JoinType, SortExpr, output_schema}
use rust_spark.Exec.Predicate.{eval_predicate}
use rust_spark.Exec.Project.{project_record}
use rust_spark.Exec.Aggregate.{aggregate_batch}
use rust_spark.Exec.Sort.{sort_batch, limit_batch}
use rust_spark.Exec.Join.{Pairs, join_batches}
use rust_spark.Exec.Distinct.{apply_distinct}

-- `SourceRegistry::get(source)` and then `DataSource::scan(path, Some(schema))`, whose readers
-- stand on the file system. An unknown source is an error of the registry.
pub record ExecutionContext (p : Platform) : Type 0 where
  pub scan_source : (source path : String) → Schema → Result (RecordBatch p)

module _ {p : Platform} where
  -- `matches!(e, Expr::Star)`
  abbrev pub is_star : Expr p → Bool
  is_star Expr.star = true
  is_star _ = false

  unfoldable pub project_rows :
      List (Expr p) → Schema → RecordBatch p → List (Record p) → Result (List (Record p))
  project_rows es schema batch [] = ok []
  project_rows es schema batch (row ∷ rows) = do
    new ← project_record es row batch schema
    rest ← project_rows es schema batch rows
    ok (new ∷ rest)

  unfoldable pub filter_rows : Expr p → RecordBatch p → List (Record p) → Result (List (Record p))
  filter_rows predicate batch [] = ok []
  filter_rows predicate batch (row ∷ rows) = do
    kept ← eval_predicate predicate row batch
    rest ← filter_rows predicate batch rows
    ok (if kept then row ∷ rest else rest)

  -- The arms of `apply_tree`, each from the batch it starts with.
  unfoldable pub apply_scan : Schema → RecordBatch p → RecordBatch p
  apply_scan schema batch = if batch_is_empty batch then new_batch schema else batch

  unfoldable pub apply_project : List (Expr p) → Schema → RecordBatch p → Result (RecordBatch p)
  unfolding project_rows
  apply_project es schema batch =
      if any is_star es && (length es == 1)
      then from_records schema batch.records
      else (do rows ← project_rows es schema batch batch.records; from_records schema rows)

  unfoldable pub apply_filter : Expr p → Schema → RecordBatch p → Result (RecordBatch p)
  unfolding filter_rows
  apply_filter predicate schema batch = do
    rows ← filter_rows predicate batch batch.records
    from_records schema rows

  unfoldable pub apply_sort : List (SortExpr p) → Schema → RecordBatch p → Result (RecordBatch p)
  apply_sort order schema batch = do
    sorted ← sort_batch batch order
    from_records schema sorted.records

  unfoldable pub apply_limit : ℕ → Schema → RecordBatch p → Result (RecordBatch p)
  apply_limit count schema batch = do
    limited ← limit_batch batch count
    from_records schema limited.records

  -- `right'` is what executing the right side gives.
  unfoldable pub apply_join :
      (left_schema : Schema)
      → Result (RecordBatch p)
      → Pairs
      → JoinType
      → Schema
      → RecordBatch p
      → Result (RecordBatch p)
  apply_join left_schema right' on how schema batch = do
    left_batch ← extend (new_batch left_schema) batch
    right_batch ← right'
    joined ← join_batches left_batch right_batch on how
    from_records schema joined.records

module _ {p : Platform} (ctx : ExecutionContext p) where
  -- `LocalExecutor::execute`: the input of a plan is its first child, executed; then the arm of
  -- `apply_tree` for the plan is applied to it.
  unfoldable mutual
    pub execute : LogicalPlan p → Result (RecordBatch p)
    execute (LogicalPlan.scan _ path source _ _ schema) = do
      batch ← ctx.scan_source source path schema
      ok (apply_scan schema batch)
    execute LogicalPlan.empty = ok (apply_scan empty_schema (new_batch empty_schema))
    execute (LogicalPlan.project input es schema) = do
      batch ← execute input
      apply_project es schema batch
    execute (LogicalPlan.filter input predicate schema) = do
      batch ← execute input
      apply_filter predicate schema batch
    execute (LogicalPlan.aggregate input groups aggs schema) = do
      batch ← execute input
      aggregate_batch groups aggs batch schema
    execute (LogicalPlan.sort input order schema) = do
      batch ← execute input
      apply_sort order schema batch
    execute (LogicalPlan.limit input count schema) = do
      batch ← execute input
      apply_limit count schema batch
    execute (LogicalPlan.join l r on how schema) = do
      batch ← execute l
      apply_join (output_schema l) (execute r) on how schema batch
    execute (LogicalPlan.union inputs schema) = do
      batch ← execute_first inputs schema
      execute_into inputs (new_batch schema)
    execute (LogicalPlan.distinct input schema) = do
      batch ← execute input
      apply_distinct schema batch

    -- `materialize_input` of a union: its first input, or an empty batch.
    pub execute_first : LogicalPlans p → Schema → Result (RecordBatch p)
    execute_first LogicalPlans.nil schema = ok (new_batch schema)
    execute_first (LogicalPlans.cons x xs) schema = execute x

    -- The loop of the union arm: each input executed and added to `combined`.
    pub execute_into : LogicalPlans p → RecordBatch p → Result (RecordBatch p)
    execute_into LogicalPlans.nil combined = ok combined
    execute_into (LogicalPlans.cons x xs) combined = do
      b ← execute x
      combined' ← extend combined b
      execute_into xs combined'
