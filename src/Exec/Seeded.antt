-- ===== src/Exec/Seeded.antt =====
-- crates/rspark-exec/src/executor.rs: `execute` cut where the source cuts it, into
-- `materialize_input` and `apply_tree`, and `execute_with_input`, which seeds the second with rows of
-- the caller.
use mathlib.Core.Path.{subst}
use rust_spark.Common.{
  ◌≡◌, refl, Bool, true, false, not, ◌&&◌, Result, ok, err, panic, ◌>>=◌, Bool-cases, inl, inr,
  if◌then◌else◌,
}
use rust_spark.Core.Platform.{Platform}
use rust_spark.Core.Schema.{empty_schema}
use rust_spark.Core.Record.{RecordBatch, new_batch, batch_is_empty}
use rust_spark.Core.Record.Valid.{IsTyped}
use rust_spark.Sql.Plan.{LogicalPlan, output_schema}
use rust_spark.Exec.Aggregate.{aggregate_batch}
use rust_spark.Exec.Distinct.{apply_distinct}
use rust_spark.Exec.Executor.{
  ExecutionContext, apply_scan, apply_project, apply_filter, apply_sort, apply_limit, apply_join,
  execute, execute_first, execute_into,
}
use rust_spark.Exec.Executor.Typed.{
  Gives, SourcesTyped, Gives-project, Gives-filter, Gives-sort, Gives-limit, Gives-join,
  Gives-aggregate, Gives-distinct, Gives-scan, execute_into-Gives,
}

module _ {p : Platform} (ctx : ExecutionContext p) where
  -- `children().first()` executed, or what a leaf starts with.
  unfoldable pub materialize_input : LogicalPlan p → Result (RecordBatch p)
  materialize_input (LogicalPlan.scan _ path source _ _ schema) = ctx.scan_source source path schema
  materialize_input LogicalPlan.empty = ok (new_batch empty_schema)
  materialize_input (LogicalPlan.project x _ _) = execute ctx x
  materialize_input (LogicalPlan.filter x _ _) = execute ctx x
  materialize_input (LogicalPlan.aggregate x _ _ _) = execute ctx x
  materialize_input (LogicalPlan.sort x _ _) = execute ctx x
  materialize_input (LogicalPlan.limit x _ _) = execute ctx x
  materialize_input (LogicalPlan.join l _ _ _ _) = execute ctx l
  materialize_input (LogicalPlan.union xs schema) = execute_first ctx xs schema
  materialize_input (LogicalPlan.distinct x _) = execute ctx x

  unfoldable pub apply_tree : LogicalPlan p → RecordBatch p → Result (RecordBatch p)
  apply_tree (LogicalPlan.scan _ _ _ _ _ schema) batch = ok (apply_scan schema batch)
  apply_tree LogicalPlan.empty batch = ok (apply_scan empty_schema batch)
  apply_tree (LogicalPlan.project _ es schema) batch = apply_project es schema batch
  apply_tree (LogicalPlan.filter _ predicate schema) batch = apply_filter predicate schema batch
  apply_tree (LogicalPlan.aggregate _ groups aggs schema) batch =
      aggregate_batch groups aggs batch schema
  apply_tree (LogicalPlan.sort _ order schema) batch = apply_sort order schema batch
  apply_tree (LogicalPlan.limit _ count schema) batch = apply_limit count schema batch
  apply_tree (LogicalPlan.join l r on how schema) batch =
      apply_join (output_schema l) (execute ctx r) on how schema batch
  apply_tree (LogicalPlan.union xs schema) batch = execute_into ctx xs (new_batch schema)
  apply_tree (LogicalPlan.distinct _ schema) batch = apply_distinct schema batch

  -- `unwrap_or(input)`: a panic of the scan is no `Err`, and goes through.
  or_input : RecordBatch p → Result (RecordBatch p) → Result (RecordBatch p)
  or_input input (ok b) = ok b
  or_input input (err _) = ok input
  or_input input panic = panic

  abbrev pub seeded : RecordBatch p → RecordBatch p → RecordBatch p
  seeded input current =
      if batch_is_empty current && not (batch_is_empty input) then input else current

  unfoldable pub execute_with_input :
      LogicalPlan p → (input : RecordBatch p) → Result (RecordBatch p)
  unfolding or_input
  execute_with_input plan input = do
    current ← or_input input (materialize_input plan)
    apply_tree plan (seeded input current)

  -- `execute` runs `materialize_input` and then `apply_tree`, for every plan and with every failure.
  pub execute-apply_tree :
      (plan : LogicalPlan p) → execute ctx plan ≡ (materialize_input plan >>= apply_tree plan)
  unfolding execute materialize_input apply_tree
  execute-apply_tree (LogicalPlan.scan _ _ _ _ _ _) = refl
  execute-apply_tree LogicalPlan.empty = refl
  execute-apply_tree (LogicalPlan.project _ _ _) = refl
  execute-apply_tree (LogicalPlan.filter _ _ _) = refl
  execute-apply_tree (LogicalPlan.aggregate _ _ _ _) = refl
  execute-apply_tree (LogicalPlan.sort _ _ _) = refl
  execute-apply_tree (LogicalPlan.limit _ _ _) = refl
  execute-apply_tree (LogicalPlan.join _ _ _ _ _) = refl
  execute-apply_tree (LogicalPlan.union _ _) = refl
  execute-apply_tree (LogicalPlan.distinct _ _) = refl

  abbrev pub is_leaf : LogicalPlan p → Bool
  is_leaf (LogicalPlan.scan _ _ _ _ _ _) = true
  is_leaf LogicalPlan.empty = true
  is_leaf _ = false

  abbrev IsReady : LogicalPlan p → RecordBatch p → Type 0
  IsReady plan batch = is_leaf plan ≡ true → IsTyped (output_schema plan) batch

  module _ (sources : SourcesTyped ctx) where
    -- Every operator but a leaf brings its rows under the schema of the plan, whatever it is given.
    apply_tree-Gives :
        (plan : LogicalPlan p) (batch : RecordBatch p)
        → IsReady plan batch
        → Gives (output_schema plan) (apply_tree plan batch)
    unfolding apply_tree output_schema
    apply_tree-Gives (LogicalPlan.scan _ _ _ _ _ s) batch t = Gives-scan s (ok batch) (t refl)
    apply_tree-Gives LogicalPlan.empty batch t = Gives-scan empty_schema (ok batch) (t refl)
    apply_tree-Gives (LogicalPlan.project _ es s) batch t = Gives-project es s batch
    apply_tree-Gives (LogicalPlan.filter _ e s) batch t = Gives-filter e s batch
    apply_tree-Gives (LogicalPlan.aggregate _ g a s) batch t = Gives-aggregate g a s batch
    apply_tree-Gives (LogicalPlan.sort _ o s) batch t = Gives-sort o s batch
    apply_tree-Gives (LogicalPlan.limit _ n s) batch t = Gives-limit n s batch
    apply_tree-Gives (LogicalPlan.join l r on how s) batch t =
        Gives-join (output_schema l) (execute ctx r) on how s batch
    apply_tree-Gives (LogicalPlan.union xs s) batch t =
        execute_into-Gives ctx sources xs s (new_batch s)
          (record { has_schema = refl; rows_fit = tt })
    apply_tree-Gives (LogicalPlan.distinct _ s) batch t = Gives-distinct s batch

    materialize_input-IsReady :
        (plan : LogicalPlan p) (b : RecordBatch p) → materialize_input plan ≡ ok b → IsReady plan b
    unfolding materialize_input output_schema
    materialize_input-IsReady (LogicalPlan.scan _ path source _ _ s) b e leaf =
        subst (Gives s) e (sources source path s)
    materialize_input-IsReady LogicalPlan.empty b e leaf =
        subst (Gives empty_schema) e (record { has_schema = refl; rows_fit = tt })
    materialize_input-IsReady (LogicalPlan.project _ _ _) b e leaf = cc
    materialize_input-IsReady (LogicalPlan.filter _ _ _) b e leaf = cc
    materialize_input-IsReady (LogicalPlan.aggregate _ _ _ _) b e leaf = cc
    materialize_input-IsReady (LogicalPlan.sort _ _ _) b e leaf = cc
    materialize_input-IsReady (LogicalPlan.limit _ _ _) b e leaf = cc
    materialize_input-IsReady (LogicalPlan.join _ _ _ _ _) b e leaf = cc
    materialize_input-IsReady (LogicalPlan.union _ _) b e leaf = cc
    materialize_input-IsReady (LogicalPlan.distinct _ _) b e leaf = cc

    seeded-IsReady :
        (plan : LogicalPlan p) (input b : RecordBatch p)
        → IsReady plan input
        → IsReady plan b
        → IsReady plan (seeded input b)
    seeded-IsReady plan input b hi hb =
        elim (Bool-cases (batch_is_empty b && not (batch_is_empty input))) [
          | inl e ↦ rw e hi
          | inr e ↦ rw e hb
        ]

    run_from :
        (plan : LogicalPlan p) (input : RecordBatch p) (m : Result (RecordBatch p))
        → IsReady plan input
        → ((b : RecordBatch p) → m ≡ ok b → IsReady plan b)
        → Gives
            (output_schema plan)
            (or_input input m >>= λ current. apply_tree plan (seeded input current))
    unfolding or_input
    run_from plan input (ok b) hi h =
        apply_tree-Gives plan (seeded input b) (seeded-IsReady plan input b hi (h b refl))
    run_from plan input (err _) hi h =
        apply_tree-Gives plan (seeded input input) (seeded-IsReady plan input input hi hi)
    run_from plan input panic hi h = tt

    -- A batch that `execute_with_input` returns has the schema of the plan and rows that fit it, if
    -- the sources keep their contract and, where the plan is a bare scan or empty, so does the input.
    pub execute_with_input-IsTyped :
        (plan : LogicalPlan p) (input result : RecordBatch p)
        → (is_leaf plan ≡ true → IsTyped (output_schema plan) input)
        → execute_with_input plan input ≡ ok result
        → IsTyped (output_schema plan) result
    unfolding execute_with_input
    execute_with_input-IsTyped plan input result hi e =
        subst (Gives (output_schema plan)) e
          (run_from plan input (materialize_input plan) hi (materialize_input-IsReady plan))
