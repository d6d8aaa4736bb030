-- ===== src/Exec/Executor/Typed.antt =====
-- What the executor returns has the schema of the plan, and rows that fit it.
use mathlib.Core.Path.{subst}
use rust_spark.Common.{
  ℕ, ◌≡◌, refl, sym, ◌&&◌, List, [], is_empty, any, length, ◌==◌, String, Result, ok, err, panic,
  ◌>>=◌, All, Bool-cases, inl, inr,
}
use rust_spark.Core.Platform.{Platform}
use rust_spark.Core.Schema.{Schema, empty_schema}
use rust_spark.Core.Record.{Record, RecordBatch, new_batch, from_records, extend}
use rust_spark.Core.Record.Valid.{IsTyped, IsWellFormed, Fits, from_records-IsTyped, extend-IsTyped}
use rust_spark.Core.Expr.{Expr}
use rust_spark.Sql.Plan.{LogicalPlan, LogicalPlans, JoinType, SortExpr, output_schema}
use rust_spark.Exec.Aggregate.{aggregate_batch, group_rows}
use rust_spark.Exec.Sort.{sort_batch, limit_batch}
use rust_spark.Exec.Join.{Pairs, join_batches}
use rust_spark.Exec.Distinct.{apply_distinct, distinct_rows}
use rust_spark.Exec.Executor.{
  ExecutionContext, is_star, project_rows, filter_rows, apply_scan, apply_project, apply_filter,
  apply_sort, apply_limit, apply_join, execute, execute_first, execute_into,
}

module _ {p : Platform} where
  -- Every batch that the computation may return is typed by the schema.
  abbrev pub Gives : Schema → Result (RecordBatch p) → Type 0
  Gives s (ok b) = IsTyped s b
  Gives s _ = Unit

  pub Gives-bind :
      {A : Type 0} (s : Schema) (m : Result A) (f : A → Result (RecordBatch p))
      → ((a : A) → Gives s (f a))
      → Gives s (m >>= f)
  Gives-bind s (ok a) f h = h a
  Gives-bind s (err e) f h = tt
  Gives-bind s panic f h = tt

  pub Gives-from_records : (s : Schema) (rs : List (Record p)) → Gives s (from_records s rs)
  Gives-from_records s rs = go (from_records s rs) refl
    where
      go : (m : Result (RecordBatch p)) → from_records s rs ≡ m → Gives s m
      go (ok b) e = (from_records-IsTyped s rs e).0
      go (err x) e = tt
      go panic e = tt

  pub Gives-project :
      (es : List (Expr p)) (s : Schema) (b : RecordBatch p) → Gives s (apply_project es s b)
  unfolding apply_project
  Gives-project es s b = elim (Bool-cases (any is_star es && (length es == 1))) [
    | inl e ↦ rw e (Gives-from_records s b.records)
    | inr e ↦
        rw e (Gives-bind s (project_rows es s b b.records) _ (λ rows. Gives-from_records s rows))
  ]

  pub Gives-filter : (e : Expr p) (s : Schema) (b : RecordBatch p) → Gives s (apply_filter e s b)
  unfolding apply_filter
  Gives-filter e s b =
      Gives-bind s (filter_rows e b b.records) _ (λ rows. Gives-from_records s rows)

  pub Gives-sort :
      (order : List (SortExpr p)) (s : Schema) (b : RecordBatch p) → Gives s (apply_sort order s b)
  unfolding apply_sort
  Gives-sort order s b = Gives-bind s (sort_batch b order) _ (λ t. Gives-from_records s t.records)

  pub Gives-limit : (n : ℕ) (s : Schema) (b : RecordBatch p) → Gives s (apply_limit n s b)
  unfolding apply_limit
  Gives-limit n s b = Gives-bind s (limit_batch b n) _ (λ t. Gives-from_records s t.records)

  pub Gives-join :
      (ls : Schema) (r : Result (RecordBatch p)) (on : Pairs) (how : JoinType) (s : Schema)
      (b : RecordBatch p)
      → Gives s (apply_join ls r on how s b)
  unfolding apply_join
  Gives-join ls r on how s b = Gives-bind s (extend (new_batch ls) b) _ λ lb.
      Gives-bind s r _
        λ rb. Gives-bind s (join_batches lb rb on how) _ λ j. Gives-from_records s j.records

  pub Gives-aggregate :
      (groups aggs : List (Expr p)) (s : Schema) (b : RecordBatch p)
      → Gives s (aggregate_batch groups aggs b s)
  unfolding aggregate_batch
  Gives-aggregate groups aggs s b =
      Gives-bind s (group_rows groups aggs b [] b.records) _ (λ m. Gives-from_records s _)

  pub Gives-distinct : (s : Schema) (b : RecordBatch p) → Gives s (apply_distinct s b)
  unfolding apply_distinct
  Gives-distinct s b = Gives-from_records s (distinct_rows [] b.records)

  typed-IsWellFormed : (s : Schema) (b : RecordBatch p) → IsTyped s b → IsWellFormed b
  typed-IsWellFormed s b t = subst (λ q. All (Fits q) b.records) (sym t.has_schema) t.rows_fit

  pub Gives-scan :
      (s : Schema) (m : Result (RecordBatch p))
      → Gives s m
      → Gives s (m >>= λ b. ok (apply_scan s b))
  unfolding apply_scan
  Gives-scan s (ok b) t = elim (Bool-cases (is_empty b.records)) [
    | inl e ↦ rw e (record { has_schema = refl; rows_fit = tt })
    | inr e ↦ rw e t
  ]
  Gives-scan s (err e) t = tt
  Gives-scan s panic t = tt

module _ {p : Platform} (s t : Schema) (b : RecordBatch p) (typed : IsTyped s b) where
  -- Extending a typed batch by what a typed computation gives, and going on from there.
  Gives-extend :
      (m : Result (RecordBatch p)) (k : RecordBatch p → Result (RecordBatch p))
      → Gives t m
      → ((d : RecordBatch p) → IsTyped s d → Gives s (k d))
      → Gives s (m >>= λ c. extend b c >>= k)
  Gives-extend (ok c) k h next = go (extend b c) refl
    where
      go : (r : Result (RecordBatch p)) → extend b c ≡ r → Gives s (r >>= k)
      go (ok d) e = next d (extend-IsTyped s b c d typed (typed-IsWellFormed t c h) e).0
      go (err x) e = tt
      go panic e = tt
  Gives-extend (err e) k h next = tt
  Gives-extend panic k h next = tt

-- The contract of `DataSource::scan` with a schema: the batch that it reads carries that schema,
-- and its rows passed validation.
abbrev pub SourcesTyped : {p : Platform} → ExecutionContext p → Type 0
SourcesTyped ctx = (source path : String) (s : Schema) → Gives s (ctx.scan_source source path s)

module _ {p : Platform} (ctx : ExecutionContext p) (sources : SourcesTyped ctx) where
  mutual
    unfolding execute output_schema

    execute-Gives : (plan : LogicalPlan p) → Gives (output_schema plan) (execute ctx plan)
    execute-Gives (LogicalPlan.scan t path source pr f s) = Gives-scan s _ (sources source path s)
    execute-Gives LogicalPlan.empty =
        Gives-scan empty_schema (ok (new_batch empty_schema))
          (record { has_schema = refl; rows_fit = tt })
    execute-Gives (LogicalPlan.project x es s) =
        Gives-bind s (execute ctx x) _ (λ b. Gives-project es s b)
    execute-Gives (LogicalPlan.filter x e s) =
        Gives-bind s (execute ctx x) _ (λ b. Gives-filter e s b)
    execute-Gives (LogicalPlan.aggregate x g a s) =
        Gives-bind s (execute ctx x) _ (λ b. Gives-aggregate g a s b)
    execute-Gives (LogicalPlan.sort x o s) = Gives-bind s (execute ctx x) _ (λ b. Gives-sort o s b)
    execute-Gives (LogicalPlan.limit x n s) =
        Gives-bind s (execute ctx x) _ (λ b. Gives-limit n s b)
    execute-Gives (LogicalPlan.join l r on how s) =
        Gives-bind s (execute ctx l) _
          (λ b. Gives-join (output_schema l) (execute ctx r) on how s b)
    execute-Gives (LogicalPlan.union xs s) =
        Gives-bind s (execute_first ctx xs s) _
          (λ b. execute_into-Gives xs s (new_batch s) (record { has_schema = refl; rows_fit = tt }))
    execute-Gives (LogicalPlan.distinct x s) =
        Gives-bind s (execute ctx x) _ (λ b. Gives-distinct s b)

    pub execute_into-Gives :
        (xs : LogicalPlans p) (s : Schema) (b : RecordBatch p)
        → IsTyped s b
        → Gives s (execute_into ctx xs b)
    execute_into-Gives LogicalPlans.nil s b t = t
    execute_into-Gives (LogicalPlans.cons x xs) s b t =
        Gives-extend s (output_schema x) b t (execute ctx x) (execute_into ctx xs) (execute-Gives x)
          (λ d td. execute_into-Gives xs s d td)

  -- Whatever the plan, a batch that `execute` returns has the schema that the planner gave the
  -- plan, and every row fits it, if the sources keep their contract.
  pub execute-IsTyped :
      (plan : LogicalPlan p) (b : RecordBatch p)
      → execute ctx plan ≡ ok b
      → IsTyped (output_schema plan) b
  execute-IsTyped plan b e = subst (Gives (output_schema plan)) e (execute-Gives plan)
