-- ===== src/Sql/Planner/Execution.antt =====
-- Planned queries, executed: LIMIT, WHERE, and HAVING over the output of an aggregation.
use mathlib.Core.Path.{subst}
use mathlib.Core.List.{append-nil}
use rust_spark.Common.{
  ℕ, ◌≡◌, refl, ap, sym, ◌∙◌, false, Option, none, some, String, List, [], ◌∷◌, ◌++◌, take, Result,
  ok, err, panic, ◌>>=◌, >>=-eq-ok, ok-injective,
}
use rust_spark.Core.Platform.{Platform}
use rust_spark.Core.Schema.{Schema}
use rust_spark.Core.Record.{Record, RecordBatch, from_records}
use rust_spark.Core.Record.Valid.{from_records-IsTyped}
use rust_spark.Core.Expr.{Expr}
use rust_spark.Sql.Ast.{
  SqlExpr, Select, SelectItem, OrderByExpr, Query, SetExpr, TableFactor, GroupByExpr,
}
use rust_spark.Sql.Plan.{LogicalPlan, output_schema, build_scan_schema, build_project_schema}
use rust_spark.Core.Expr.Columns.{contains_aggregate}
use rust_spark.Sql.Build.{build_expr}
use rust_spark.Sql.Build.Clauses.{build_from_tables, build_select_expressions}
use rust_spark.Sql.ShowCreate.{Catalog}
use rust_spark.Sql.Planner.{
  eval_limit, plan_query, plan_setexpr, order_and_limit, apply_limit_clause, build_sort_keys,
  sorted_by, plan_select, build_from_clause, join_tables, build_table_scan, apply_where,
  shape_select, group_exprs_of, choose_shape, projected,
}
use rust_spark.Exec.Executor.{
  ExecutionContext, execute, apply_limit, apply_scan, apply_filter, apply_project, filter_rows,
}
use rust_spark.Exec.Sort.{limit_batch}

-- `SELECT * FROM name WHERE …`
abbrev pub all_where : String → SqlExpr → Select
all_where name w = record {
  distinct = none;
  projection = SelectItem.wildcard ∷ [];
  from = record { relation = TableFactor.table name none; joins = [] } ∷ [];
  selection = some w;
  group_by = GroupByExpr.expressions [];
  having = none;
}

abbrev pub all_where_plan :
    {p : Platform} → (name path source : String) → Schema → Expr p → LogicalPlan p
all_where_plan name path source s e =
    LogicalPlan.project (LogicalPlan.filter (LogicalPlan.scan name path source none none s) e s)
      (Expr.star ∷ []) (record { fields = s.fields ++ [] })

module _ {p : Platform} (catalog : Catalog) (ctx : ExecutionContext p) where
  apply_limit-take :
      (n : ℕ) (s : Schema) (x b : RecordBatch p)
      → apply_limit n s x ≡ ok b
      → b.records ≡ take n x.records
  unfolding apply_limit limit_batch
  apply_limit-take n s x b h =
      let (t, limited, made) = >>=-eq-ok (from_records x.schema (take n x.records)) _ h in
      (from_records-IsTyped s t.records made).1
      ∙ (from_records-IsTyped x.schema (take n x.records) limited).1

  -- A query with LIMIT that plans and executes returns the first rows of the same query without the
  -- limit, which plans and executes too: as many as the limit says, or all of them. OFFSET is not read.
  pub plan_query_limit :
      (body : SetExpr) (order_by : Option (List OrderByExpr)) (limit : SqlExpr)
      (offset : Option SqlExpr) (plan : LogicalPlan p) (b : RecordBatch p)
      → plan_query catalog (Query.of_parts false body order_by (some limit) offset) ≡ ok plan
      → execute ctx plan ≡ ok b
      → (n : ℕ) × (all : LogicalPlan p) × (whole : RecordBatch p) × (eval_limit limit ≡ ok n)
        × (plan_query catalog (Query.of_parts false body order_by none offset) ≡ ok all)
        × (execute ctx all ≡ ok whole)
        × (b.records ≡ take n whole.records)
  unfolding plan_query order_and_limit apply_limit_clause execute
  plan_query_limit body order_by limit offset plan b planned ran =
      let (x, body_plans, e1) = >>=-eq-ok (plan_setexpr catalog body) _ planned in
      let (keys, keys_build, e2) = >>=-eq-ok (build_sort_keys order_by) _ e1 in
      let (n, counted, e3) = >>=-eq-ok (eval_limit limit) _ e2 in
      let ran' = subst (λ q. execute ctx q ≡ ok b) (sym (ok-injective e3)) ran in
      let (whole, inner, limited) = >>=-eq-ok (execute ctx (sorted_by keys x)) _ ran' in
      (
        n,
        sorted_by keys x,
        whole,
        counted,
        rw (body_plans, keys_build) refl,
        inner,
        apply_limit-take n _ whole b limited,
      )

  all_where-plans :
      (name path source : String) (s : Schema) (w : SqlExpr) (e : Expr p)
      → catalog.table_location name ≡ ok (path, source)
      → catalog.table_schema name ≡ ok s
      → build_expr w ≡ ok e
      → plan_select catalog (all_where name w) ≡ ok (all_where_plan name path source s e)
  unfolding plan_select build_from_tables build_from_clause join_tables build_table_scan apply_where
      shape_select build_select_expressions group_exprs_of choose_shape projected
      build_project_schema output_schema build_scan_schema contains_aggregate
  all_where-plans name path source s w e located schemed built = rw (located, schemed, built) refl

  -- Validating rows that were validated against the same schema changes nothing.
  from_records_twice :
      (s : Schema) (rows : List (Record p))
      → (from_records s rows >>= λ kept. from_records s kept.records) ≡ from_records s rows
  from_records_twice s rows = go (from_records s rows) refl
    where
      go :
          (m : Result (RecordBatch p))
          → from_records s rows ≡ m
          → (m >>= λ kept. from_records s kept.records) ≡ m
      go (ok kept) e = ap (from_records s) (from_records-IsTyped s rows e).1 ∙ e
      go (err x) e = refl
      go panic e = refl

  all_where-runs :
      (name path source : String) (s : Schema) (e : Expr p) (table : RecordBatch p)
      → ctx.scan_source source path s ≡ ok table
      → execute ctx (all_where_plan name path source s e) ≡ (
          filter_rows e (apply_scan s table) (apply_scan s table).records >>= λ rows.
          from_records s rows)
  unfolding execute apply_project apply_filter
  all_where-runs name path source s e table scanned =
      rw (scanned, append-nil s.fields)
        (go (filter_rows e (apply_scan s table) (apply_scan s table).records))
    where
      go :
          (m : Result (List (Record p)))
          → ((m >>= λ rows. from_records s rows) >>= λ kept. from_records s kept.records)
            ≡ (m >>= λ rows. from_records s rows)
      go (ok rows) = from_records_twice s rows
      go (err x) = refl
      go panic = refl

  -- For a table of the catalog that the source can scan, and a condition that builds, planning and
  -- executing `SELECT * FROM name WHERE …` is filtering the scanned rows by the condition and checking
  -- them against the table's schema, in every outcome.
  pub plan_select_where :
      (name path source : String) (s : Schema) (w : SqlExpr) (e : Expr p) (table : RecordBatch p)
      → catalog.table_location name ≡ ok (path, source)
      → catalog.table_schema name ≡ ok s
      → build_expr w ≡ ok e
      → ctx.scan_source source path s ≡ ok table
      → (plan_select catalog (all_where name w) >>= λ plan. execute ctx plan) ≡ (
          filter_rows e (apply_scan s table) (apply_scan s table).records >>= λ rows.
          from_records s rows)
  plan_select_where name path source s w e table located schemed built scanned =
      rw (all_where-plans name path source s w e located schemed built)
        (all_where-runs name path source s e table scanned)
