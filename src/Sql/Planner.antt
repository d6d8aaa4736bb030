-- ===== src/Sql/Planner.antt =====
-- crates/rspark-sql/src/planner.rs: from the parser's statements to logical plans. The catalog is that
-- of ShowCreate, and the text of an explained plan is a parameter.
pub mod Execution
pub mod Grouping
pub mod Having
pub mod Planned
pub mod Queries
use rust_spark.Common.{
  ℕ, Bool, true, false, not, ◌||◌, Option, none, some, String, ℤ, pos, negsuc, List, [], ◌∷◌, ◌++◌,
  map, is_empty, keep, parse_i64, Error, Result, ok, err, ◌>>=◌, if◌then◌else◌,
}
use rust_spark.Core.Platform.{Platform}
use rust_spark.Core.Schema.{Schema, DataType, Field, field, new_field}
use rust_spark.Core.Expr.{Expr, Literal}
use rust_spark.Core.Expr.Columns.{contains_aggregate}
use rust_spark.Sql.Ast.{
  SqlExpr, SqlValue, GroupByExpr, Select, OrderByExpr, Query, SetExpr, SetOperator, Statement,
}
use rust_spark.Sql.Plan.{
  LogicalPlan, LogicalPlans, JoinType, SortExpr, output_schema, build_scan_schema,
  build_project_schema, build_aggregate_schema, build_join_schema,
}
use rust_spark.Sql.ShowCreate.{Catalog}
use rust_spark.Sql.Build.{build_expr}
use rust_spark.Sql.Build.Clauses.{collect, build_select_expressions, build_from_tables}
use rust_spark.Sql.Planner.Having.{rewrite_having}

checked_limit : Option ℤ → Result ℕ
checked_limit (some (pos n)) = ok n
checked_limit (some (negsuc n)) = err Error.sql
checked_limit none = err Error.sql

unfoldable pub eval_limit : SqlExpr → Result ℕ
unfolding checked_limit
eval_limit (SqlExpr.value (SqlValue.number s)) = checked_limit (parse_i64 s)
eval_limit _ = err Error.sql

-- The fields of the left schema that the right one has too, by name.
pub shared_names : List Field → Schema → List (String × String)
shared_names [] right = []
shared_names (l ∷ ls) right =
    let rest = shared_names ls right in
    elim (field right l.name) [ some r ↦ (l.name, r.name) ∷ rest | none ↦ rest ]

unfoldable pub join_pairs : Schema → Schema → List (String × String)
unfolding shared_names
join_pairs left right = shared_names left.fields right

module _ {p : Platform} (catalog : Catalog) where
  unfoldable pub build_table_scan : String → Result (LogicalPlan p)
  build_table_scan name = do
    location ← catalog.table_location name
    schema ← catalog.table_schema name
    ok (build_scan_schema name location.0 location.1 schema)

  -- The loop over the tables after the first. `_predicate` of the source is not used.
  unfoldable pub join_tables :
      LogicalPlan p → List (String × Option String) → Result (LogicalPlan p)
  unfolding build_table_scan
  join_tables plan [] = ok plan
  join_tables plan ((name, alias) ∷ rest) = do
    right ← build_table_scan name
    let pairs = join_pairs (output_schema plan) (output_schema right)
    schema ← build_join_schema (output_schema plan) (output_schema right) pairs
    join_tables (LogicalPlan.join plan right pairs JoinType.inner schema) rest

  unfoldable pub build_from_clause : List (String × Option String) → Result (LogicalPlan p)
  unfolding join_tables
  build_from_clause [] = ok LogicalPlan.empty
  build_from_clause ((name, alias) ∷ rest) = do
    first ← build_table_scan name
    join_tables first rest

abbrev pub is_some {ℓ} : {A : Type ℓ} → Option A → Bool
is_some none = false
is_some (some _) = true

module _ {p : Platform} where
  -- The node that a clause puts over a plan, each with the plan's own schema.
  abbrev pub filtered : Expr p → LogicalPlan p → LogicalPlan p
  filtered predicate plan = LogicalPlan.filter plan predicate (output_schema plan)

  unfoldable pub apply_where : Option SqlExpr → LogicalPlan p → Result (LogicalPlan p)
  apply_where none plan = ok plan
  apply_where (some where_clause) plan = do
    predicate ← build_expr where_clause
    ok (filtered predicate plan)

  unfoldable pub apply_having :
      List (Expr p) → Option SqlExpr → LogicalPlan p → Result (LogicalPlan p)
  apply_having projections none plan = ok plan
  apply_having projections (some having) plan = do
    e ← build_expr having
    ok (filtered (rewrite_having projections e) plan)

  unfoldable pub projected : List (Expr p) → LogicalPlan p → Result (LogicalPlan p)
  projected projections plan = do
    proj_schema ← build_project_schema projections (output_schema plan)
    ok (LogicalPlan.project plan projections proj_schema)

  unfoldable pub group_exprs_of : GroupByExpr → Result (List (Expr p))
  group_exprs_of (GroupByExpr.expressions es) = collect build_expr es
  group_exprs_of GroupByExpr.all = ok []

  -- The branch with aggregates or groups.
  unfoldable pub aggregated :
      (groups aggregates projections : List (Expr p))
      → Option SqlExpr
      → LogicalPlan p
      → Result (LogicalPlan p)
  unfolding projected apply_having
  aggregated groups aggregates projections having plan = do
    agg_schema ← build_aggregate_schema groups aggregates
    new ← projected projections (LogicalPlan.aggregate plan groups aggregates agg_schema)
    apply_having projections having new

  unfoldable pub distinct_of : LogicalPlan p → LogicalPlan p
  distinct_of plan = LogicalPlan.distinct plan (output_schema plan)

  -- The three branches at the end of `plan_select`.
  unfoldable pub choose_shape :
      (groups projections : List (Expr p)) → Select → LogicalPlan p → Result (LogicalPlan p)
  unfolding aggregated projected distinct_of
  choose_shape groups projections select plan =
      let aggregates = keep contains_aggregate projections in
      if not (is_empty aggregates) || not (is_empty groups)
      then aggregated groups aggregates projections select.having plan
      else if is_some select.distinct
      then (do new ← projected projections plan; ok (distinct_of new))
      else projected projections plan

  unfoldable pub shape_select : Select → LogicalPlan p → Result (LogicalPlan p)
  unfolding choose_shape group_exprs_of
  shape_select select plan = do
    projections ← build_select_expressions select
    groups ← group_exprs_of select.group_by
    choose_shape groups projections select plan

  unfoldable pub plan_select : Catalog → Select → Result (LogicalPlan p)
  unfolding shape_select apply_where
  plan_select catalog select = do
    tables ← build_from_tables select.from
    plan ← build_from_clause catalog tables
    filtered' ← apply_where select.selection plan
    shape_select select filtered'

  build_sort_key : OrderByExpr → Result (SortExpr p)
  build_sort_key inner = do
    e ← build_expr inner.expr
    ok (record { expr = e; ascending = elim inner.asc [ some a ↦ a | none ↦ true ] })

  unfoldable pub build_sort_keys : Option (List OrderByExpr) → Result (List (SortExpr p))
  unfolding build_sort_key
  build_sort_keys none = ok []
  build_sort_keys (some order_by) = collect build_sort_key order_by

  unfoldable pub sorted_by : List (SortExpr p) → LogicalPlan p → LogicalPlan p
  sorted_by [] plan = plan
  sorted_by (key ∷ keys) plan = LogicalPlan.sort plan (key ∷ keys) (output_schema plan)

  unfoldable pub apply_limit_clause : Option SqlExpr → LogicalPlan p → Result (LogicalPlan p)
  apply_limit_clause none plan = ok plan
  apply_limit_clause (some limit) plan = do
    count ← eval_limit limit
    ok (LogicalPlan.limit plan count (output_schema plan))

  -- What `plan_query` puts over the plan of the body: the sort, and then the limit.
  unfoldable pub order_and_limit :
      Option (List OrderByExpr) → Option SqlExpr → LogicalPlan p → Result (LogicalPlan p)
  unfolding build_sort_keys sorted_by apply_limit_clause
  order_and_limit order_by limit plan = do
    sort_keys ← build_sort_keys order_by
    apply_limit_clause limit (sorted_by sort_keys plan)

  union_of : SetOperator → Result (LogicalPlan p) → Result (LogicalPlan p) → Result (LogicalPlan p)
  union_of SetOperator.union left right = do
    l ← left
    r ← right
    ok (
        LogicalPlan.union (LogicalPlans.cons l (LogicalPlans.cons r LogicalPlans.nil))
          (output_schema l))
  union_of _ left right = err Error.sql

  module _ (catalog : Catalog) where
    unfoldable mutual
      unfolding order_and_limit union_of plan_select

      pub plan_query : Query → Result (LogicalPlan p)
      plan_query (Query.of_parts true body order_by limit offset) = err Error.sql
      plan_query (Query.of_parts false body order_by limit offset) = do
        plan ← plan_setexpr body
        order_and_limit order_by limit plan

      pub plan_setexpr : SetExpr → Result (LogicalPlan p)
      plan_setexpr (SetExpr.select select) = plan_select catalog select
      plan_setexpr (SetExpr.query query) = plan_query query
      plan_setexpr (SetExpr.set_operation op _ left right) =
          union_of op (plan_setexpr left) (plan_setexpr right)
      plan_setexpr SetExpr.other = err Error.sql

    -- `debug` is the derived `Debug` text of a plan.
    unfoldable pub plan_statement : (LogicalPlan p → String) → Statement → Result (LogicalPlan p)
    unfolding plan_query
    plan_statement debug (Statement.query query) = plan_query query
    plan_statement debug (Statement.explain statement) = do
      inner ← plan_statement debug statement
      ok (
          LogicalPlan.project inner (Expr.literal (Literal.str (debug inner)) ∷ [])
            (record { fields = new_field "plan" DataType.string ∷ [] }))
    plan_statement debug Statement.show_tables = ok LogicalPlan.empty
    plan_statement debug Statement.use_database = ok LogicalPlan.empty
    plan_statement debug Statement.other = err Error.sql

    -- The loop of `plan_sql`: every statement is planned, and the last plan is kept.
    unfoldable pub plan_last :
        (LogicalPlan p → String) → Option (LogicalPlan p) → List Statement → Result (LogicalPlan p)
    unfolding plan_statement
    plan_last debug none [] = err Error.sql
    plan_last debug (some plan) [] = ok plan
    plan_last debug last_plan (stmt ∷ rest) = do
      plan ← plan_statement debug stmt
      plan_last debug (some plan) rest
