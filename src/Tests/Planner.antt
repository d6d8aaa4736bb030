-- ===== src/Tests/Planner.antt =====
-- Planned statements at concrete inputs.
use rust_spark.Common.{
  Ordering, ℕ, ◌≡◌, refl, true, false, not, ◌||◌, Bool, some, none, String, List, [], ◌∷◌, pos,
  str_eq, if◌then◌else◌, Error, Result, ok, err, panic, ◌≢◌, ◌>>=◌, is_less, is_greater, Ordering,
  take, Option,
}
use rust_spark.Core.Value.{Value}
use rust_spark.Core.Schema.{DataType}
use rust_spark.Core.Record.{RecordBatch, Record, from_records}
use rust_spark.Core.Expr.{Expr, Literal, BinaryOp, AggregateFn}
use rust_spark.Core.Expr.Eval.{eval}
use rust_spark.Sql.Ast.{
  FunctionArg, FunctionArgs, FunctionArgExpr, FunctionArguments, SqlExpr, SqlExprs, SqlValue,
  BinaryOperator, Query, SetExpr,
}
use rust_spark.Sql.ShowCreate.{Catalog}
use rust_spark.Sql.Plan.{LogicalPlan, collect_table_refs}
use rust_spark.Sql.Plan.Refs.{listed}
use rust_spark.Sql.Build.{build_expr}
use rust_spark.Sql.Build.Calls.{build_coalesce}
use rust_spark.Sql.Build.Meaning.{build_coalesce-first}
use rust_spark.Sql.Build.Membership.{build_expr-in_list, build_expr-between}
use rust_spark.Sql.Build.Safety.{build_expr-safe}
use rust_spark.Sql.Planner.{plan_query, plan_select, eval_limit}
use rust_spark.Sql.Planner.Planned.{IsPlanned}
use rust_spark.Sql.Planner.Queries.{plan_query-IsPlanned, plan_query-tables, IsTable}
use rust_spark.Sql.Planner.Execution.{
  all_where, all_where_plan, plan_select_where, plan_query_limit,
}
use rust_spark.Sql.Planner.Having.{expr_strictly_matches, rewrite_having}
use rust_spark.Sql.Planner.Grouping.{rewrite_having-column}
use rust_spark.Exec.Executor.{execute, filter_rows, apply_scan}
use rust_spark.Exec.Predicate.{eval_predicate}
use rust_spark.Tests.Samples.{whole, people, ann, bob, cid, table, shop}

abbrev tables : Catalog
tables = record {
  table_schema = λ name. if str_eq name "people" then ok people else err Error.not_found;
  table_location =
      λ name. if str_eq name "people" then ok ("people.csv", "csv") else err Error.not_found;
}

-- `age > 20`
abbrev over_20 : SqlExpr
over_20 =
    SqlExpr.binary_op (SqlExpr.identifier "age") BinaryOperator.gt
      (SqlExpr.value (SqlValue.number "20"))

abbrev over_20' : Expr whole
over_20' = Expr.binary BinaryOp.gt (Expr.column "age") (Expr.literal (Literal.int (pos 20)))

builds : build_expr over_20 ≡ ok over_20'
unfolding build_expr rust_spark.Sql.Build.from_sql rust_spark.Sql.Build.literal_from_value
    rust_spark.Common.parse_i64
builds = refl

plan_select_where_example :
    (plan_select tables (all_where "people" over_20) >>= λ plan. execute shop plan) ≡ (
      filter_rows over_20' (apply_scan people table) (apply_scan people table).records >>= λ rows.
      from_records people rows)
unfolding from_records
plan_select_where_example =
    plan_select_where tables shop "people" "people.csv" "csv" people over_20 over_20' table refl
      refl builds refl

-- `SELECT * FROM people WHERE age > 20 LIMIT 1`
abbrev limited : Query
limited =
    Query.of_parts false (SetExpr.select (all_where "people" over_20)) none
      (some (SqlExpr.value (SqlValue.number "1"))) none

abbrev oldest : LogicalPlan whole
oldest = LogicalPlan.limit (all_where_plan "people" "people.csv" "csv" people over_20') 1 people

abbrev one : RecordBatch whole
one = record { schema = people; records = ann ∷ [] }

plans : plan_query tables limited ≡ ok oldest
unfolding plan_query rust_spark.Sql.Build.Clauses.build_from_tables
    rust_spark.Sql.Planner.build_from_clause build_expr rust_spark.Sql.Build.from_sql
    rust_spark.Sql.Build.literal_from_value rust_spark.Common.parse_i64
    rust_spark.Sql.Build.Clauses.build_select_expressions
    rust_spark.Core.Expr.Columns.contains_aggregate rust_spark.Sql.Plan.build_project_schema
    eval_limit rust_spark.Sql.Plan.build_scan_schema rust_spark.Sql.Plan.output_schema
plans = refl

runs : execute shop oldest ≡ ok one
unfolding execute from_records rust_spark.Exec.Executor.apply_filter apply_scan eval_predicate
    rust_spark.Exec.Predicate.contains_aggregate eval rust_spark.Core.Expr.Eval.eval_column
    rust_spark.Core.Schema.index_of rust_spark.Core.Record.get_or_null rust_spark.Core.Expr.to_value
    rust_spark.Core.Expr.Eval.apply_binary rust_spark.Core.Value.try_cmp
    rust_spark.Exec.Executor.apply_project rust_spark.Exec.Executor.apply_limit
    rust_spark.Exec.Sort.limit_batch
runs = refl

plan_query-IsPlanned_example : IsPlanned whole tables oldest
plan_query-IsPlanned_example = plan_query-IsPlanned whole tables limited oldest plans

reads : listed "people" (collect_table_refs oldest) ≡ true
unfolding collect_table_refs rust_spark.Sql.Plan.collect_table_refs_into
    rust_spark.Sql.Plan.push_new
reads = refl

plan_query-tables_example : IsTable whole tables "people"
plan_query-tables_example = plan_query-tables whole tables limited oldest plans "people" reads

plan_query_limit_example :
    (n : ℕ) × (all : LogicalPlan whole) × (whole' : RecordBatch whole) × (eval_limit
        (SqlExpr.value (SqlValue.number "1"))
      ≡ ok n)
    × (plan_query tables
          (Query.of_parts false (SetExpr.select (all_where "people" over_20)) none none none)
        ≡ ok all)
    × (execute shop all ≡ ok whole')
    × (one.records ≡ take n whole'.records)
plan_query_limit_example =
    plan_query_limit tables shop (SetExpr.select (all_where "people" over_20)) none
      (SqlExpr.value (SqlValue.number "1")) none oldest one plans runs

-- `COUNT(*)` and `COUNT(*) AS n`
abbrev counted : Expr whole
counted = Expr.aggregate AggregateFn.count (Expr.literal (Literal.int (pos 1))) false

abbrev named_n : Expr whole
named_n = Expr.aliased counted "n"

abbrev number : String → SqlExpr
number s = SqlExpr.value (SqlValue.number s)

abbrev ages : SqlExprs
ages = SqlExprs.cons (number "3") (SqlExprs.cons (number "7") SqlExprs.nil)

reads_age : eval (Expr.column "age") cid table ≡ ok (Value.int64 (pos 7))
unfolding eval rust_spark.Core.Expr.Eval.eval_column rust_spark.Core.Schema.index_of
    rust_spark.Core.Record.get_or_null
reads_age = refl

build_expr-in_list_example :
    (e : Expr whole) × (build_expr (SqlExpr.in_list true (SqlExpr.identifier "age") ages) ≡ ok e)
    × (eval e cid table ≡ ok (Value.boolean false))
unfolding build_expr rust_spark.Sql.Build.literal_from_value rust_spark.Common.parse_i64 eval
    rust_spark.Core.Expr.to_value rust_spark.Core.Value.is_null rust_spark.Core.Value.eq_value
build_expr-in_list_example =
    build_expr-in_list cid table true (SqlExpr.identifier "age") ages (Expr.column "age")
      (Value.int64 (pos 7)) (Value.int64 (pos 3) ∷ Value.int64 (pos 7) ∷ []) refl reads_age
      ((_, refl, refl), ((_, refl, refl), tt))

build_expr-between_example :
    (r : Expr whole) × (build_expr
        (SqlExpr.between true (SqlExpr.identifier "age") (number "3") (number "5"))
      ≡ ok r)
    × (eval r cid table ≡ ok (Value.boolean true))
unfolding build_expr rust_spark.Sql.Build.literal_from_value rust_spark.Common.parse_i64 eval
    rust_spark.Core.Expr.to_value rust_spark.Core.Value.is_null rust_spark.Core.Value.try_cmp
build_expr-between_example =
    build_expr-between cid table true (SqlExpr.identifier "age") (number "3") (number "5")
      (Expr.column "age") (Expr.literal (Literal.int (pos 3))) (Expr.literal (Literal.int (pos 5)))
      (Value.int64 (pos 7)) (Value.int64 (pos 3)) (Value.int64 (pos 5)) Ordering.gt Ordering.gt refl
      refl refl reads_age refl refl refl refl refl

build_coalesce-first_example :
    (e : Expr whole) × (build_coalesce (Expr.column "age" ∷ Expr.column "name" ∷ []) ≡ ok e)
    × (eval e bob table ≡ ok (Value.string "bob"))
unfolding eval rust_spark.Core.Expr.Eval.eval_column rust_spark.Core.Schema.index_of
    rust_spark.Core.Record.get_or_null rust_spark.Core.Value.is_null
build_coalesce-first_example =
    build_coalesce-first bob table (Expr.column "age" ∷ Expr.column "name" ∷ [])
      (Value.null ∷ Value.string "bob" ∷ []) (refl, (refl, tt))

-- COALESCE(p.age, NVL(p.age, 1)), with two compound identifiers.
abbrev p_age : SqlExpr
p_age = SqlExpr.compound_identifier ("p" ∷ "age" ∷ [])

abbrev argument : SqlExpr → FunctionArg
argument e = FunctionArg.unnamed (FunctionArgExpr.expr e)

abbrev nvl_call : SqlExpr
nvl_call = SqlExpr.function "nvl" (
    FunctionArguments.list
      (FunctionArgs.arg (argument p_age)
        (FunctionArgs.arg (argument (SqlExpr.value (SqlValue.number "1"))) FunctionArgs.end))
      none)

abbrev coalesce_call : SqlExpr
coalesce_call = SqlExpr.function "coalesce" (
    FunctionArguments.list
      (FunctionArgs.arg (argument p_age) (FunctionArgs.arg (argument nvl_call) FunctionArgs.end))
      none)

build_expr-safe_example : build_expr {p = whole} coalesce_call ≢ panic
unfolding rust_spark.Sql.Build.Safety.IsNamed
build_expr-safe_example = build_expr-safe whole coalesce_call (tt, ((tt, (tt, tt)), tt))

-- The output of `SELECT COUNT(*) AS n …`, and `HAVING COUNT(*) > 2`.
abbrev counts : RecordBatch whole
counts = record {
  schema = record {
    fields = record { name = "n"; data_type = DataType.int64; nullable = true } ∷ [];
  };
  records = [];
}

abbrev three : Record whole
three = record { values = Value.int64 (pos 3) ∷ [] }

rewrite_having-column_example :
    eval_predicate
      (rewrite_having
        (named_n ∷ [])
        (Expr.binary BinaryOp.gt counted (Expr.literal (Literal.int (pos 2)))))
      three
      counts
    ≡ ok true
unfolding rust_spark.Sql.Planner.Having.projection_of rust_spark.Sql.Planner.Having.replaced_or
    rust_spark.Exec.Predicate.lookup_by_name rust_spark.Core.Schema.index_of
    rust_spark.Core.Expr.display_name rust_spark.Core.Value.is_null
    rust_spark.Core.Record.get_or_null rust_spark.Core.Expr.to_value
    rust_spark.Exec.Predicate.apply_binary_op rust_spark.Core.Value.try_cmp
    rust_spark.Exec.Predicate.accept
rewrite_having-column_example =
    rewrite_having-column (named_n ∷ []) BinaryOp.gt AggregateFn.count
      (Expr.literal (Literal.int (pos 1))) false (Literal.int (pos 2)) three counts refl refl tt
