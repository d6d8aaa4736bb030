-- ===== src/Sql/Plan.antt =====
-- crates/rspark-sql/src/plan.rs: logical plans, their schemas and the tables they read.
pub mod Refs
use rust_spark.Common.{
  ℕ, Bool, Option, none, String, List, [], ◌∷◌, ◌++◌, map, any, str_eq, Result, ok, if◌then◌else◌,
}
use rust_spark.Core.Platform.{Platform}
use rust_spark.Core.Schema.{DataType, Field, Schema, new_field, eq_type, empty_schema}
use rust_spark.Core.Expr.{Expr, Literal, BinaryOp, AggregateFn, display_name}

pub data JoinType : Type 0 where
  inner left right full : JoinType

pub record SortExpr (p : Platform) : Type 0 where
  pub expr : Expr p
  pub ascending : Bool

-- `Vec<LogicalPlan>` is the second type of the block.
mutual
  pub data LogicalPlan (p : Platform) : Type 0 where
    scan :
        (table_name path source : String)
        → (projection : Option (List (Expr p))) → (filter : Option (Expr p)) → (schema : Schema)
        → LogicalPlan p
    project : LogicalPlan p → (expressions : List (Expr p)) → (schema : Schema) → LogicalPlan p
    filter : LogicalPlan p → (predicate : Expr p) → (schema : Schema) → LogicalPlan p
    aggregate :
        LogicalPlan p
        → (group_exprs aggregate_exprs : List (Expr p)) → (schema : Schema) → LogicalPlan p
    sort : LogicalPlan p → (order : List (SortExpr p)) → (schema : Schema) → LogicalPlan p
    limit : LogicalPlan p → (count : ℕ) → (schema : Schema) → LogicalPlan p
    join :
        (left right : LogicalPlan p)
        → (on : List (String × String)) → (how : JoinType) → (schema : Schema) → LogicalPlan p
    union : LogicalPlans p → (schema : Schema) → LogicalPlan p
    distinct : LogicalPlan p → (schema : Schema) → LogicalPlan p
    empty : LogicalPlan p

  pub data LogicalPlans (p : Platform) : Type 0 where
    nil : LogicalPlans p
    cons : LogicalPlan p → LogicalPlans p → LogicalPlans p

unfoldable pub output_schema : {p : Platform} → LogicalPlan p → Schema
output_schema (LogicalPlan.scan _ _ _ _ _ s) = s
output_schema (LogicalPlan.project _ _ s) = s
output_schema (LogicalPlan.filter _ _ s) = s
output_schema (LogicalPlan.aggregate _ _ _ s) = s
output_schema (LogicalPlan.sort _ _ s) = s
output_schema (LogicalPlan.limit _ _ s) = s
output_schema (LogicalPlan.join _ _ _ _ s) = s
output_schema (LogicalPlan.union _ s) = s
output_schema (LogicalPlan.distinct _ s) = s
output_schema LogicalPlan.empty = empty_schema

abbrev pub plan_list : {p : Platform} → LogicalPlans p → List (LogicalPlan p)
plan_list LogicalPlans.nil = []
plan_list (LogicalPlans.cons x xs) = x ∷ plan_list xs

unfoldable pub children : {p : Platform} → LogicalPlan p → List (LogicalPlan p)
children (LogicalPlan.project x _ _) = x ∷ []
children (LogicalPlan.filter x _ _) = x ∷ []
children (LogicalPlan.aggregate x _ _ _) = x ∷ []
children (LogicalPlan.sort x _ _) = x ∷ []
children (LogicalPlan.limit x _ _) = x ∷ []
children (LogicalPlan.distinct x _) = x ∷ []
children (LogicalPlan.join l r _ _ _) = l ∷ r ∷ []
children (LogicalPlan.union xs _) = plan_list xs
children (LogicalPlan.scan _ _ _ _ _ _) = []
children LogicalPlan.empty = []

-- `if !out.iter().any(|t| t == table_name) { out.push(…) }`
unfoldable pub push_new : String → List String → List String
push_new name out = if any (λ t. str_eq t name) out then out else out ++ name ∷ []

unfoldable mutual
  pub collect_table_refs_into : {p : Platform} → LogicalPlan p → List String → List String
  collect_table_refs_into (LogicalPlan.scan name _ _ _ _ _) out = push_new name out
  collect_table_refs_into (LogicalPlan.project x _ _) out = collect_table_refs_into x out
  collect_table_refs_into (LogicalPlan.filter x _ _) out = collect_table_refs_into x out
  collect_table_refs_into (LogicalPlan.aggregate x _ _ _) out = collect_table_refs_into x out
  collect_table_refs_into (LogicalPlan.sort x _ _) out = collect_table_refs_into x out
  collect_table_refs_into (LogicalPlan.limit x _ _) out = collect_table_refs_into x out
  collect_table_refs_into (LogicalPlan.distinct x _) out = collect_table_refs_into x out
  collect_table_refs_into (LogicalPlan.join l r _ _ _) out =
      collect_table_refs_into r (collect_table_refs_into l out)
  collect_table_refs_into (LogicalPlan.union xs _) out = collect_all_refs xs out
  collect_table_refs_into LogicalPlan.empty out = out

  pub collect_all_refs : {p : Platform} → LogicalPlans p → List String → List String
  collect_all_refs LogicalPlans.nil out = out
  collect_all_refs (LogicalPlans.cons x xs) out =
      collect_all_refs xs (collect_table_refs_into x out)

unfoldable pub collect_table_refs : {p : Platform} → LogicalPlan p → List String
collect_table_refs plan = collect_table_refs_into plan []

abbrev literal_type : {p : Platform} → Literal p → DataType
literal_type Literal.null = DataType.null
literal_type (Literal.bool _) = DataType.boolean
literal_type (Literal.int _) = DataType.int64
literal_type (Literal.float _) = DataType.float64
literal_type (Literal.str _) = DataType.string

abbrev aggregate_type : AggregateFn → DataType
aggregate_type AggregateFn.count = DataType.int64
aggregate_type AggregateFn.sum = DataType.float64
aggregate_type AggregateFn.avg = DataType.float64
aggregate_type AggregateFn.min = DataType.string
aggregate_type AggregateFn.max = DataType.string

abbrev pub binary_type : BinaryOp → DataType
binary_type BinaryOp.add = DataType.float64
binary_type BinaryOp.sub = DataType.float64
binary_type BinaryOp.mul = DataType.float64
binary_type BinaryOp.div = DataType.float64
binary_type BinaryOp.modulo = DataType.float64
binary_type _ = DataType.boolean

unfoldable pub infer_data_type : {p : Platform} → Expr p → DataType
unfolding eq_type
infer_data_type (Expr.literal lit) = literal_type lit
infer_data_type (Expr.aggregate func _ _) = aggregate_type func
infer_data_type (Expr.binary op _ _) = binary_type op
infer_data_type (Expr.not _) = DataType.boolean
infer_data_type (Expr.is_null _) = DataType.boolean
infer_data_type (Expr.is_not_null _) = DataType.boolean
infer_data_type (Expr.if_expr _ then_expr else_expr) =
    let then_ty = infer_data_type then_expr in
    if eq_type then_ty (infer_data_type else_expr) then then_ty else DataType.string
infer_data_type (Expr.column _) = DataType.string
infer_data_type Expr.star = DataType.string
infer_data_type (Expr.aliased e _) = infer_data_type e

-- `rename_table` returns the schema as it is.
unfoldable pub build_scan_schema :
    {p : Platform} → (name path source : String) → Schema → LogicalPlan p
build_scan_schema name path source s = LogicalPlan.scan name path source none none s

module _ {p : Platform} where
  -- The fields that one expression of a projection adds.
  project_fields : Schema → Expr p → List Field
  project_fields input Expr.star = input.fields
  project_fields input e = new_field (display_name e) (infer_data_type e) ∷ []

  fields_of : Schema → List (Expr p) → List Field
  unfolding project_fields
  fields_of input [] = []
  fields_of input (e ∷ es) = project_fields input e ++ fields_of input es

  unfoldable pub build_project_schema : List (Expr p) → Schema → Result Schema
  unfolding fields_of
  build_project_schema es input = ok (record { fields = fields_of input es })

  unfoldable pub build_aggregate_schema : List (Expr p) → List (Expr p) → Result Schema
  build_aggregate_schema groups aggs = ok (record {
    fields =
        map (λ g. new_field (display_name g) (infer_data_type g)) groups
        ++ map (λ a. new_field (display_name a) (infer_data_type a)) aggs;
  })

unfoldable pub fields_not_joined : List (String × String) → List Field → List Field
fields_not_joined on [] = []
fields_not_joined on (f ∷ fs) =
    let rest = fields_not_joined on fs in
    if any (λ pair. str_eq pair.0 f.name) on then rest else f ∷ rest

unfoldable pub build_join_schema : Schema → Schema → List (String × String) → Result Schema
unfolding fields_not_joined
build_join_schema l r on = ok (record { fields = l.fields ++ fields_not_joined on r.fields })
