-- ===== src/Exec/Physical.antt =====
-- crates/rspark-exec/src/operators.rs: the physical operators, and `lower_plan`.
use rust_spark.Common.{ℕ, ◌≡◌, refl, String, List}
use rust_spark.Core.Platform.{Platform}
use rust_spark.Core.Schema.{Schema, empty_schema}
use rust_spark.Core.Expr.{Expr}
use rust_spark.Sql.Plan.{LogicalPlan, JoinType, SortExpr, output_schema}

-- The structs `ScanOp` to `JoinOp` are the arguments of the constructors.
pub data PhysicalOp (p : Platform) : Type 0 where
  scan : (path source : String) → (schema : Schema) → PhysicalOp p
  project : (expressions : List (Expr p)) → (schema : Schema) → PhysicalOp p
  filter : (predicate : Expr p) → (schema : Schema) → PhysicalOp p
  aggregate : (group_exprs aggregate_exprs : List (Expr p)) → (schema : Schema) → PhysicalOp p
  sort : (order : List (SortExpr p)) → (schema : Schema) → PhysicalOp p
  limit : (count : ℕ) → (schema : Schema) → PhysicalOp p
  join : (on : List (String × String)) → (how : JoinType) → (schema : Schema) → PhysicalOp p

module _ {p : Platform} where
  -- `PhysicalOp::output_schema`
  unfoldable pub op_schema : PhysicalOp p → Schema
  op_schema (PhysicalOp.scan _ _ s) = s
  op_schema (PhysicalOp.project _ s) = s
  op_schema (PhysicalOp.filter _ s) = s
  op_schema (PhysicalOp.aggregate _ _ s) = s
  op_schema (PhysicalOp.sort _ s) = s
  op_schema (PhysicalOp.limit _ s) = s
  op_schema (PhysicalOp.join _ _ s) = s

  unfoldable pub lower_plan : LogicalPlan p → PhysicalOp p
  lower_plan (LogicalPlan.scan _ path source _ _ s) = PhysicalOp.scan path source s
  lower_plan (LogicalPlan.project _ es s) = PhysicalOp.project es s
  lower_plan (LogicalPlan.filter _ e s) = PhysicalOp.filter e s
  lower_plan (LogicalPlan.aggregate _ groups aggs s) = PhysicalOp.aggregate groups aggs s
  lower_plan (LogicalPlan.sort _ order s) = PhysicalOp.sort order s
  lower_plan (LogicalPlan.limit _ n s) = PhysicalOp.limit n s
  lower_plan (LogicalPlan.join _ _ on how s) = PhysicalOp.join on how s
  lower_plan (LogicalPlan.union _ s) = PhysicalOp.limit 0 s
  lower_plan (LogicalPlan.distinct _ s) = PhysicalOp.limit 0 s
  lower_plan LogicalPlan.empty = PhysicalOp.limit 0 empty_schema

  -- Lowering a plan keeps its output schema.
  pub op_schema-lower_plan :
      (plan : LogicalPlan p) → op_schema (lower_plan plan) ≡ output_schema plan
  unfolding op_schema lower_plan output_schema
  op_schema-lower_plan (LogicalPlan.scan _ _ _ _ _ _) = refl
  op_schema-lower_plan (LogicalPlan.project _ _ _) = refl
  op_schema-lower_plan (LogicalPlan.filter _ _ _) = refl
  op_schema-lower_plan (LogicalPlan.aggregate _ _ _ _) = refl
  op_schema-lower_plan (LogicalPlan.sort _ _ _) = refl
  op_schema-lower_plan (LogicalPlan.limit _ _ _) = refl
  op_schema-lower_plan (LogicalPlan.join _ _ _ _ _) = refl
  op_schema-lower_plan (LogicalPlan.union _ _) = refl
  op_schema-lower_plan (LogicalPlan.distinct _ _) = refl
  op_schema-lower_plan LogicalPlan.empty = refl
