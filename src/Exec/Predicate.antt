-- ===== src/Exec/Predicate.antt =====
-- crates/rspark-exec/src/operators.rs: predicates of WHERE and HAVING.
use rust_spark.Common.{
  Bool, true, false, not, ◌&&◌, ◌||◌, String, is_less, is_equal, is_greater, Error, Result, ok, err,
  ◌>>=◌, if◌then◌else◌, none, some,
}
use rust_spark.Core.Platform.{Platform}
use rust_spark.Core.Value.{Value, is_null, eq_value, try_cmp}
use rust_spark.Core.Schema.{index_of}
use rust_spark.Core.Record.{Record, RecordBatch, get_or_null}
use rust_spark.Core.Expr.{Expr, BinaryOp, display_name}
use rust_spark.Core.Expr.Eval.{eval}

module _ {p : Platform} where
  -- `lookup_by_name`, which `substitute_aggregates` repeats in line.
  unfoldable pub lookup_by_name : String → Record p → RecordBatch p → Result (Value p)
  lookup_by_name name row batch = elim (index_of batch.schema name) [
    | none ↦ err Error.schema
    | some idx ↦ ok (get_or_null row idx)
  ]

  -- The executor's own `contains_aggregate`, which does not look into IF.
  unfoldable pub contains_aggregate : Expr p → Bool
  contains_aggregate (Expr.aggregate _ _ _) = true
  contains_aggregate (Expr.aliased e _) = contains_aggregate e
  contains_aggregate (Expr.binary _ l r) = contains_aggregate l || contains_aggregate r
  contains_aggregate (Expr.not e) = contains_aggregate e
  contains_aggregate (Expr.is_null e) = contains_aggregate e
  contains_aggregate (Expr.is_not_null e) = contains_aggregate e
  contains_aggregate _ = false

  pub and_values : Value p → Value p → Result (Value p)
  and_values (Value.boolean a) (Value.boolean b) = ok (Value.boolean (a && b))
  and_values _ _ = ok Value.null

  pub or_values : Value p → Value p → Result (Value p)
  or_values (Value.boolean a) (Value.boolean b) = ok (Value.boolean (a || b))
  or_values _ _ = ok Value.null

  unfoldable pub apply_binary_op : BinaryOp → Value p → Value p → Result (Value p)
  unfolding and_values or_values
  apply_binary_op BinaryOp.eq l r = ok (Value.boolean (eq_value l r))
  apply_binary_op BinaryOp.not_eq l r = ok (Value.boolean (not (eq_value l r)))
  apply_binary_op BinaryOp.lt l r = do o ← try_cmp l r; ok (Value.boolean (is_less o))
  apply_binary_op BinaryOp.lt_eq l r = do
    o ← try_cmp l r
    ok (Value.boolean (is_less o || is_equal o))
  apply_binary_op BinaryOp.gt l r = do o ← try_cmp l r; ok (Value.boolean (is_greater o))
  apply_binary_op BinaryOp.gt_eq l r = do
    o ← try_cmp l r
    ok (Value.boolean (is_greater o || is_equal o))
  apply_binary_op BinaryOp.and l r = and_values l r
  apply_binary_op BinaryOp.or l r = or_values l r
  apply_binary_op BinaryOp.like l r = err Error.type
  apply_binary_op _ l r = err Error.execution

  unfoldable pub substitute_aggregates : Expr p → Record p → RecordBatch p → Result (Value p)
  substitute_aggregates (Expr.aggregate f arg d) row batch =
      lookup_by_name (display_name (Expr.aggregate f arg d)) row batch
  substitute_aggregates (Expr.aliased (Expr.aggregate f arg d) alias) row batch =
      lookup_by_name (display_name (Expr.aliased (Expr.aggregate f arg d) alias)) row batch
  substitute_aggregates (Expr.aliased inner alias) row batch = eval inner row batch
  substitute_aggregates (Expr.binary op l r) row batch = do
    lv ← substitute_aggregates l row batch
    rv ← substitute_aggregates r row batch
    if is_null lv || is_null rv then ok Value.null else apply_binary_op op lv rv
  substitute_aggregates other row batch = eval other row batch

  -- Null counts as false; anything that is not a Boolean is a type error.
  unfoldable pub accept : Value p → Result Bool
  accept Value.null = ok false
  accept (Value.boolean b) = ok b
  accept _ = err Error.type

  unfoldable pub eval_predicate : Expr p → Record p → RecordBatch p → Result Bool
  unfolding accept
  eval_predicate predicate row batch =
      if contains_aggregate predicate
      then (do v ← substitute_aggregates predicate row batch; accept v)
      else (do v ← eval predicate row batch; accept v)
