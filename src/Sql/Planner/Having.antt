-- ===== src/Sql/Planner/Having.antt =====
-- `rewrite_having` and `expr_strictly_matches` of crates/rspark-sql/src/planner.rs.
use rust_spark.Common.{
  ℕ, ◌==◌, Bool, true, false, ◌&&◌, Option, none, some, List, eq_ℤ, find, str_eq,
}
use rust_spark.Core.Platform.{Platform}
use rust_spark.Core.Expr.{Expr, Literal, BinaryOp, AggregateFn}

-- The derived `==` of the operators and the aggregate functions, by the place in the enumeration.
abbrev op_index : BinaryOp → ℕ
op_index BinaryOp.eq = 0
op_index BinaryOp.not_eq = 1
op_index BinaryOp.lt = 2
op_index BinaryOp.lt_eq = 3
op_index BinaryOp.gt = 4
op_index BinaryOp.gt_eq = 5
op_index BinaryOp.and = 6
op_index BinaryOp.or = 7
op_index BinaryOp.add = 8
op_index BinaryOp.sub = 9
op_index BinaryOp.mul = 10
op_index BinaryOp.div = 11
op_index BinaryOp.modulo = 12
op_index BinaryOp.like = 13

abbrev pub eq_op : BinaryOp → BinaryOp → Bool
eq_op a b = op_index a == op_index b

abbrev fn_index : AggregateFn → ℕ
fn_index AggregateFn.count = 0
fn_index AggregateFn.sum = 1
fn_index AggregateFn.avg = 2
fn_index AggregateFn.min = 3
fn_index AggregateFn.max = 4

abbrev pub eq_fn : AggregateFn → AggregateFn → Bool
eq_fn a b = fn_index a == fn_index b

abbrev pub eq_bool : Bool → Bool → Bool
eq_bool true b = b
eq_bool false true = false
eq_bool false false = true

module _ {p : Platform} where
  -- The derived `==` of literals, on floats that of `f64`.
  unfoldable pub eq_literal : Literal p → Literal p → Bool
  eq_literal Literal.null Literal.null = true
  eq_literal (Literal.bool a) (Literal.bool b) = eq_bool a b
  eq_literal (Literal.int a) (Literal.int b) = eq_ℤ a b
  eq_literal (Literal.float a) (Literal.float b) = p.eq64 a b
  eq_literal (Literal.str a) (Literal.str b) = str_eq a b
  eq_literal _ _ = false

  unfoldable pub expr_strictly_matches : Expr p → Expr p → Bool
  unfolding eq_literal
  expr_strictly_matches (Expr.aggregate fa aa da) (Expr.aggregate fb ab db) =
      eq_fn fa fb && eq_bool da db && expr_strictly_matches aa ab
  expr_strictly_matches (Expr.column a) (Expr.column b) = str_eq a b
  expr_strictly_matches (Expr.literal a) (Expr.literal b) = eq_literal a b
  expr_strictly_matches (Expr.binary oa la ra) (Expr.binary ob lb rb) =
      eq_op oa ob && expr_strictly_matches la lb && expr_strictly_matches ra rb
  expr_strictly_matches (Expr.aliased a _) b = expr_strictly_matches a b
  expr_strictly_matches a (Expr.aliased b _) = expr_strictly_matches a b
  expr_strictly_matches _ _ = false

  -- `projections.iter().find(…)`
  unfoldable pub projection_of : List (Expr p) → Expr p → Option (Expr p)
  unfolding expr_strictly_matches
  projection_of projections e = find (λ q. expr_strictly_matches q e) projections

  unfoldable pub replaced_or : Option (Expr p) → Expr p → Expr p
  replaced_or none e = e
  replaced_or (some replacement) e = replacement

  -- The source wraps the result in `Ok`, and never fails.
  unfoldable pub rewrite_having : List (Expr p) → Expr p → Expr p
  unfolding projection_of replaced_or
  rewrite_having ps (Expr.binary op l r) =
      replaced_or (projection_of ps (Expr.binary op l r))
        (Expr.binary op (rewrite_having ps l) (rewrite_having ps r))
  rewrite_having ps (Expr.not inner) =
      replaced_or (projection_of ps (Expr.not inner)) (Expr.not (rewrite_having ps inner))
  rewrite_having ps (Expr.is_null inner) =
      replaced_or (projection_of ps (Expr.is_null inner)) (Expr.is_null (rewrite_having ps inner))
  rewrite_having ps (Expr.is_not_null inner) =
      replaced_or (projection_of ps (Expr.is_not_null inner))
        (Expr.is_not_null (rewrite_having ps inner))
  rewrite_having ps e = replaced_or (projection_of ps e) e
