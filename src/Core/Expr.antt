-- ===== src/Core/Expr.antt =====
-- crates/rspark-core/src/expr.rs: literals, operators and expressions. The children hold evaluation
-- and the walks over the columns of an expression.
pub mod Eval
pub mod Columns
pub mod Frame
pub mod Kinds
use rust_spark.Common.{
  Bool, true, false, Option, none, some, String, ℤ, ◌<>◌, ◌||◌, eq_lower, show_ℤ, show_bool,
  if◌then◌else◌,
}
use rust_spark.Core.Platform.{Platform}
use rust_spark.Core.Value.{Value}

pub data Literal (p : Platform) : Type 0 where
  null : Literal p
  bool : Bool → Literal p
  int : ℤ → Literal p
  float : p.F64 → Literal p
  str : String → Literal p

unfoldable pub to_value : {p : Platform} → Literal p → Value p
to_value Literal.null = Value.null
to_value (Literal.bool v) = Value.boolean v
to_value (Literal.int v) = Value.int64 v
to_value (Literal.float v) = Value.float64 v
to_value (Literal.str v) = Value.string v

pub data BinaryOp : Type 0 where
  eq not_eq lt lt_eq gt gt_eq and or add sub mul div modulo like : BinaryOp

-- The derived `Debug` text of an operator, which `display_name` prints.
abbrev pub debug_op : BinaryOp → String
debug_op BinaryOp.eq = "Eq"
debug_op BinaryOp.not_eq = "NotEq"
debug_op BinaryOp.lt = "Lt"
debug_op BinaryOp.lt_eq = "LtEq"
debug_op BinaryOp.gt = "Gt"
debug_op BinaryOp.gt_eq = "GtEq"
debug_op BinaryOp.and = "And"
debug_op BinaryOp.or = "Or"
debug_op BinaryOp.add = "Add"
debug_op BinaryOp.sub = "Sub"
debug_op BinaryOp.mul = "Mul"
debug_op BinaryOp.div = "Div"
debug_op BinaryOp.modulo = "Mod"
debug_op BinaryOp.like = "Like"

pub data AggregateFn : Type 0 where
  count sum avg min max : AggregateFn

unfoldable pub fn_name : AggregateFn → String
fn_name AggregateFn.count = "count"
fn_name AggregateFn.sum = "sum"
fn_name AggregateFn.avg = "avg"
fn_name AggregateFn.min = "min"
fn_name AggregateFn.max = "max"

-- `AggregateFn::from_name`
unfoldable pub fn_of_name : String → Option AggregateFn
fn_of_name name =
    if eq_lower name "count"
    then some AggregateFn.count
    else if eq_lower name "sum"
    then some AggregateFn.sum
    else if eq_lower name "avg" || eq_lower name "average" || eq_lower name "mean"
    then some AggregateFn.avg
    else if eq_lower name "min"
    then some AggregateFn.min
    else if eq_lower name "max"
    then some AggregateFn.max
    else none

pub data Expr (p : Platform) : Type 0 where
  column : String → Expr p
  literal : Literal p → Expr p
  binary : BinaryOp → Expr p → Expr p → Expr p
  not : Expr p → Expr p
  is_null : Expr p → Expr p
  is_not_null : Expr p → Expr p
  if_expr : (cond then_expr else_expr : Expr p) → Expr p
  aggregate : AggregateFn → (arg : Expr p) → (distinct : Bool) → Expr p
  aliased : Expr p → (alias : String) → Expr p
  star : Expr p

literal_name : {p : Platform} → Literal p → String
literal_name Literal.null = "NULL"
literal_name (Literal.bool v) = show_bool v
literal_name (Literal.int v) = show_ℤ v
literal_name {p} (Literal.float v) = p.show64 v
literal_name (Literal.str v) = v

unfoldable pub display_name : {p : Platform} → Expr p → String
unfolding literal_name fn_name
display_name (Expr.column name) = name
display_name (Expr.literal lit) = literal_name lit
display_name (Expr.binary op left right) =
    display_name left <> " " <> debug_op op <> " " <> display_name right
display_name (Expr.not inner) = "NOT " <> display_name inner
display_name (Expr.is_null inner) = display_name inner <> " IS NULL"
display_name (Expr.is_not_null inner) = display_name inner <> " IS NOT NULL"
display_name (Expr.if_expr _ _ _) = "if"
display_name (Expr.aggregate func arg _) = fn_name func <> "(" <> display_name arg <> ")"
display_name (Expr.aliased _ alias) = alias
display_name Expr.star = "*"
