-- ===== src/Core/Expr/Kinds.antt =====
-- Which kinds of values the operators produce.
use rust_spark.Common.{Bool, Result, ok, ◌>>=◌, arith}
use rust_spark.Core.Platform.{Platform}
use rust_spark.Core.Value.{Value, try_cmp}
use rust_spark.Core.Expr.{BinaryOp}
use rust_spark.Core.Expr.Eval.{apply_binary, logical_and, logical_or, apply_like}

abbrev pub IsTest : BinaryOp → Type 0
IsTest BinaryOp.add = ⊥
IsTest BinaryOp.sub = ⊥
IsTest BinaryOp.mul = ⊥
IsTest BinaryOp.div = ⊥
IsTest BinaryOp.modulo = ⊥
IsTest _ = Unit

module _ {p : Platform} where
  abbrev pub IsBooleanOrNull : Value p → Type 0
  IsBooleanOrNull (Value.boolean _) = Unit
  IsBooleanOrNull Value.null = Unit
  IsBooleanOrNull _ = ⊥

  abbrev pub OnOk : (Value p → Type 0) → Result (Value p) → Type 0
  OnOk P (ok v) = P v
  OnOk P _ = Unit

bind_boolean :
    (p : Platform) {A : Type 0} (m : Result A) (f : A → Bool)
    → OnOk {p = p} IsBooleanOrNull (m >>= λ a. ok (Value.boolean (f a)))
bind_boolean p m f = ground arith

module _ {p : Platform} where
  and_kind : (a b : Value p) → OnOk IsBooleanOrNull (logical_and a b)
  unfolding logical_and
  and_kind a b = ground arith

  or_kind : (a b : Value p) → OnOk IsBooleanOrNull (logical_or a b)
  unfolding logical_or
  or_kind a b = ground arith

  like_kind : (a b : Value p) → OnOk IsBooleanOrNull (apply_like a b)
  unfolding apply_like
  like_kind a b = ground arith

  -- A comparison, a logical operator or LIKE that succeeds yields a Boolean or null, never another kind.
  pub apply_binary_test :
      (op : BinaryOp) (a b : Value p) → IsTest op → OnOk IsBooleanOrNull (apply_binary op a b)
  unfolding apply_binary
  apply_binary_test BinaryOp.eq a b t = tt
  apply_binary_test BinaryOp.not_eq a b t = tt
  apply_binary_test BinaryOp.lt a b t = bind_boolean p (try_cmp a b) _
  apply_binary_test BinaryOp.lt_eq a b t = bind_boolean p (try_cmp a b) _
  apply_binary_test BinaryOp.gt a b t = bind_boolean p (try_cmp a b) _
  apply_binary_test BinaryOp.gt_eq a b t = bind_boolean p (try_cmp a b) _
  apply_binary_test BinaryOp.and a b t = and_kind a b
  apply_binary_test BinaryOp.or a b t = or_kind a b
  apply_binary_test BinaryOp.like a b t = like_kind a b
  apply_binary_test BinaryOp.add a b t = absurd t
  apply_binary_test BinaryOp.sub a b t = absurd t
  apply_binary_test BinaryOp.mul a b t = absurd t
  apply_binary_test BinaryOp.div a b t = absurd t
  apply_binary_test BinaryOp.modulo a b t = absurd t
