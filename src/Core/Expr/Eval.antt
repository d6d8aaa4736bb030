-- ===== src/Core/Expr/Eval.antt =====
-- Evaluation of an expression against a row: `Expr::eval` and `apply_binary` of
-- crates/rspark-core/src/expr.rs. Integer overflow wraps, as in a release build.
use Prim.Native.Char.{code}
use rust_spark.Common.{
  Bool, false, not, ◌&&◌, ◌||◌, Option, none, some, String, ℤ, pos, negsuc, eq_ℤ, add_i64, sub_i64,
  mul_i64, rem_ℤ, is_less, is_equal, is_greater, ◌<>◌, ◌==◌, Error, Result, ok, err, panic, ◌>>=◌,
  if◌then◌else◌, two_63, ◌-◌,
}
use rust_spark.Core.Platform.{Platform}
use rust_spark.Core.Value.{Value, is_null, cast_to_i64, cast_to_f64, eq_value, try_cmp}
use rust_spark.Core.Schema.{index_of}
use rust_spark.Core.Record.{Record, RecordBatch, get_or_null}
use rust_spark.Core.Expr.{Expr, BinaryOp, to_value}

-- `sql_like_to_regex`
unfoldable pub sql_like_to_regex : Platform → String → String
sql_like_to_regex p String.[] = ""
sql_like_to_regex p (String.◌∷◌ c String.[]) =
    if code c == b'%'
    then ".*"
    else if code c == b'_'
    then "."
    else if code c == 92
    then ""
    else p.escape (String.◌∷◌ c "")
sql_like_to_regex p (String.◌∷◌ c (String.◌∷◌ d rest)) =
    let after_one = sql_like_to_regex p (String.◌∷◌ d rest) in
    let after_two = sql_like_to_regex p rest in
    if code c == b'%'
    then ".*" <> after_one
    else if code c == b'_'
    then "." <> after_one
    else if code c == 92
    then String.◌∷◌ c (String.◌∷◌ d after_two)
    else p.escape (String.◌∷◌ c "") <> after_one

-- `i64::MIN % -1` overflows, and Rust panics there in every build.
abbrev rem_overflows : ℤ → ℤ → Bool
rem_overflows a b = eq_ℤ a (negsuc (two_63 - 1)) && eq_ℤ b (negsuc 0)

module _ {p : Platform} where
  unfoldable pub logical_and : Value p → Value p → Result (Value p)
  logical_and (Value.boolean a) (Value.boolean b) = ok (Value.boolean (a && b))
  logical_and Value.null _ = ok Value.null
  logical_and _ Value.null = ok Value.null
  logical_and _ _ = err Error.type

  unfoldable pub logical_or : Value p → Value p → Result (Value p)
  logical_or (Value.boolean a) (Value.boolean b) = ok (Value.boolean (a || b))
  logical_or Value.null _ = ok Value.null
  logical_or _ Value.null = ok Value.null
  logical_or _ _ = err Error.type

  -- `if let (Some(a), Some(b)) = …`
  abbrev both {ℓ} :
      {A : Type ℓ}
      → Option A
      → Option A
      → (A → A → Result (Value p))
      → Result (Value p)
      → Result (Value p)
  both (some a) (some b) f other = f a b
  both _ _ f other = other

  unfoldable pub numeric_op :
      Value p → Value p → (ℤ → ℤ → ℤ) → (p.F64 → p.F64 → p.F64) → Result (Value p)
  numeric_op left right int_op float_op =
      both (cast_to_i64 left) (cast_to_i64 right) (λ a b. ok (Value.int64 (int_op a b)))
        (both (cast_to_f64 left) (cast_to_f64 right) (λ a b. ok (Value.float64 (float_op a b)))
          (err Error.type))

  unfoldable pub numeric_div : Value p → Value p → Result (Value p)
  numeric_div left right =
      both (cast_to_f64 left) (cast_to_f64 right)
        (λ a b. if p.eq64 b p.zero64 then ok Value.null else ok (Value.float64 (p.div64 a b)))
        (err Error.type)

  unfoldable pub numeric_mod : Value p → Value p → Result (Value p)
  numeric_mod left right =
      both (cast_to_i64 left) (cast_to_i64 right)
        (λ a b.
          if eq_ℤ b (pos 0)
          then ok Value.null
          else if rem_overflows a b
          then panic
          else ok (Value.int64 (rem_ℤ a b)))
        (err Error.type)

  regex_answer : Option Bool → Result (Value p)
  regex_answer none = err Error.type
  regex_answer (some b) = ok (Value.boolean b)

  unfoldable pub apply_like : Value p → Value p → Result (Value p)
  unfolding regex_answer
  apply_like (Value.string target) (Value.string pattern) =
      regex_answer (p.is_match ("^" <> sql_like_to_regex p pattern <> "$") target)
  apply_like Value.null (Value.string pattern) = ok Value.null
  apply_like _ _ = err Error.type

  unfoldable pub apply_binary : BinaryOp → Value p → Value p → Result (Value p)
  apply_binary BinaryOp.and left right = logical_and left right
  apply_binary BinaryOp.or left right = logical_or left right
  apply_binary BinaryOp.eq left right = ok (Value.boolean (eq_value left right))
  apply_binary BinaryOp.not_eq left right = ok (Value.boolean (not (eq_value left right)))
  apply_binary BinaryOp.lt left right = do o ← try_cmp left right; ok (Value.boolean (is_less o))
  apply_binary BinaryOp.lt_eq left right = do
    o ← try_cmp left right
    ok (Value.boolean (is_less o || is_equal o))
  apply_binary BinaryOp.gt left right = do o ← try_cmp left right; ok (Value.boolean (is_greater o))
  apply_binary BinaryOp.gt_eq left right = do
    o ← try_cmp left right
    ok (Value.boolean (is_greater o || is_equal o))
  apply_binary BinaryOp.like left right = apply_like left right
  apply_binary BinaryOp.add left right = numeric_op left right add_i64 p.add64
  apply_binary BinaryOp.sub left right = numeric_op left right sub_i64 p.sub64
  apply_binary BinaryOp.mul left right = numeric_op left right mul_i64 p.mul64
  apply_binary BinaryOp.div left right = numeric_div left right
  apply_binary BinaryOp.modulo left right = numeric_mod left right

  -- The column arm of `eval`.
  unfoldable pub eval_column : String → Record p → RecordBatch p → Result (Value p)
  eval_column name record' batch = elim (index_of batch.schema name) [
    | none ↦ err Error.schema
    | some idx ↦ ok (get_or_null record' idx)
  ]

  unfoldable pub negate : Value p → Result (Value p)
  negate Value.null = ok Value.null
  negate (Value.boolean b) = ok (Value.boolean (not b))
  negate _ = err Error.type

  -- `matches!(c, Value::Boolean(true))`
  unfoldable pub is_true : Value p → Bool
  is_true (Value.boolean b) = b
  is_true _ = false

  unfoldable pub eval : Expr p → Record p → RecordBatch p → Result (Value p)
  unfolding negate is_true
  eval (Expr.column name) row batch = eval_column name row batch
  eval (Expr.literal lit) row batch = ok (to_value lit)
  eval (Expr.binary op left right) row batch = do
    lv ← eval left row batch
    rv ← eval right row batch
    if is_null lv || is_null rv then ok Value.null else apply_binary op lv rv
  eval (Expr.not inner) row batch = do v ← eval inner row batch; negate v
  eval (Expr.is_null inner) row batch = do v ← eval inner row batch; ok (Value.boolean (is_null v))
  eval (Expr.is_not_null inner) row batch = do
    v ← eval inner row batch
    ok (Value.boolean (not (is_null v)))
  eval (Expr.if_expr cond then_expr else_expr) row batch =
      let taken = eval then_expr row batch in
      let other = eval else_expr row batch in
      do c ← eval cond row batch; if is_true c then taken else other
  eval (Expr.aggregate _ _ _) row batch = err Error.execution
  eval (Expr.aliased inner _) row batch = eval inner row batch
  eval Expr.star row batch = err Error.execution
