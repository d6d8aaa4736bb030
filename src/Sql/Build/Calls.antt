-- ===== src/Sql/Build/Calls.antt =====
-- Function calls in crates/rspark-sql/src/expr_builder.rs: `ArgSpec`, `materialize_args`, and
-- `build_function_call` from the arguments on.
use rust_spark.Common.{
  not, length, is_empty, ◌==◌, panic, Bool, Option, none, some, String, List, [], ◌∷◌, pos,
  eq_lower, ◌||◌, Error, Result, ok, err, ◌>>=◌, if◌then◌else◌,
}
use rust_spark.Core.Platform.{Platform}
use rust_spark.Core.Expr.{Expr, Literal, AggregateFn, fn_of_name}

pub data ArgSpec (p : Platform) : Type 0 where
  expr : Expr p → ArgSpec p
  wildcard : ArgSpec p

-- `args_list[0]` and `iter.next().unwrap()`: an empty list is a panic.
unfoldable pub next_arg {ℓ} : {A : Type ℓ} → List A → Result (A × List A)
next_arg [] = panic
next_arg (a ∷ rest) = ok (a, rest)

module _ {p : Platform} where
  unfoldable pub materialize_args : List (ArgSpec p) → Result (List (Expr p))
  materialize_args [] = ok []
  materialize_args (ArgSpec.expr e ∷ specs) = do rest ← materialize_args specs; ok (e ∷ rest)
  materialize_args (ArgSpec.wildcard ∷ specs) = err Error.sql

  -- `*` counts rows: the argument becomes the literal 1.
  unfoldable pub counted_arg : ArgSpec p → Expr p
  counted_arg ArgSpec.wildcard = Expr.literal (Literal.int (pos 1))
  counted_arg (ArgSpec.expr Expr.star) = Expr.literal (Literal.int (pos 1))
  counted_arg (ArgSpec.expr e) = e

  unfoldable pub build_aggregate : AggregateFn → List (ArgSpec p) → Bool → Result (Expr p)
  unfolding counted_arg next_arg
  build_aggregate func specs distinct =
      if not (length specs == 1)
      then err Error.sql
      else (do spec ← next_arg specs; ok (Expr.aggregate func (counted_arg spec.0) distinct))

  -- The loop of `coalesce`.
  unfoldable pub coalesce_from : Expr p → List (Expr p) → Expr p
  coalesce_from acc [] = acc
  coalesce_from acc (next ∷ rest) =
      coalesce_from (Expr.if_expr (Expr.is_not_null acc) acc next) rest

  unfoldable pub build_coalesce : List (Expr p) → Result (Expr p)
  unfolding coalesce_from next_arg
  build_coalesce args =
      if is_empty args
      then ok (Expr.literal Literal.null)
      else (do iter ← next_arg args; ok (coalesce_from iter.0 iter.1))

  -- `expr2` is the first argument and `expr1` the second.
  unfoldable pub build_nvl : List (Expr p) → Result (Expr p)
  unfolding next_arg
  build_nvl args = if not (length args == 2) then err Error.sql else (do
    expr2 ← next_arg args
    expr1 ← next_arg expr2.1
    ok (Expr.if_expr (Expr.is_not_null expr1.0) expr1.0 expr2.0))

  -- `abs`, `upper` and `lower` give their argument back.
  unfoldable pub build_unary : List (Expr p) → Result (Expr p)
  unfolding next_arg
  build_unary args =
      if not (length args == 1) then err Error.sql else (do iter ← next_arg args; ok iter.0)

  unfoldable pub build_scalar : String → List (Expr p) → Result (Expr p)
  unfolding build_coalesce build_nvl build_unary
  build_scalar name args =
      if eq_lower name "coalesce"
      then build_coalesce args
      else if eq_lower name "nvl"
      then build_nvl args
      else if eq_lower name "abs"
          || eq_lower name "upper"
          || eq_lower name "ucase"
          || eq_lower name "lower"
          || eq_lower name "lcase"
      then build_unary args
      else err Error.sql

  unfoldable pub build_named :
      String → Option AggregateFn → List (ArgSpec p) → Bool → Result (Expr p)
  unfolding build_aggregate build_scalar materialize_args
  build_named name (some func) specs distinct = build_aggregate func specs distinct
  build_named name none specs distinct = do args ← materialize_args specs; build_scalar name args

  unfoldable pub build_call : String → List (ArgSpec p) → Bool → Result (Expr p)
  unfolding build_named
  build_call name specs distinct = build_named name (fn_of_name name) specs distinct
