-- ===== src/Sql/Build/Safety.antt =====
-- The panics of the builder: `parts.last().unwrap()`, `args_list[0]` and the `unwrap`s of a call's
-- arguments are not reached with an empty list.
use rust_spark.Common.{
  ◌≢◌, Bool, false, Option, none, some, String, List, [], ◌∷◌, Result, ok, err, panic, ◌>>=◌, arith,
  Error,
}
use rust_spark.Core.Platform.{Platform}
use rust_spark.Core.Expr.{Expr, BinaryOp, AggregateFn, fn_of_name}
use rust_spark.Sql.Ast.{
  SqlExpr, SqlExprs, SqlValue, UnaryOperator, FunctionArguments, FunctionArgs, FunctionArg,
  FunctionArgExpr,
}
use rust_spark.Sql.Build.Calls.{
  ArgSpec, materialize_args, build_aggregate, build_coalesce, build_nvl, build_unary, next_arg,
  build_scalar, build_named, build_call,
}
use rust_spark.Sql.Build.{
  from_sql, float_literal, number_literal, literal_from_value, last_column, build_unary_op, like_of,
  comparison, build_expr, build_or_chain, build_function_call, extract_list, extract_arg,
  extract_arg_expr, is_distinct,
}

-- No compound identifier in the tree is without parts.
unfoldable mutual
  pub IsNamed : SqlExpr → Type 0
  IsNamed (SqlExpr.compound_identifier []) = ⊥
  IsNamed (SqlExpr.compound_identifier (part ∷ parts)) = Unit
  IsNamed (SqlExpr.binary_op l op r) = IsNamed l × IsNamed r
  IsNamed (SqlExpr.unary_op op e) = IsNamed e
  IsNamed (SqlExpr.is_null e) = IsNamed e
  IsNamed (SqlExpr.is_not_null e) = IsNamed e
  IsNamed (SqlExpr.is_true e) = IsNamed e
  IsNamed (SqlExpr.is_false e) = IsNamed e
  IsNamed (SqlExpr.is_not_true e) = IsNamed e
  IsNamed (SqlExpr.is_not_false e) = IsNamed e
  IsNamed (SqlExpr.nested e) = IsNamed e
  IsNamed (SqlExpr.like n e l) = IsNamed e × IsNamed l
  IsNamed (SqlExpr.ilike n e l) = IsNamed e × IsNamed l
  IsNamed (SqlExpr.between n e l h) = IsNamed e × IsNamed l × IsNamed h
  IsNamed (SqlExpr.in_list n e xs) = IsNamed e × AreNamed xs
  IsNamed (SqlExpr.function name args) = HasNamed args
  IsNamed (SqlExpr.cast e) = IsNamed e
  IsNamed _ = Unit

  pub AreNamed : SqlExprs → Type 0
  AreNamed SqlExprs.nil = Unit
  AreNamed (SqlExprs.cons x xs) = IsNamed x × AreNamed xs

  pub HasNamed : FunctionArguments → Type 0
  HasNamed (FunctionArguments.list args d) = AllNamed args
  HasNamed _ = Unit

  pub AllNamed : FunctionArgs → Type 0
  AllNamed FunctionArgs.end = Unit
  AllNamed (FunctionArgs.arg a args) = ArgNamed a × AllNamed args

  pub ArgNamed : FunctionArg → Type 0
  ArgNamed (FunctionArg.unnamed a) = ArgExprNamed a
  ArgNamed (FunctionArg.named a) = ArgExprNamed a
  ArgNamed FunctionArg.other_arg = Unit

  pub ArgExprNamed : FunctionArgExpr → Type 0
  ArgExprNamed (FunctionArgExpr.expr e) = IsNamed e
  ArgExprNamed _ = Unit

-- The computation returns or fails, and does not panic.
abbrev pub Calm {ℓ} : {A : Type ℓ} → Result A → Type 0
Calm (ok a) = Unit
Calm (err e) = Unit
Calm panic = ⊥

pub Calm-bind {ℓ κ} :
    {A : Type ℓ} {B : Type κ} (m : Result A) (f : A → Result B)
    → Calm m
    → ((a : A) → Calm (f a))
    → Calm (m >>= f)
Calm-bind (ok a) f h next = next a
Calm-bind (err e) f h next = tt
Calm-bind panic f h next = h

module _ (p : Platform) where
  literal_from_value-Calm : (v : SqlValue) → Calm (literal_from_value {p = p} v)
  unfolding literal_from_value number_literal float_literal
  literal_from_value-Calm (SqlValue.number s) = ground arith
  literal_from_value-Calm _ = ground arith

  last_column-Calm :
      (m : Result (Expr p)) (part : String) (parts : List String)
      → Calm (last_column m (part ∷ parts))
  unfolding last_column
  last_column-Calm m part [] = tt
  last_column-Calm m part (next ∷ rest) = last_column-Calm m next rest

  no_column-Calm : Calm (last_column {p = p} (err Error.sql) [])
  unfolding last_column
  no_column-Calm = tt

  build_unary_op-Calm :
      (op : UnaryOperator) (m : Result (Expr p)) → Calm m → Calm (build_unary_op op m)
  unfolding build_unary_op
  build_unary_op-Calm UnaryOperator.not m h = Calm-bind m _ h (λ e. tt)
  build_unary_op-Calm UnaryOperator.minus m h = Calm-bind m _ h (λ e. tt)
  build_unary_op-Calm UnaryOperator.plus m h = h
  build_unary_op-Calm UnaryOperator.other m h = tt

  materialize_args-Calm : (specs : List (ArgSpec p)) → Calm (materialize_args specs)
  unfolding materialize_args
  materialize_args-Calm [] = tt
  materialize_args-Calm (ArgSpec.expr e ∷ specs) =
      Calm-bind (materialize_args specs) _ (materialize_args-Calm specs) (λ rest. tt)
  materialize_args-Calm (ArgSpec.wildcard ∷ specs) = tt

  build_scalar-Calm : (name : String) (args : List (Expr p)) → Calm (build_scalar name args)
  unfolding build_scalar build_coalesce build_nvl build_unary next_arg
  build_scalar-Calm name [] = ground arith
  build_scalar-Calm name (a ∷ []) = ground arith
  build_scalar-Calm name (a ∷ (b ∷ [])) = ground arith
  build_scalar-Calm name (a ∷ (b ∷ (c ∷ args))) = ground arith

  build_named-Calm :
      (name : String) (f : Option AggregateFn) (specs : List (ArgSpec p)) (d : Bool)
      → Calm (build_named name f specs d)
  unfolding build_named build_aggregate next_arg
  build_named-Calm name (some f) [] d = tt
  build_named-Calm name (some f) (s ∷ []) d = tt
  build_named-Calm name (some f) (s ∷ (t ∷ specs)) d = ground arith
  build_named-Calm name none specs d =
      Calm-bind (materialize_args specs) _ (materialize_args-Calm specs) (build_scalar-Calm name)

  build_call-Calm :
      (name : String) (specs : List (ArgSpec p)) (d : Bool) → Calm (build_call name specs d)
  unfolding build_call
  build_call-Calm name specs d = build_named-Calm name (fn_of_name name) specs d

  comparison-Calm :
      (op : BinaryOp) (e : Expr p) (m : Result (Expr p)) → Calm m → Calm (comparison op e m)
  unfolding comparison
  comparison-Calm op e m h = Calm-bind m _ h (λ a. tt)

  like_of-Calm :
      (negated : Bool) (m n : Result (Expr p)) → Calm m → Calm n → Calm (like_of negated m n)
  unfolding like_of
  like_of-Calm negated m n h k = Calm-bind m _ h (λ a. Calm-bind n _ k (λ b. tt))

  binary-Calm :
      (op : Option BinaryOp) (m n : Result (Expr p))
      → Calm m
      → Calm n
      → Calm (elim op [
        | none ↦ err Error.sql
        | some op' ↦ (m >>= λ l. n >>= λ r. ok (Expr.binary op' l r))
      ])
  binary-Calm none m n h k = tt
  binary-Calm (some op) m n h k = Calm-bind m _ h (λ a. Calm-bind n _ k (λ b. tt))

  mutual
    unfolding build_expr IsNamed

    build_expr-Calm : (e : SqlExpr) → IsNamed e → Calm (build_expr {p = p} e)
    build_expr-Calm (SqlExpr.identifier i) h = tt
    build_expr-Calm (SqlExpr.compound_identifier []) h = absurd h
    build_expr-Calm (SqlExpr.compound_identifier (part ∷ parts)) h = last_column-Calm _ part parts
    build_expr-Calm SqlExpr.wildcard h = tt
    build_expr-Calm (SqlExpr.qualified_wildcard []) h = no_column-Calm
    build_expr-Calm (SqlExpr.qualified_wildcard (part ∷ parts)) h = last_column-Calm _ part parts
    build_expr-Calm (SqlExpr.value v) h =
        Calm-bind (literal_from_value v) _ (literal_from_value-Calm v) (λ l. tt)
    build_expr-Calm (SqlExpr.binary_op l op r) h =
        binary-Calm (from_sql op) (build_expr l) (build_expr r) (build_expr-Calm l h.0)
          (build_expr-Calm r h.1)
    build_expr-Calm (SqlExpr.unary_op op e) h =
        build_unary_op-Calm op (build_expr e) (build_expr-Calm e h)
    build_expr-Calm (SqlExpr.is_null e) h =
        Calm-bind (build_expr e) _ (build_expr-Calm e h) (λ b. tt)
    build_expr-Calm (SqlExpr.is_not_null e) h =
        Calm-bind (build_expr e) _ (build_expr-Calm e h) (λ b. tt)
    build_expr-Calm (SqlExpr.is_true e) h = comparison-Calm _ _ (build_expr e) (build_expr-Calm e h)
    build_expr-Calm (SqlExpr.is_false e) h =
        comparison-Calm _ _ (build_expr e) (build_expr-Calm e h)
    build_expr-Calm (SqlExpr.is_not_true e) h =
        comparison-Calm _ _ (build_expr e) (build_expr-Calm e h)
    build_expr-Calm (SqlExpr.is_not_false e) h =
        comparison-Calm _ _ (build_expr e) (build_expr-Calm e h)
    build_expr-Calm (SqlExpr.nested e) h = build_expr-Calm e h
    build_expr-Calm (SqlExpr.like n e l) h =
        like_of-Calm n (build_expr e) (build_expr l) (build_expr-Calm e h.0) (build_expr-Calm l h.1)
    build_expr-Calm (SqlExpr.ilike n e l) h =
        like_of-Calm n (build_expr e) (build_expr l) (build_expr-Calm e h.0) (build_expr-Calm l h.1)
    build_expr-Calm (SqlExpr.between n e l u) h =
        Calm-bind (build_expr e) _ (build_expr-Calm e h.0) λ a.
          Calm-bind (build_expr l) _ (build_expr-Calm l h.1) λ b.
            Calm-bind (build_expr e) _ (build_expr-Calm e h.0)
              λ c. Calm-bind (build_expr u) _ (build_expr-Calm u h.2) (λ d. tt)
    build_expr-Calm (SqlExpr.in_list n e xs) h =
        Calm-bind (build_expr e) _ (build_expr-Calm e h.0)
          λ t. Calm-bind (build_or_chain t none xs) _ (build_or_chain-Calm t none xs h.1) (λ c. tt)
    build_expr-Calm (SqlExpr.function name args) h = build_function_call-Calm name args h
    build_expr-Calm (SqlExpr.cast e) h = build_expr-Calm e h
    build_expr-Calm SqlExpr.subquery h = tt
    build_expr-Calm SqlExpr.other h = tt

    build_or_chain-Calm :
        (t : Expr p) (c : Option (Expr p)) (xs : SqlExprs)
        → AreNamed xs
        → Calm (build_or_chain t c xs)
    build_or_chain-Calm t c SqlExprs.nil h = tt
    build_or_chain-Calm t c (SqlExprs.cons x xs) h =
        Calm-bind (build_expr x) _ (build_expr-Calm x h.0) (λ e. build_or_chain-Calm t _ xs h.1)

    build_function_call-Calm :
        (name : String) (args : FunctionArguments)
        → HasNamed args
        → Calm (build_function_call {p = p} name args)
    build_function_call-Calm name FunctionArguments.none h = build_call-Calm name [] false
    build_function_call-Calm name FunctionArguments.subquery_arguments h = tt
    build_function_call-Calm name (FunctionArguments.list args d) h =
        Calm-bind (extract_list args) _ (extract_list-Calm args h)
          (λ specs. build_call-Calm name specs (is_distinct d))

    extract_list-Calm : (args : FunctionArgs) → AllNamed args → Calm (extract_list {p = p} args)
    extract_list-Calm FunctionArgs.end h = tt
    extract_list-Calm (FunctionArgs.arg a args) h =
        Calm-bind (extract_arg a) _ (extract_arg-Calm a h.0)
          λ s. Calm-bind (extract_list args) _ (extract_list-Calm args h.1) (λ ss. tt)

    extract_arg-Calm : (a : FunctionArg) → ArgNamed a → Calm (extract_arg {p = p} a)
    extract_arg-Calm (FunctionArg.unnamed a) h = extract_arg_expr-Calm a h
    extract_arg-Calm (FunctionArg.named a) h = extract_arg_expr-Calm a h
    extract_arg-Calm FunctionArg.other_arg h = tt

    extract_arg_expr-Calm :
        (a : FunctionArgExpr) → ArgExprNamed a → Calm (extract_arg_expr {p = p} a)
    extract_arg_expr-Calm (FunctionArgExpr.expr e) h =
        Calm-bind (build_expr e) _ (build_expr-Calm e h) (λ b. tt)
    extract_arg_expr-Calm FunctionArgExpr.wildcard_arg h = tt
    extract_arg_expr-Calm FunctionArgExpr.qualified_wildcard_arg h = tt

  Calm-ne-panic : {A : Type 0} (m : Result A) → Calm m → m ≢ panic
  Calm-ne-panic (ok a) h e = cc
  Calm-ne-panic (err x) h e = cc
  Calm-ne-panic panic h e = absurd h

  -- `build_expr` does not panic on a tree whose compound identifiers all have parts: it returns an
  -- expression or an error.
  pub build_expr-safe : (e : SqlExpr) → IsNamed e → build_expr {p = p} e ≢ panic
  build_expr-safe e h = Calm-ne-panic (build_expr e) (build_expr-Calm e h)
