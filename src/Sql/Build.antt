-- ===== src/Sql/Build.antt =====
-- crates/rspark-sql/src/expr_builder.rs: from the parser's expressions to the engine's. The children
-- hold function calls, the clauses of a SELECT, and what the built expressions evaluate to.
pub mod Calls
pub mod Clauses
pub mod Meaning
pub mod Membership
pub mod Safety
use rust_spark.Common.{
  Bool, true, false, Option, none, some, String, List, [], ◌∷◌, pos, parse_i64, Error, Result, ok,
  err, panic, ◌>>=◌, if◌then◌else◌,
}
use rust_spark.Core.Platform.{Platform}
use rust_spark.Core.Value.{Value}
use rust_spark.Core.Expr.{Expr, BinaryOp, Literal}
use rust_spark.Sql.Ast.{
  SqlExpr, SqlExprs, SqlValue, BinaryOperator, UnaryOperator, DuplicateTreatment, FunctionArguments,
  FunctionArgs, FunctionArg, FunctionArgExpr,
}
use rust_spark.Sql.Build.Calls.{ArgSpec, build_call}

-- `BinaryOp::from_sql` of crates/rspark-core/src/expr.rs.
unfoldable pub from_sql : BinaryOperator → Option BinaryOp
from_sql BinaryOperator.plus = some BinaryOp.add
from_sql BinaryOperator.minus = some BinaryOp.sub
from_sql BinaryOperator.multiply = some BinaryOp.mul
from_sql BinaryOperator.divide = some BinaryOp.div
from_sql BinaryOperator.modulo = some BinaryOp.modulo
from_sql BinaryOperator.eq = some BinaryOp.eq
from_sql BinaryOperator.not_eq = some BinaryOp.not_eq
from_sql BinaryOperator.lt = some BinaryOp.lt
from_sql BinaryOperator.lt_eq = some BinaryOp.lt_eq
from_sql BinaryOperator.gt = some BinaryOp.gt
from_sql BinaryOperator.gt_eq = some BinaryOp.gt_eq
from_sql BinaryOperator.and = some BinaryOp.and
from_sql BinaryOperator.or = some BinaryOp.or
from_sql BinaryOperator.string_concat = some BinaryOp.add
from_sql BinaryOperator.other = none

unfoldable pub is_commutative_op : BinaryOp → Bool
is_commutative_op BinaryOp.eq = true
is_commutative_op BinaryOp.not_eq = true
is_commutative_op BinaryOp.add = true
is_commutative_op BinaryOp.mul = true
is_commutative_op _ = false

unfoldable pub binary_op_name : BinaryOperator → String
binary_op_name BinaryOperator.plus = "+"
binary_op_name BinaryOperator.minus = "-"
binary_op_name BinaryOperator.multiply = "*"
binary_op_name BinaryOperator.divide = "/"
binary_op_name BinaryOperator.modulo = "%"
binary_op_name BinaryOperator.string_concat = "||"
binary_op_name BinaryOperator.eq = "="
binary_op_name BinaryOperator.not_eq = "<>"
binary_op_name BinaryOperator.lt = "<"
binary_op_name BinaryOperator.lt_eq = "<="
binary_op_name BinaryOperator.gt = ">"
binary_op_name BinaryOperator.gt_eq = ">="
binary_op_name BinaryOperator.and = "AND"
binary_op_name BinaryOperator.or = "OR"
binary_op_name BinaryOperator.other = "?"

-- `matches!(duplicate_treatment, Some(Distinct))`
unfoldable pub is_distinct : Option DuplicateTreatment → Bool
is_distinct (some DuplicateTreatment.distinct) = true
is_distinct _ = false

module _ {p : Platform} where
  abbrev pub true_lit : Expr p
  true_lit = Expr.literal (Literal.bool true)

  abbrev pub false_lit : Expr p
  false_lit = Expr.literal (Literal.bool false)

  abbrev pub from_value : Value p → Literal p
  from_value Value.null = Literal.null
  from_value (Value.boolean b) = Literal.bool b
  from_value (Value.int32 i) = Literal.int i
  from_value (Value.int64 i) = Literal.int i
  from_value (Value.float32 f) = Literal.float (p.widen f)
  from_value (Value.float64 f) = Literal.float f
  from_value (Value.string s) = Literal.str s

  float_literal : Option p.F64 → Result (Literal p)
  float_literal (some f) = ok (Literal.float f)
  float_literal none = err Error.sql

  -- `s.parse::<i64>()`, and a float where that fails.
  unfoldable pub number_literal : String → Result (Literal p)
  unfolding float_literal
  number_literal s = elim (parse_i64 s) [
    | some int_val ↦ ok (Literal.int int_val)
    | none ↦ float_literal (p.parse64 s)
  ]

  unfoldable pub literal_from_value : SqlValue → Result (Literal p)
  unfolding number_literal
  literal_from_value SqlValue.null = ok Literal.null
  literal_from_value (SqlValue.boolean b) = ok (Literal.bool b)
  literal_from_value (SqlValue.number s) = number_literal s
  literal_from_value (SqlValue.single_quoted_string s) = ok (Literal.str s)
  literal_from_value (SqlValue.double_quoted_string s) = ok (Literal.str s)
  literal_from_value (SqlValue.national_string_literal s) = ok (Literal.str s)
  literal_from_value (SqlValue.hex_string_literal s) = ok (Literal.str s)
  literal_from_value SqlValue.other = err Error.sql

  unfoldable pub negated_if : Bool → Expr p → Expr p
  negated_if negated e = if negated then Expr.not e else e

  -- One round of the loop over an IN list.
  unfoldable pub or_next : Option (Expr p) → Expr p → Expr p
  or_next none cmp = cmp
  or_next (some prev) cmp = Expr.binary BinaryOp.or prev cmp

  -- `or_chain.unwrap_or(Expr::lit(false))`
  unfoldable pub or_false : Option (Expr p) → Expr p
  or_false none = false_lit
  or_false (some e) = e

  -- `parts.last()`, with `none_result` for an empty list.
  unfoldable pub last_column : Result (Expr p) → List String → Result (Expr p)
  last_column none_result [] = none_result
  last_column none_result (part ∷ []) = ok (Expr.column part)
  last_column none_result (part ∷ (next ∷ rest)) = last_column none_result (next ∷ rest)

  -- The argument of a unary operator is built where the operator is supported.
  unfoldable pub build_unary_op : UnaryOperator → Result (Expr p) → Result (Expr p)
  build_unary_op UnaryOperator.not inner = do e ← inner; ok (Expr.not e)
  build_unary_op UnaryOperator.minus inner = do
    e ← inner
    ok (Expr.binary BinaryOp.sub (Expr.literal (Literal.int (pos 0))) e)
  build_unary_op UnaryOperator.plus inner = inner
  build_unary_op UnaryOperator.other inner = err Error.sql

  like_of : Bool → Result (Expr p) → Result (Expr p) → Result (Expr p)
  unfolding negated_if
  like_of negated target pattern' = do
    e ← target
    like ← pattern'
    ok (negated_if negated (Expr.binary BinaryOp.like e like))

  comparison : BinaryOp → Expr p → Result (Expr p) → Result (Expr p)
  comparison op with' inner = do e ← inner; ok (Expr.binary op e with')

module _ {p : Platform} where
  unfoldable mutual
    unfolding comparison like_of

    pub build_expr : SqlExpr → Result (Expr p)
    build_expr (SqlExpr.identifier ident) = ok (Expr.column ident)
    build_expr (SqlExpr.compound_identifier parts) = last_column panic parts
    build_expr SqlExpr.wildcard = ok Expr.star
    build_expr (SqlExpr.qualified_wildcard parts) = last_column (err Error.sql) parts
    build_expr (SqlExpr.value v) = do lit ← literal_from_value v; ok (Expr.literal lit)
    build_expr (SqlExpr.binary_op left op right) = elim (from_sql op) [
      | none ↦ err Error.sql
      | some op' ↦ do l ← build_expr left; r ← build_expr right; ok (Expr.binary op' l r)
    ]
    build_expr (SqlExpr.unary_op op inner) = build_unary_op op (build_expr inner)
    build_expr (SqlExpr.is_null inner) = do e ← build_expr inner; ok (Expr.is_null e)
    build_expr (SqlExpr.is_not_null inner) = do e ← build_expr inner; ok (Expr.is_not_null e)
    build_expr (SqlExpr.is_true inner) = comparison BinaryOp.eq true_lit (build_expr inner)
    build_expr (SqlExpr.is_false inner) = comparison BinaryOp.eq false_lit (build_expr inner)
    build_expr (SqlExpr.is_not_true inner) = comparison BinaryOp.not_eq true_lit (build_expr inner)
    build_expr (SqlExpr.is_not_false inner) =
        comparison BinaryOp.not_eq false_lit (build_expr inner)
    build_expr (SqlExpr.nested inner) = build_expr inner
    build_expr (SqlExpr.like negated e pattern') =
        like_of negated (build_expr e) (build_expr pattern')
    build_expr (SqlExpr.ilike negated e pattern') =
        like_of negated (build_expr e) (build_expr pattern')
    build_expr (SqlExpr.between negated e low high) = do
      e1 ← build_expr e
      l ← build_expr low
      e2 ← build_expr e
      h ← build_expr high
      let ge = Expr.binary BinaryOp.gt_eq e1 l
      let le = Expr.binary BinaryOp.lt_eq e2 h
      ok (negated_if negated (Expr.binary BinaryOp.and ge le))
    build_expr (SqlExpr.in_list negated e list) = do
      target ← build_expr e
      or_chain ← build_or_chain target none list
      ok (negated_if negated (or_false or_chain))
    build_expr (SqlExpr.function name args) = build_function_call name args
    build_expr (SqlExpr.cast e) = build_expr e
    build_expr SqlExpr.subquery = err Error.sql
    build_expr SqlExpr.other = err Error.sql

    -- The loop of `InList`; its second argument is `or_chain`.
    pub build_or_chain : Expr p → Option (Expr p) → SqlExprs → Result (Option (Expr p))
    build_or_chain target or_chain SqlExprs.nil = ok or_chain
    build_or_chain target or_chain (SqlExprs.cons item rest) = do
      e ← build_expr item
      build_or_chain target (some (or_next or_chain (Expr.binary BinaryOp.eq target e))) rest

    -- `extract_args`, with the rest of `build_function_call` on what it gives.
    pub build_function_call : String → FunctionArguments → Result (Expr p)
    build_function_call name FunctionArguments.none = build_call name [] false
    build_function_call name FunctionArguments.subquery_arguments = err Error.sql
    build_function_call name (FunctionArguments.list args duplicate_treatment) = do
      specs ← extract_list args
      build_call name specs (is_distinct duplicate_treatment)

    -- The loop of `extract_args`.
    pub extract_list : FunctionArgs → Result (List (ArgSpec p))
    extract_list FunctionArgs.end = ok []
    extract_list (FunctionArgs.arg a rest) = do
      spec ← extract_arg a
      specs ← extract_list rest
      ok (spec ∷ specs)

    pub extract_arg : FunctionArg → Result (ArgSpec p)
    extract_arg (FunctionArg.unnamed a) = extract_arg_expr a
    extract_arg (FunctionArg.named a) = extract_arg_expr a
    extract_arg FunctionArg.other_arg = err Error.sql

    pub extract_arg_expr : FunctionArgExpr → Result (ArgSpec p)
    extract_arg_expr (FunctionArgExpr.expr e) = do built ← build_expr e; ok (ArgSpec.expr built)
    extract_arg_expr FunctionArgExpr.wildcard_arg = ok ArgSpec.wildcard
    extract_arg_expr FunctionArgExpr.qualified_wildcard_arg = err Error.sql
