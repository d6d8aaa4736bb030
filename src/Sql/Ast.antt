-- ===== src/Sql/Ast.antt =====
-- The syntax tree of the `sqlparser` crate, as far as crates/rspark-sql reads it. A variant that the
-- source does not name is `other`, and a field that it does not read is left out; `OFFSET` is kept,
-- to say that it is not read.
use rust_spark.Common.{Bool, Option, String, List}

-- `Number` holds the digits as text.
pub data SqlValue : Type 0 where
  null : SqlValue
  boolean : Bool → SqlValue
  number : String → SqlValue
  single_quoted_string double_quoted_string : String → SqlValue
  national_string_literal hex_string_literal : String → SqlValue
  other : SqlValue

pub data BinaryOperator : Type 0 where
  plus minus multiply divide modulo string_concat : BinaryOperator
  eq not_eq lt lt_eq gt gt_eq and or other : BinaryOperator

pub data UnaryOperator : Type 0 where
  not minus plus other : UnaryOperator

pub data DuplicateTreatment : Type 0 where
  distinct all : DuplicateTreatment

-- An `Ident` is its value, and an `ObjectName` its text. A list of expressions is a type of the
-- block, whose constructors all have names of their own.
mutual
  pub data SqlExpr : Type 0 where
    identifier : String → SqlExpr
    compound_identifier : (parts : List String) → SqlExpr
    wildcard : SqlExpr
    qualified_wildcard : (parts : List String) → SqlExpr
    value : SqlValue → SqlExpr
    binary_op : (left : SqlExpr) → BinaryOperator → (right : SqlExpr) → SqlExpr
    unary_op : UnaryOperator → SqlExpr → SqlExpr
    is_null is_not_null is_true is_false is_not_true is_not_false nested : SqlExpr → SqlExpr
    like ilike : (negated : Bool) → (expr pattern' : SqlExpr) → SqlExpr
    between : (negated : Bool) → (expr low high : SqlExpr) → SqlExpr
    in_list : (negated : Bool) → (expr : SqlExpr) → (list : SqlExprs) → SqlExpr
    function : (name : String) → (args : FunctionArguments) → SqlExpr
    cast : SqlExpr → SqlExpr
    subquery other : SqlExpr

  pub data SqlExprs : Type 0 where
    nil : SqlExprs
    cons : SqlExpr → SqlExprs → SqlExprs

  pub data FunctionArguments : Type 0 where
    none subquery_arguments : FunctionArguments
    list : FunctionArgs → Option DuplicateTreatment → FunctionArguments

  pub data FunctionArgs : Type 0 where
    end : FunctionArgs
    arg : FunctionArg → FunctionArgs → FunctionArgs

  pub data FunctionArg : Type 0 where
    unnamed named : FunctionArgExpr → FunctionArg
    other_arg : FunctionArg

  pub data FunctionArgExpr : Type 0 where
    expr : SqlExpr → FunctionArgExpr
    qualified_wildcard_arg wildcard_arg : FunctionArgExpr

pub data SelectItem : Type 0 where
  unnamed_expr : SqlExpr → SelectItem
  expr_with_alias : SqlExpr → (alias : String) → SelectItem
  qualified_wildcard wildcard : SelectItem

pub data GroupByExpr : Type 0 where
  all : GroupByExpr
  expressions : List SqlExpr → GroupByExpr

pub data JoinConstraint : Type 0 where
  on : SqlExpr → JoinConstraint
  using_idents : (idents : List String) → JoinConstraint
  natural none : JoinConstraint

pub data JoinOperator : Type 0 where
  inner left_outer right_outer full_outer : JoinConstraint → JoinOperator
  left_semi right_semi left_anti right_anti : JoinConstraint → JoinOperator
  cross_join other : JoinOperator

pub data TableFactor : Type 0 where
  table : (name : String) → (alias : Option String) → TableFactor
  other : TableFactor

pub record Join : Type 0 where
  pub relation : TableFactor
  pub join_operator : JoinOperator

pub record TableWithJoins : Type 0 where
  pub relation : TableFactor
  pub joins : List Join

pub data Distinct : Type 0 where
  distinct : Distinct
  on : List SqlExpr → Distinct

pub record Select : Type 0 where
  pub distinct : Option Distinct
  pub projection : List SelectItem
  pub from : List TableWithJoins
  pub selection : Option SqlExpr
  pub group_by : GroupByExpr
  pub having : Option SqlExpr

pub record OrderByExpr : Type 0 where
  pub expr : SqlExpr
  pub asc : Option Bool

pub data SetOperator : Type 0 where
  union except intersect : SetOperator

pub data SetQuantifier : Type 0 where
  all distinct none other : SetQuantifier

-- `order_by` holds the expressions of the clause, and `with_clause` says that there is one.
mutual
  pub data Query : Type 0 where
    of_parts :
        (with_clause : Bool)
        → (body : SetExpr) → (order_by : Option (List OrderByExpr))
        → (limit offset : Option SqlExpr) → Query

  pub data SetExpr : Type 0 where
    select : Select → SetExpr
    query : Query → SetExpr
    set_operation : SetOperator → SetQuantifier → (left right : SetExpr) → SetExpr
    other : SetExpr

pub data Statement : Type 0 where
  query : Query → Statement
  explain : Statement → Statement
  show_tables use_database other : Statement
