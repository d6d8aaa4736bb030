-- ===== src/Sql/Build/Clauses.antt =====
-- The clauses of a SELECT in crates/rspark-sql/src/expr_builder.rs: projections, grouping, joins and
-- the tables of FROM.
use rust_spark.Common.{
  Option, none, some, String, List, [], ◌∷◌, ◌++◌, map, ◌<>◌, Error, Result, ok, err, ◌>>=◌,
}
use rust_spark.Core.Platform.{Platform}
use rust_spark.Core.Expr.{Expr, BinaryOp}
use rust_spark.Sql.Ast.{
  SelectItem, Select, GroupByExpr, JoinConstraint, JoinOperator, TableFactor, Join, TableWithJoins,
}
use rust_spark.Sql.Build.{build_expr, true_lit}

-- A loop of `?` that pushes each result.
abbrev pub collect {ℓ κ} : {A : Type ℓ} {B : Type κ} → (A → Result B) → List A → Result (List B)
collect f [] = ok []
collect f (x ∷ xs) = do first ← f x; rest ← collect f xs; ok (first ∷ rest)

module _ {p : Platform} where
  unfoldable pub build_select_item : SelectItem → Result (Expr p)
  build_select_item (SelectItem.unnamed_expr e) = build_expr e
  build_select_item (SelectItem.expr_with_alias e alias) = do
    inner ← build_expr e
    ok (Expr.aliased inner alias)
  build_select_item SelectItem.qualified_wildcard = ok Expr.star
  build_select_item SelectItem.wildcard = ok Expr.star

  unfoldable pub build_select_expressions : Select → Result (List (Expr p))
  unfolding build_select_item
  build_select_expressions select = collect build_select_item select.projection

  unfoldable pub build_group_by : GroupByExpr → Result (List (Expr p))
  build_group_by GroupByExpr.all = ok []
  build_group_by (GroupByExpr.expressions es) = collect build_expr es

  unfoldable pub and_from : Expr p → List (Expr p) → Expr p
  and_from acc [] = acc
  and_from acc (next ∷ rest) = and_from (Expr.binary BinaryOp.and acc next) rest

  unfoldable pub combine_and : List (Expr p) → Expr p
  unfolding and_from
  combine_and [] = true_lit
  combine_and (first ∷ rest) = and_from first rest

  unfoldable pub qualified : Option String → String → Expr p
  qualified (some alias) name = Expr.column (alias <> "." <> name)
  qualified none name = Expr.column name

  unfoldable pub build_join_constraint :
      JoinConstraint → (left_alias right_alias : Option String) → Result (Option (Expr p))
  unfolding combine_and qualified
  build_join_constraint (JoinConstraint.on e) left_alias right_alias = do
    built ← build_expr e
    ok (some built)
  build_join_constraint (JoinConstraint.using_idents idents) left_alias right_alias =
      let equal = λ (name : String).
        Expr.binary BinaryOp.eq (qualified left_alias name) (qualified right_alias name) in
      ok (some (combine_and (map equal idents)))
  build_join_constraint JoinConstraint.natural left_alias right_alias = ok none
  build_join_constraint JoinConstraint.none left_alias right_alias = ok none

-- The list of column names that the source also returns is always empty, and no caller reads it.
unfoldable pub build_table_factor : TableFactor → Result (String × Option String)
build_table_factor (TableFactor.table name alias) = ok (name, alias)
build_table_factor TableFactor.other = err Error.sql

pub data JoinKind : Type 0 where
  inner left right full : JoinKind

unfoldable pub build_join_operator : JoinOperator → JoinKind
build_join_operator (JoinOperator.inner _) = JoinKind.inner
build_join_operator (JoinOperator.left_outer _) = JoinKind.left
build_join_operator (JoinOperator.right_outer _) = JoinKind.right
build_join_operator (JoinOperator.full_outer _) = JoinKind.full
build_join_operator JoinOperator.cross_join = JoinKind.inner
build_join_operator (JoinOperator.left_semi _) = JoinKind.inner
build_join_operator (JoinOperator.right_semi _) = JoinKind.inner
build_join_operator (JoinOperator.left_anti _) = JoinKind.inner
build_join_operator (JoinOperator.right_anti _) = JoinKind.inner
build_join_operator JoinOperator.other = JoinKind.inner

-- The tables that one item of FROM names, the joined ones after the first.
unfoldable pub build_table_with_joins : TableWithJoins → Result (List (String × Option String))
unfolding build_table_factor
build_table_with_joins twj = do
  first ← build_table_factor twj.relation
  joined ← collect (λ (j : Join). build_table_factor j.relation) twj.joins
  ok (first ∷ joined)

unfoldable pub build_from_tables : List TableWithJoins → Result (List (String × Option String))
unfolding build_table_with_joins
build_from_tables [] = ok []
build_from_tables (twj ∷ rest) = do
  first ← build_table_with_joins twj
  others ← build_from_tables rest
  ok (first ++ others)
