-- ===== src/Core/Expr/Columns.antt =====
-- The walks over an expression: `collect_columns`, `references` and `contains_aggregate` of
-- crates/rspark-core/src/expr.rs.
use rust_spark.Common.{
  Bool, true, false, ◌||◌, String, List, [], ◌∷◌, ◌++◌, compare_str, is_greater, str_eq,
  if◌then◌else◌,
}
use rust_spark.Core.Platform.{Platform}
use rust_spark.Core.Expr.{Expr}

-- `Vec::<String>::sort` and `Vec::dedup`.
unfoldable pub insert_str : String → List String → List String
insert_str s [] = s ∷ []
insert_str s (t ∷ ts) =
    let rest = insert_str s ts in if is_greater (compare_str s t) then t ∷ rest else s ∷ t ∷ ts

unfoldable pub sort_str : List String → List String
unfolding insert_str
sort_str [] = []
sort_str (s ∷ ss) = insert_str s (sort_str ss)

unfoldable pub dedup : List String → List String
dedup [] = []
dedup (s ∷ []) = s ∷ []
dedup (s ∷ (t ∷ ts)) = let rest = dedup (t ∷ ts) in if str_eq s t then rest else s ∷ rest

module _ {p : Platform} where
  -- The list that the source pushes to is the last argument.
  unfoldable pub collect_columns : Expr p → List String → List String
  collect_columns (Expr.column name) out = out ++ name ∷ []
  collect_columns (Expr.literal _) out = out
  collect_columns Expr.star out = out
  collect_columns (Expr.binary _ left right) out = collect_columns right (collect_columns left out)
  collect_columns (Expr.not inner) out = collect_columns inner out
  collect_columns (Expr.is_null inner) out = collect_columns inner out
  collect_columns (Expr.is_not_null inner) out = collect_columns inner out
  collect_columns (Expr.if_expr cond then_expr else_expr) out =
      collect_columns else_expr (collect_columns then_expr (collect_columns cond out))
  collect_columns (Expr.aggregate _ arg _) out = collect_columns arg out
  collect_columns (Expr.aliased inner _) out = collect_columns inner out

  unfoldable pub references : Expr p → List String
  unfolding sort_str dedup
  references e = dedup (sort_str (collect_columns e []))

  unfoldable pub contains_aggregate : Expr p → Bool
  contains_aggregate (Expr.aggregate _ _ _) = true
  contains_aggregate (Expr.binary _ left right) =
      contains_aggregate left || contains_aggregate right
  contains_aggregate (Expr.not inner) = contains_aggregate inner
  contains_aggregate (Expr.is_null inner) = contains_aggregate inner
  contains_aggregate (Expr.is_not_null inner) = contains_aggregate inner
  contains_aggregate (Expr.if_expr cond then_expr else_expr) =
      contains_aggregate cond || contains_aggregate then_expr || contains_aggregate else_expr
  contains_aggregate (Expr.aliased inner _) = contains_aggregate inner
  contains_aggregate (Expr.column _) = false
  contains_aggregate (Expr.literal _) = false
  contains_aggregate Expr.star = false
