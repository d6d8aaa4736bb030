-- ===== src/Sql/Planner/Planned.antt =====
-- What every plan of a query looks like, whatever the statement: where its schemas and scans come from.
use rust_spark.Common.{
  ◌≡◌, refl, Bool, inl, inr, Bool-cases, Option, none, some, String, List, [], ◌∷◌, Result, ok, err,
  panic, ◌>>=◌, Returns, Returns-bind, ◌||◌, keep, not, is_empty,
}
use rust_spark.Core.Platform.{Platform}
use rust_spark.Core.Schema.{Schema}
use rust_spark.Core.Expr.{Expr}
use rust_spark.Core.Expr.Columns.{contains_aggregate}
use rust_spark.Sql.Ast.{SqlExpr, Select}
use rust_spark.Sql.Plan.{
  LogicalPlan, LogicalPlans, JoinType, output_schema, build_scan_schema, build_project_schema,
  build_aggregate_schema, build_join_schema,
}
use rust_spark.Sql.ShowCreate.{Catalog}
use rust_spark.Sql.Build.{build_expr}
use rust_spark.Sql.Planner.Having.{rewrite_having}
use rust_spark.Sql.Planner.{
  build_table_scan, join_pairs, join_tables, build_from_clause, apply_where, apply_having,
  projected, aggregated, distinct_of, choose_shape, filtered, is_some,
}

abbrev pub first_schema : {p : Platform} → LogicalPlans p → Schema
first_schema LogicalPlans.nil = record { fields = [] }
first_schema (LogicalPlans.cons x xs) = output_schema x

module _ (p : Platform) (catalog : Catalog) where
  -- Every scan reads a table at the place, and with the schema, that the catalog has for it; every
  -- other node has the schema that its builder gives for the schemas below it.
  unfoldable mutual
    pub IsPlanned : LogicalPlan p → Type 0
    IsPlanned (LogicalPlan.scan name path source _ _ s) =
        (catalog.table_location name ≡ ok (path, source)) × (catalog.table_schema name ≡ ok s)
    IsPlanned (LogicalPlan.project x es s) =
        (build_project_schema es (output_schema x) ≡ ok s) × IsPlanned x
    IsPlanned (LogicalPlan.filter x e s) = (s ≡ output_schema x) × IsPlanned x
    IsPlanned (LogicalPlan.aggregate x groups aggs s) =
        (build_aggregate_schema groups aggs ≡ ok s) × IsPlanned x
    IsPlanned (LogicalPlan.sort x order s) = (s ≡ output_schema x) × IsPlanned x
    IsPlanned (LogicalPlan.limit x n s) = (s ≡ output_schema x) × IsPlanned x
    IsPlanned (LogicalPlan.distinct x s) = (s ≡ output_schema x) × IsPlanned x
    IsPlanned (LogicalPlan.join l r pairs how s) =
        (pairs ≡ join_pairs (output_schema l) (output_schema r))
        × (how ≡ JoinType.inner)
        × (build_join_schema (output_schema l) (output_schema r) pairs ≡ ok s)
        × IsPlanned l
        × IsPlanned r
    IsPlanned (LogicalPlan.union xs s) = (s ≡ first_schema xs) × ArePlanned xs
    IsPlanned LogicalPlan.empty = Unit

    pub ArePlanned : LogicalPlans p → Type 0
    ArePlanned LogicalPlans.nil = Unit
    ArePlanned (LogicalPlans.cons x xs) = IsPlanned x × ArePlanned xs

  build_table_scan-IsPlanned : (name : String) → Returns IsPlanned (build_table_scan catalog name)
  unfolding build_table_scan IsPlanned build_scan_schema
  build_table_scan-IsPlanned name =
      go (catalog.table_location name) (catalog.table_schema name) refl refl
    where
      go :
          (l : Result (String × String)) (s : Result Schema)
          → catalog.table_location name ≡ l
          → catalog.table_schema name ≡ s
          → Returns IsPlanned (
              l >>= λ location.
              s >>= λ schema. ok (build_scan_schema name location.0 location.1 schema))
      go (ok l) (ok s) el es = (el, es)
      go (ok l) (err e) el es = tt
      go (ok l) panic el es = tt
      go (err e) s el es = tt
      go panic s el es = tt

  join_tables-IsPlanned :
      (tables : List (String × Option String)) (plan : LogicalPlan p)
      → IsPlanned plan
      → Returns IsPlanned (join_tables catalog plan tables)
  unfolding join_tables IsPlanned build_join_schema
  join_tables-IsPlanned [] plan h = h
  join_tables-IsPlanned ((name, alias) ∷ rest) plan h =
      Returns-bind IsPlanned IsPlanned (build_table_scan catalog name) _
        (build_table_scan-IsPlanned name)
        λ right r. join_tables-IsPlanned rest _ (refl, refl, refl, h, r)

  pub build_from_clause-IsPlanned :
      (tables : List (String × Option String))
      → Returns IsPlanned (build_from_clause {p = p} catalog tables)
  unfolding build_from_clause IsPlanned
  build_from_clause-IsPlanned [] = tt
  build_from_clause-IsPlanned ((name, alias) ∷ rest) =
      Returns-bind IsPlanned IsPlanned (build_table_scan catalog name) _
        (build_table_scan-IsPlanned name) (join_tables-IsPlanned rest)

  -- A bind whose first part may return anything.
  pub free :
      {A : Type 0} (m : Result A) (f : A → Result (LogicalPlan p))
      → ((a : A) → Returns IsPlanned (f a))
      → Returns IsPlanned (m >>= f)
  free (ok a) f h = h a
  free (err e) f h = tt
  free panic f h = tt

  filtered-IsPlanned :
      (e : Expr p) (plan : LogicalPlan p) → IsPlanned plan → IsPlanned (filtered e plan)
  unfolding IsPlanned
  filtered-IsPlanned e plan h = (refl, h)

  pub apply_where-IsPlanned :
      (w : Option SqlExpr) (plan : LogicalPlan p)
      → IsPlanned plan
      → Returns IsPlanned (apply_where w plan)
  unfolding apply_where
  apply_where-IsPlanned none plan h = h
  apply_where-IsPlanned (some w) plan h = free (build_expr w) _ (λ e. filtered-IsPlanned e plan h)

  apply_having-IsPlanned :
      (es : List (Expr p)) (w : Option SqlExpr) (plan : LogicalPlan p)
      → IsPlanned plan
      → Returns IsPlanned (apply_having es w plan)
  unfolding apply_having
  apply_having-IsPlanned es none plan h = h
  apply_having-IsPlanned es (some w) plan h =
      free (build_expr w) _ (λ e. filtered-IsPlanned (rewrite_having es e) plan h)

  projected-IsPlanned :
      (es : List (Expr p)) (plan : LogicalPlan p)
      → IsPlanned plan
      → Returns IsPlanned (projected es plan)
  unfolding projected build_project_schema IsPlanned
  projected-IsPlanned es plan h = (refl, h)

  aggregated-IsPlanned :
      (groups aggs es : List (Expr p)) (having : Option SqlExpr) (plan : LogicalPlan p)
      → IsPlanned plan
      → Returns IsPlanned (aggregated groups aggs es having plan)
  unfolding aggregated build_aggregate_schema IsPlanned
  aggregated-IsPlanned groups aggs es having plan h =
      Returns-bind IsPlanned IsPlanned (projected es _) _ (projected-IsPlanned es _ (refl, h))
        (apply_having-IsPlanned es having)

  pub choose_shape-IsPlanned :
      (groups es : List (Expr p)) (select : Select) (plan : LogicalPlan p)
      → IsPlanned plan
      → Returns IsPlanned (choose_shape groups es select plan)
  unfolding choose_shape
  choose_shape-IsPlanned groups es select plan h = elim (Bool-cases grouping) [
    | inl g ↦ rw g (aggregated-IsPlanned groups aggs es select.having plan h)
    | inr g ↦ rw g (elim (Bool-cases (is_some select.distinct)) [
      | inl d ↦ rw d (
          Returns-bind IsPlanned IsPlanned (projected es plan) _ (projected-IsPlanned es plan h)
            distinct-IsPlanned)
      | inr d ↦ rw d (projected-IsPlanned es plan h)
    ])
  ]
    where
      aggs : List (Expr p)
      aggs = keep contains_aggregate es

      grouping : Bool
      grouping = not (is_empty aggs) || not (is_empty groups)

      distinct-IsPlanned : (x : LogicalPlan p) → IsPlanned x → IsPlanned (distinct_of x)
      distinct-IsPlanned x hx = unfold distinct_of IsPlanned in (refl, hx)
