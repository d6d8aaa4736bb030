-- ===== src/Sql/Planner/Queries.antt =====
-- The plans of whole queries: what `plan_query` returns is a planned tree over tables of the catalog.
use mathlib.Core.Path.{subst}
use rust_spark.Common.{
  ◌≡◌, refl, sym, ◌∙◌, eq_iff, true, false, inl, inr, Bool-cases, Option, none, some, String, List,
  [], ◌∷◌, Result, ok, Returns, Returns-bind, Returns-eq, arith,
}
use rust_spark.Core.Platform.{Platform}
use rust_spark.Core.Schema.{Schema}
use rust_spark.Sql.Ast.{SqlExpr, Select, OrderByExpr, Query, SetExpr, SetOperator}
use rust_spark.Sql.Plan.{LogicalPlan, LogicalPlans, SortExpr, collect_table_refs}
use rust_spark.Sql.Plan.Refs.{listed, scans, scans_any, collect_table_refs_lem}
use rust_spark.Sql.ShowCreate.{Catalog}
use rust_spark.Sql.Build.Clauses.{build_select_expressions, build_from_tables}
use rust_spark.Sql.Planner.{
  build_from_clause, apply_where, group_exprs_of, shape_select, plan_select, sorted_by,
  build_sort_keys, apply_limit_clause, order_and_limit, eval_limit, union_of, plan_query,
  plan_setexpr,
}
use rust_spark.Sql.Planner.Planned
use rust_spark.Sql.Planner.Planned.{
  free, build_from_clause-IsPlanned, apply_where-IsPlanned, choose_shape-IsPlanned,
}

module _ (p : Platform) (catalog : Catalog) where
  abbrev Made : LogicalPlan p → Type 0
  Made = Planned.IsPlanned p catalog

  shape_select-IsPlanned :
      (select : Select) (plan : LogicalPlan p) → Made plan → Returns Made (shape_select select plan)
  unfolding shape_select
  shape_select-IsPlanned select plan h = free p catalog (build_select_expressions select) _ λ es.
      free p catalog (group_exprs_of select.group_by) _
        λ groups. choose_shape-IsPlanned p catalog groups es select plan h

  plan_select-IsPlanned : (select : Select) → Returns Made (plan_select {p = p} catalog select)
  unfolding plan_select
  plan_select-IsPlanned select = free p catalog (build_from_tables select.from) _ λ tables.
      Returns-bind Made Made (build_from_clause catalog tables) _
        (build_from_clause-IsPlanned p catalog tables)
        λ plan h.
          Returns-bind Made Made (apply_where select.selection plan) _
            (apply_where-IsPlanned p catalog select.selection plan h)
            (shape_select-IsPlanned select)

  sorted_by-IsPlanned :
      (keys : List (SortExpr p)) (plan : LogicalPlan p) → Made plan → Made (sorted_by keys plan)
  unfolding sorted_by Planned.IsPlanned
  sorted_by-IsPlanned [] plan h = h
  sorted_by-IsPlanned (key ∷ keys) plan h = (refl, h)

  apply_limit_clause-IsPlanned :
      (limit : Option SqlExpr) (plan : LogicalPlan p)
      → Made plan
      → Returns Made (apply_limit_clause limit plan)
  unfolding apply_limit_clause Planned.IsPlanned
  apply_limit_clause-IsPlanned none plan h = h
  apply_limit_clause-IsPlanned (some e) plan h = free p catalog (eval_limit e) _ (λ n. (refl, h))

  order_and_limit-IsPlanned :
      (order_by : Option (List OrderByExpr)) (limit : Option SqlExpr) (plan : LogicalPlan p)
      → Made plan
      → Returns Made (order_and_limit order_by limit plan)
  unfolding order_and_limit
  order_and_limit-IsPlanned order_by limit plan h =
      free p catalog (build_sort_keys order_by) _ λ keys.
        apply_limit_clause-IsPlanned limit (sorted_by keys plan) (sorted_by-IsPlanned keys plan h)

  union_of-IsPlanned :
      (op : SetOperator) (l r : Result (LogicalPlan p))
      → Returns Made l
      → Returns Made r
      → Returns Made (union_of op l r)
  unfolding union_of Planned.IsPlanned
  union_of-IsPlanned SetOperator.union l r hl hr =
      Returns-bind Made Made l _ hl
        λ a ha. Returns-bind Made Made r _ hr (λ b hb. (refl, (ha, (hb, tt))))
  union_of-IsPlanned SetOperator.except l r hl hr = tt
  union_of-IsPlanned SetOperator.intersect l r hl hr = tt

  mutual
    unfolding plan_query

    plan_query-Returns : (q : Query) → Returns Made (plan_query {p = p} catalog q)
    plan_query-Returns (Query.of_parts true body order_by limit offset) = tt
    plan_query-Returns (Query.of_parts false body order_by limit offset) =
        Returns-bind Made Made (plan_setexpr catalog body) _ (plan_setexpr-Returns body)
          (order_and_limit-IsPlanned order_by limit)

    plan_setexpr-Returns : (b : SetExpr) → Returns Made (plan_setexpr {p = p} catalog b)
    plan_setexpr-Returns (SetExpr.select select) = plan_select-IsPlanned select
    plan_setexpr-Returns (SetExpr.query q) = plan_query-Returns q
    plan_setexpr-Returns (SetExpr.set_operation op q l r) =
        union_of-IsPlanned op (plan_setexpr catalog l) (plan_setexpr catalog r)
          (plan_setexpr-Returns l) (plan_setexpr-Returns r)
    plan_setexpr-Returns SetExpr.other = tt

  -- Whatever the query, in a plan that `plan_query` returns every scan reads a table at the place and
  -- with the schema that the catalog has for it, every join pairs the names that its two sides share,
  -- and every node has the schema that its builder gives for the schemas of the nodes below it.
  pub plan_query-IsPlanned :
      (q : Query) (plan : LogicalPlan p)
      → plan_query catalog q ≡ ok plan
      → Planned.IsPlanned p catalog plan
  plan_query-IsPlanned q plan e = Returns-eq Made (plan_query catalog q) (plan_query-Returns q) e

  -- The catalog has a table of that name.
  abbrev pub IsTable : String → Type 0
  IsTable name = (s : Schema) × (catalog.table_schema name ≡ ok s)

  mutual
    unfolding Planned.IsPlanned scans

    scans-IsTable :
        (plan : LogicalPlan p) (name : String) → Made plan → scans name plan ≡ true → IsTable name
    scans-IsTable (LogicalPlan.scan t _ _ _ _ s) name h e =
        subst IsTable ((eq_iff t name).0 e) (s, h.1)
    scans-IsTable (LogicalPlan.project x _ _) name h e = scans-IsTable x name h.1 e
    scans-IsTable (LogicalPlan.filter x _ _) name h e = scans-IsTable x name h.1 e
    scans-IsTable (LogicalPlan.aggregate x _ _ _) name h e = scans-IsTable x name h.1 e
    scans-IsTable (LogicalPlan.sort x _ _) name h e = scans-IsTable x name h.1 e
    scans-IsTable (LogicalPlan.limit x _ _) name h e = scans-IsTable x name h.1 e
    scans-IsTable (LogicalPlan.distinct x _) name h e = scans-IsTable x name h.1 e
    scans-IsTable (LogicalPlan.join l r _ _ _) name h e = elim (Bool-cases (scans name l)) [
      | inl a ↦ scans-IsTable l name h.3 a
      | inr a ↦ scans-IsTable r name h.4 (ground arith)
    ]
    scans-IsTable (LogicalPlan.union xs _) name h e = scans_any-IsTable xs name h.1 e
    scans-IsTable LogicalPlan.empty name h e = cc

    scans_any-IsTable :
        (xs : LogicalPlans p) (name : String)
        → Planned.ArePlanned p catalog xs
        → scans_any name xs ≡ true
        → IsTable name
    scans_any-IsTable LogicalPlans.nil name h e = cc
    scans_any-IsTable (LogicalPlans.cons x xs) name h e = elim (Bool-cases (scans name x)) [
      | inl a ↦ scans-IsTable x name h.0 a
      | inr a ↦ scans_any-IsTable xs name h.1 (ground arith)
    ]

  -- Every table that `collect_table_refs` reports for a planned query is a table of the catalog, so
  -- a query over an unknown table has no plan.
  pub plan_query-tables :
      (q : Query) (plan : LogicalPlan p)
      → plan_query catalog q ≡ ok plan
      → (name : String) → listed name (collect_table_refs plan) ≡ true
      → IsTable name
  plan_query-tables q plan e name l =
      scans-IsTable plan name (plan_query-IsPlanned q plan e)
        (sym ((collect_table_refs_lem plan).1 name) ∙ l)
