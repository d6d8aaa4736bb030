-- ===== src/Sql/Planner/Grouping.antt =====
-- HAVING over the output of an aggregation: which column a compared aggregate reads.
use rust_spark.Common.{
  Option, some, ◌≡◌, refl, Bool, true, ◌||◌, none, List, Result, ok, err, panic, ◌>>=◌, arith,
  if◌then◌else◌,
}
use rust_spark.Core.Platform.{Platform}
use rust_spark.Core.Value.{Value, is_null}
use rust_spark.Core.Record.{Record, RecordBatch}
use rust_spark.Core.Expr.{Expr, Literal, BinaryOp, AggregateFn, to_value, display_name}
use rust_spark.Core.Expr.Eval.{eval}
use rust_spark.Sql.Planner.Having.{projection_of, replaced_or, rewrite_having}
use rust_spark.Exec.Predicate.{
  lookup_by_name, contains_aggregate, substitute_aggregates, apply_binary_op, accept,
  eval_predicate,
}

module _ {p : Platform} where
  -- An aggregate, with or without an alias: what a projection of an aggregation is.
  abbrev pub IsAggregate : Expr p → Type 0
  IsAggregate (Expr.aggregate _ _ _) = Unit
  IsAggregate (Expr.aliased (Expr.aggregate _ _ _) _) = Unit
  IsAggregate _ = ⊥

  -- The value of a column under a comparison with a literal; null decides for no row.
  abbrev pub compared : BinaryOp → Value p → Value p → Result (Value p)
  compared op v w = if is_null v || is_null w then ok Value.null else apply_binary_op op v w

  -- The projection found for an expression, or the expression itself.
  abbrev pub standing_for : Option (Expr p) → Expr p → Expr p
  standing_for none e = e
  standing_for (some q) e = q

  replaced-standing : (m : Option (Expr p)) (e : Expr p) → replaced_or m e ≡ standing_for m e
  unfolding replaced_or
  replaced-standing none e = refl
  replaced-standing (some q) e = refl

  substitute-column :
      (q : Expr p) (row : Record p) (batch : RecordBatch p)
      → IsAggregate q
      → substitute_aggregates q row batch ≡ lookup_by_name (display_name q) row batch
  unfolding substitute_aggregates
  substitute-column (Expr.aggregate f a d) row batch h = refl
  substitute-column (Expr.aliased (Expr.aggregate f a d) n) row batch h = refl
  substitute-column _ row batch h = ground arith

  contains-IsAggregate : (q : Expr p) → IsAggregate q → contains_aggregate q ≡ true
  unfolding contains_aggregate
  contains-IsAggregate (Expr.aggregate f a d) h = refl
  contains-IsAggregate (Expr.aliased (Expr.aggregate f a d) n) h = refl
  contains-IsAggregate _ h = ground arith

  eval-compared :
      (op : BinaryOp) (q : Expr p) (lit : Literal p) (row : Record p) (batch : RecordBatch p)
      → IsAggregate q
      → eval_predicate (Expr.binary op q (Expr.literal lit)) row batch ≡ (
          lookup_by_name (display_name q) row batch >>= λ v.
          compared op v (to_value lit) >>= accept)
  unfolding eval_predicate contains_aggregate substitute_aggregates eval
  eval-compared op q lit row batch h =
      rw (contains-IsAggregate q h, substitute-column q row batch h)
        (go (lookup_by_name (display_name q) row batch))
    where
      go :
          (m : Result (Value p))
          → ((m >>= λ v. compared op v (to_value lit)) >>= accept)
            ≡ (m >>= λ v. compared op v (to_value lit) >>= accept)
      go (ok v) = refl
      go (err e) = refl
      go panic = refl

  -- HAVING that compares an aggregate with a literal reads one column of the aggregation's output: the
  -- one named after the projection that computes the aggregate, or after the aggregate itself where no
  -- projection does; the missing column is a schema error. The comparison itself and the literal are
  -- not projections.
  pub rewrite_having-column :
      (ps : List (Expr p)) (op : BinaryOp) (f : AggregateFn) (a : Expr p) (d : Bool)
      (lit : Literal p) (row : Record p) (batch : RecordBatch p)
      → projection_of ps (Expr.binary op (Expr.aggregate f a d) (Expr.literal lit)) ≡ none
      → projection_of ps (Expr.literal lit) ≡ none
      → IsAggregate (standing_for (projection_of ps (Expr.aggregate f a d)) (Expr.aggregate f a d))
      → eval_predicate
          (rewrite_having ps (Expr.binary op (Expr.aggregate f a d) (Expr.literal lit)))
          row
          batch
        ≡ (lookup_by_name
              (display_name
                (standing_for (projection_of ps (Expr.aggregate f a d)) (Expr.aggregate f a d)))
              row
              batch
            >>= λ v. compared op v (to_value lit) >>= accept)
  unfolding rewrite_having
  rewrite_having-column ps op f a d lit row batch whole none_lit h =
      rw (whole, none_lit, replaced-standing) (eval-compared op _ lit row batch h)
