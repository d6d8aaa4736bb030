-- ===== src/Exec/Project.antt =====
-- crates/rspark-exec/src/operators.rs: `project_record`, one output row of a projection.
use rust_spark.Common.{List, [], ◌∷◌, ◌++◌, Result, ok, ◌>>=◌, ◌>>◌}
use rust_spark.Core.Platform.{Platform}
use rust_spark.Core.Value.{Value}
use rust_spark.Core.Schema.{Schema}
use rust_spark.Core.Record.{Record, RecordBatch, validate}
use rust_spark.Core.Expr.{Expr, display_name}
use rust_spark.Core.Expr.Eval.{eval}
use rust_spark.Exec.Predicate.{lookup_by_name}

module _ {p : Platform} where
  -- The values that one expression of the list adds to the row.
  unfoldable pub project_values : Expr p → Record p → RecordBatch p → Result (List (Value p))
  project_values Expr.star row batch = ok row.values
  project_values (Expr.aggregate f arg d) row batch = do
    v ← lookup_by_name (display_name (Expr.aggregate f arg d)) row batch
    ok (v ∷ [])
  project_values (Expr.aliased (Expr.aggregate f arg d) alias) row batch = do
    v ← lookup_by_name (display_name (Expr.aliased (Expr.aggregate f arg d) alias)) row batch
    ok (v ∷ [])
  project_values (Expr.aliased inner alias) row batch = do v ← eval inner row batch; ok (v ∷ [])
  project_values e row batch = do v ← eval e row batch; ok (v ∷ [])

  unfoldable pub project_all : List (Expr p) → Record p → RecordBatch p → Result (List (Value p))
  unfolding project_values
  project_all [] row batch = ok []
  project_all (e ∷ es) row batch = do
    vs ← project_values e row batch
    rest ← project_all es row batch
    ok (vs ++ rest)

  unfoldable pub project_record :
      List (Expr p) → Record p → RecordBatch p → (output : Schema) → Result (Record p)
  unfolding project_all
  project_record es row batch output = do
    values ← project_all es row batch
    let rec : Record p = record { values = values }
    validate rec output
    ok rec
