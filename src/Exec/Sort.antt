-- ===== src/Exec/Sort.antt =====
-- crates/rspark-exec/src/operators.rs: `sort_batch` and `limit_batch`.
pub mod Laws
use rust_spark.Common.{
  ℕ, suc, ◌+◌, Bool, true, false, Option, none, some, List, [], ◌∷◌, Ordering, reverse_ordering,
  is_greater, is_equal, Error, Result, ok, err, panic, ◌>>=◌, if◌then◌else◌, get_elem?, take,
}
use mathlib.Core.List.{filter_map}
use rust_spark.Core.Platform.{Platform}
use rust_spark.Core.Value.{Value, try_cmp}
use rust_spark.Core.Record.{Record, RecordBatch, from_records}
use rust_spark.Core.Expr.Eval.{eval}
use rust_spark.Sql.Plan.{SortExpr}

-- A stable sort by a comparison, which is what `slice::sort_by` promises for a total order. For any other
-- comparison the library leaves the order open, and may panic; there the model fixes one order.
module _ {ℓ} {A : Type ℓ} (cmp : A → A → Ordering) where
  unfoldable pub insert_by : A → List A → List A
  insert_by x [] = x ∷ []
  insert_by x (y ∷ ys) =
      let rest = insert_by x ys in if is_greater (cmp x y) then y ∷ rest else x ∷ y ∷ ys

  unfoldable pub sort_by : List A → List A
  sort_by [] = []
  sort_by (x ∷ xs) = insert_by x (sort_by xs)

abbrev pub directed : Bool → Ordering → Ordering
directed true o = o
directed false o = reverse_ordering o

module _ {p : Platform} where
  -- An incomparable pair of keys counts as equal.
  unfoldable pub key_cmp : Value p → Value p → Ordering
  key_cmp a b = elim (try_cmp a b) [ ok c ↦ c | err _ ↦ Ordering.eq | panic ↦ Ordering.eq ]

  -- The closure that `sort_by` is given, on the two lists of keys.
  unfoldable pub keys_cmp : List (SortExpr p) → List (Value p) → List (Value p) → Ordering
  unfolding key_cmp
  keys_cmp (s ∷ order) (a ∷ as') (b ∷ bs) =
      let c = directed s.ascending (key_cmp a b) in
      let rest = keys_cmp order as' bs in if is_equal c then rest else c
  keys_cmp _ _ _ = Ordering.eq

  pub sort_keys : List (SortExpr p) → Record p → RecordBatch p → Result (List (Value p))
  sort_keys [] row batch = ok []
  sort_keys (s ∷ order) row batch = do
    v ← eval s.expr row batch
    rest ← sort_keys order row batch
    ok (v ∷ rest)

  unfoldable pub index_rows :
      List (SortExpr p) → ℕ → List (Record p) → RecordBatch p → Result (List (ℕ × List (Value p)))
  unfolding sort_keys
  index_rows order i [] batch = ok []
  index_rows order i (row ∷ rows) batch = do
    keys ← sort_keys order row batch
    rest ← index_rows order (suc i) rows batch
    ok ((i, keys) ∷ rest)

  -- The rows are fetched by their index, as `batch.records().get(idx)` does.
  unfoldable pub sort_batch : RecordBatch p → List (SortExpr p) → Result (RecordBatch p)
  sort_batch batch order = do
    indexed ← index_rows order 0 batch.records batch
    let sorted = sort_by (λ a b. keys_cmp order a.1 b.1) indexed
    from_records batch.schema (filter_map (λ e. get_elem? batch.records e.0) sorted)

  unfoldable pub limit_batch : RecordBatch p → ℕ → Result (RecordBatch p)
  limit_batch batch count = from_records batch.schema (take count batch.records)
