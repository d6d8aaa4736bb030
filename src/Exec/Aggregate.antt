-- ===== src/Exec/Aggregate.antt =====
-- crates/rspark-exec/src/operators.rs: `aggregate_batch` and its accumulators.
pub mod Groups
use rust_spark.Common.{
  ℕ, zero, suc, Bool, true, false, not, Option, none, some, String, List, [], ◌∷◌, ◌++◌, map, any,
  str_eq, ◌&&◌, compare_str, Ordering, is_greater, is_less, is_equal, ℤ, pos, eq_ℤ, add_i64, Error,
  Result, ok, err, panic, ◌>>=◌, ◌>>◌, if◌then◌else◌, length,
}
use rust_spark.Core.Platform.{Platform}
use rust_spark.Core.Value.{Value, is_null, cast_to_string, cast_to_f64, try_cmp}
use rust_spark.Core.Schema.{Schema}
use rust_spark.Core.Record.{Record, RecordBatch, from_records}
use rust_spark.Core.Expr.{Expr, AggregateFn}
use rust_spark.Core.Expr.Eval.{eval}

-- The hash set of `CountDistinct` is the list of its members.
pub data Accumulator (p : Platform) : Type 0 where
  count : ℤ → Accumulator p
  count_distinct : List String → Accumulator p
  sum : p.F64 → Accumulator p
  avg : (total : p.F64) → (seen : ℤ) → Accumulator p
  min : Option (Value p) → Accumulator p
  max : Option (Value p) → Accumulator p

pub record GroupState (p : Platform) : Type 0 where
  pub group_values : List (Value p)
  pub accumulators : List (Accumulator p)

insert_new : String → List String → List String
insert_new s set = if any (λ t. str_eq t s) set then set else s ∷ set

add_to_sum : (p : Platform) → p.F64 → Option p.F64 → p.F64
add_to_sum p total none = total
add_to_sum p total (some v) = p.add64 total v

count_some {ℓ} : {A : Type ℓ} → ℤ → Option A → ℤ
count_some n none = n
count_some n (some v) = add_i64 n (pos 1)

length_i64 : List String → ℤ
length_i64 set = pos (length set)

module _ {p : Platform} where
  -- Keeps the current extreme unless it compares as `beaten` with the new value.
  pub replace_if : (Ordering → Bool) → Option (Value p) → Value p → Value p
  replace_if beaten none value = value
  replace_if beaten (some current) value = elim (try_cmp current value) [
    | ok o ↦ if beaten o then value else current
    | err _ ↦ current
    | panic ↦ current
  ]

  -- `Accumulator::update`; its `_distinct` argument is not read.
  unfoldable pub update : Accumulator p → Value p → (distinct : Bool) → Accumulator p
  unfolding replace_if insert_new add_to_sum count_some is_null
  update (Accumulator.count c) v _ = Accumulator.count (if is_null v then c else add_i64 c (pos 1))
  update (Accumulator.count_distinct set) v _ =
      Accumulator.count_distinct (if is_null v then set else insert_new (cast_to_string v) set)
  update (Accumulator.sum total) v _ = Accumulator.sum (add_to_sum p total (cast_to_f64 v))
  update (Accumulator.avg total seen) v _ =
      Accumulator.avg (add_to_sum p total (cast_to_f64 v)) (count_some seen (cast_to_f64 v))
  update (Accumulator.min slot) v _ =
      Accumulator.min (if is_null v then slot else some (replace_if is_greater slot v))
  update (Accumulator.max slot) v _ =
      Accumulator.max (if is_null v then slot else some (replace_if is_less slot v))

  or_null : Option (Value p) → Value p
  or_null none = Value.null
  or_null (some v) = v

  unfoldable pub finish : Accumulator p → Value p
  unfolding or_null length_i64
  finish (Accumulator.count c) = Value.int64 c
  finish (Accumulator.count_distinct set) = Value.int64 (length_i64 set)
  finish (Accumulator.sum s) = Value.float64 s
  finish (Accumulator.avg total seen) =
      if eq_ℤ seen (pos 0) then Value.null else Value.float64 (p.div64 total (p.of_int seen))
  finish (Accumulator.min slot) = or_null slot
  finish (Accumulator.max slot) = or_null slot

  -- `Accumulator::new`
  unfoldable pub new_accumulator : AggregateFn → Accumulator p
  new_accumulator AggregateFn.count = Accumulator.count (pos 0)
  new_accumulator AggregateFn.sum = Accumulator.sum p.zero64
  new_accumulator AggregateFn.avg = Accumulator.avg p.zero64 (pos 0)
  new_accumulator AggregateFn.min = Accumulator.min none
  new_accumulator AggregateFn.max = Accumulator.max none

  -- The aggregate of an output expression: its function, its argument and its DISTINCT flag.
  pub aggregate_of : Expr p → Option (AggregateFn × Expr p × Bool)
  aggregate_of (Expr.aggregate func arg distinct) = some (func, arg, distinct)
  aggregate_of (Expr.aliased (Expr.aggregate func arg distinct) _) = some (func, arg, distinct)
  aggregate_of _ = none

  unfoldable pub accumulator_for : Expr p → Accumulator p
  unfolding aggregate_of new_accumulator
  accumulator_for e = elim (aggregate_of e) [
    | none ↦ new_accumulator AggregateFn.count
    | some (func, _, _) ↦ new_accumulator func
  ]

  -- One accumulator with the row; `continue` where the expression is no aggregate.
  unfoldable pub update_one :
      Expr p → Accumulator p → Record p → RecordBatch p → Result (Accumulator p)
  unfolding aggregate_of
  update_one e acc row batch = elim (aggregate_of e) [
    | none ↦ ok acc
    | some (_, arg, distinct) ↦ eval arg row batch >>= λ v. ok (update acc v distinct)
  ]

  unfoldable pub update_all :
      List (Expr p)
      → List (Accumulator p)
      → Record p
      → RecordBatch p
      → Result (List (Accumulator p))
  unfolding update_one
  update_all (e ∷ es) (acc ∷ accs) row batch = do
    acc' ← update_one e acc row batch
    rest ← update_all es accs row batch
    ok (acc' ∷ rest)
  update_all _ accs row batch = ok accs

  unfoldable pub eval_all : List (Expr p) → Record p → RecordBatch p → Result (List (Value p))
  eval_all [] row batch = ok []
  eval_all (e ∷ es) row batch = do v ← eval e row batch; vs ← eval_all es row batch; ok (v ∷ vs)

-- The order of `Vec<String>`, by which the `BTreeMap` of the groups is sorted.
unfoldable pub key_compare : List String → List String → Ordering
key_compare [] [] = Ordering.eq
key_compare [] (t ∷ ts) = Ordering.lt
key_compare (s ∷ ss) [] = Ordering.gt
key_compare (s ∷ ss) (t ∷ ts) =
    let rest = key_compare ss ts in
    let first = compare_str s t in if is_equal first then rest else first

-- The groups, in the order of their keys.
abbrev pub Groups : Platform → Type 0
Groups p = List (List String × GroupState p)

module _ {p : Platform} where
  unfoldable pub find_group : List String → Groups p → Option (GroupState p)
  unfolding key_compare
  find_group k [] = none
  find_group k ((j, g) ∷ m) = if is_equal (key_compare k j) then some g else find_group k m

  unfoldable pub put_group : List String → GroupState p → Groups p → Groups p
  unfolding key_compare
  put_group k g [] = (k, g) ∷ []
  put_group k g ((j, h) ∷ m) =
      let rest = put_group k g m in
      let o = key_compare k j in
      if is_less o then (k, g) ∷ ((j, h) ∷ m) else if is_equal o then (k, g) ∷ m else (j, h) ∷ rest

  pub key_of : List (Value p) → List String
  key_of vs = map cast_to_string vs

  -- `or_insert_with`
  pub state_or_new : List (Expr p) → List (Value p) → Option (GroupState p) → GroupState p
  state_or_new aggs values none = record {
    group_values = values;
    accumulators = map accumulator_for aggs;
  }
  state_or_new aggs values (some g) = g

  module _ (groups aggs : List (Expr p)) (batch : RecordBatch p) where
    -- The state of one group with the row added.
    unfoldable pub grow : List (Value p) → Option (GroupState p) → Record p → Result (GroupState p)
    unfolding state_or_new
    grow values old row =
        let g = state_or_new aggs values old in
        update_all aggs g.accumulators row batch >>= λ accs. ok (record g { accumulators = accs })

    unfoldable pub group_row : Groups p → Record p → Result (Groups p)
    unfolding key_of
    group_row m row = do
      values ← eval_all groups row batch
      g ← grow values (find_group (key_of values) m) row
      ok (put_group (key_of values) g m)

    unfoldable pub group_rows : Groups p → List (Record p) → Result (Groups p)
    group_rows m [] = ok m
    group_rows m (row ∷ rows) = do m' ← group_row m row; group_rows m' rows

  unfoldable pub group_record : List String × GroupState p → Record p
  group_record (k, g) = record { values = g.group_values ++ map finish g.accumulators }

  unfoldable pub aggregate_batch :
      List (Expr p) → List (Expr p) → RecordBatch p → (output : Schema) → Result (RecordBatch p)
  unfolding group_record
  aggregate_batch groups aggs batch output = do
    m ← group_rows groups aggs batch [] batch.records
    from_records output (map group_record m)
