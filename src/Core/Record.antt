-- ===== src/Core/Record.antt =====
-- crates/rspark-core/src/record.rs: rows, and batches of rows under one schema.
pub mod Valid
use Prim.Native.String.{len}
use rust_spark.Common.{
  ℕ, ◌+◌, ◌≡◌, refl, Bool, true, false, not, Option, none, some, String, List, [], ◌∷◌, ◌++◌, ◌==◌,
  ◌&&◌, Error, Result, ok, err, ◌>>=◌, ◌>>◌, if◌then◌else◌, length, get_elem?, is_empty,
}
use rust_spark.Core.Platform.{Platform}
use rust_spark.Core.Value.{Value, is_null}
use rust_spark.Core.Schema.{Field, Schema, field_count, index_of, eq_schema}

pub record Record (p : Platform) : Type 0 where
  pub values : List (Value p)

pub record RecordBatch (p : Platform) : Type 0 where
  pub schema : Schema
  pub records : List (Record p)

module _ {p : Platform} where
  -- `Record::get`
  unfoldable pub get : Record p → ℕ → Option (Value p)
  get r index = get_elem? r.values index

  unfoldable pub get_by_name : Record p → Schema → String → Option (Value p)
  unfolding get
  get_by_name r schema name = elim (index_of schema name) [ none ↦ none | some idx ↦ get r idx ]

  -- `record.get(idx).cloned().unwrap_or(Value::Null)`
  unfoldable pub get_or_null : Record p → ℕ → Value p
  unfolding get
  get_or_null r index = elim (get r index) [ none ↦ Value.null | some v ↦ v ]

  -- `Record::push`
  unfoldable pub push_value : Record p → Value p → Record p
  push_value r v = record r { values = r.values ++ v ∷ [] }

  -- The loop of `Record::validate`: no null under a field that is declared not null.
  pub check_nulls : List (Value p) → List Field → Result (Unit {0})
  unfolding is_null
  check_nulls [] fs = ok tt
  check_nulls (v ∷ vs) [] = ok tt
  check_nulls (v ∷ vs) (f ∷ fs) =
      let rest = check_nulls vs fs in if is_null v && not f.nullable then err Error.schema else rest

  unfoldable pub validate : Record p → Schema → Result (Unit {0})
  unfolding check_nulls field_count
  validate r schema =
      if length r.values == field_count schema
      then check_nulls r.values schema.fields
      else err Error.schema

  -- `RecordBatch::new`
  abbrev pub new_batch : Schema → RecordBatch p
  new_batch s = record { schema = s; records = [] }

  unfoldable pub validate_all : Schema → List (Record p) → Result (Unit {0})
  unfolding validate
  validate_all schema [] = ok tt
  validate_all schema (r ∷ rs) = do validate r schema; validate_all schema rs

  unfoldable pub from_records : Schema → List (Record p) → Result (RecordBatch p)
  unfolding validate_all
  from_records s rs = do validate_all s rs; ok (record { schema = s; records = rs })

  -- `RecordBatch::push`
  unfoldable pub push : RecordBatch p → Record p → Result (RecordBatch p)
  unfolding validate
  push b r = do validate r b.schema; ok (record b { records = b.records ++ r ∷ [] })

  -- `RecordBatch::extend`
  unfoldable pub extend : RecordBatch p → RecordBatch p → Result (RecordBatch p)
  extend b other =
      if eq_schema b.schema other.schema
      then ok (record b { records = b.records ++ other.records })
      else err Error.schema

  -- `RecordBatch::is_empty`
  abbrev pub batch_is_empty : RecordBatch p → Bool
  batch_is_empty b = is_empty b.records

  value_bytes : Value p → ℕ
  value_bytes (Value.string s) = 24 + len s
  value_bytes _ = 8

  values_bytes : List (Value p) → ℕ
  unfolding value_bytes
  values_bytes [] = 0
  values_bytes (v ∷ vs) = value_bytes v + values_bytes vs

  records_bytes : List (Record p) → ℕ
  unfolding values_bytes
  records_bytes [] = 0
  records_bytes (r ∷ rs) = values_bytes r.values + records_bytes rs

  unfoldable pub memory_bytes : RecordBatch p → ℕ
  unfolding records_bytes
  memory_bytes b = records_bytes b.records
