-- ===== src/Storage/Json.antt =====
-- crates/rspark-storage/src/json_source.rs: the JSON source, over what the `serde_json` crate reads; and the
-- rows that writer.rs and the pipelines write as JSON.
pub mod Laws
use rust_spark.Common.{
  Bool, true, false, ◌||◌, Option, none, some, String, ℤ, parse_i64, show_ℤ, str_eq, List, [], ◌∷◌,
  ◌++◌, any, Error, Result, ok, err, ◌>>=◌, if◌then◌else◌,
}
use rust_spark.Common.Dict
use rust_spark.Common.Dict.{Dict}
use rust_spark.Core.Platform.{Platform}
use rust_spark.Core.Value.{Value, cast_to_string}
use rust_spark.Core.Schema.{DataType, Field, Schema, new_field}
use rust_spark.Core.Record.{Record, RecordBatch, from_records}
use rust_spark.Exec.Executor.{ExecutionContext}

-- The answers of a `serde_json::Number`.
pub record JsonNumber (p : Platform) : Type 0 where
  pub as_i64 : Option ℤ
  pub is_u64 : Bool
  pub as_f64 : Option p.F64

-- `serde_json::Value`. An array or an object inside a value is only ever written out as text.
pub data Json (p : Platform) : Type 0 where
  null : Json p
  bool : Bool → Json p
  number : JsonNumber p → Json p
  string : String → Json p
  compound : (text : String) → Json p

-- One value of the stream: an object, by its keys in the map's order, or anything else.
pub data Item (p : Platform) : Type 0 where
  object : Dict (Json p) → Item p
  other : Item p

-- What a reader yields; `none` is a syntax error.
abbrev pub Stream : Platform → Type 0
Stream p = List (Option (Item p))

abbrev is_i64 {ℓ} : {A : Type ℓ} → Option A → Bool
is_i64 (some _) = true
is_i64 none = false

parse_bool : String → Option Bool
parse_bool s = if str_eq s "true" then some true else if str_eq s "false" then some false else none

-- `fields.iter().any(|f| f.name == k)`
unfoldable pub has_field : String → List Field → Bool
has_field k fs = any (λ f. str_eq f.name k) fs

module _ {p : Platform} where
  unfoldable pub json_type : Json p → DataType
  json_type Json.null = DataType.null
  json_type (Json.bool _) = DataType.boolean
  json_type (Json.number n) =
      if is_i64 n.as_i64 || n.is_u64 then DataType.int64 else DataType.float64
  json_type (Json.string _) = DataType.string
  json_type (Json.compound _) = DataType.string

  int_as : ℤ → DataType → Value p
  int_as i DataType.float64 = Value.float64 (p.of_int i)
  int_as i DataType.string = Value.string (show_ℤ i)
  int_as i _ = Value.int64 i

  float_as : p.F64 → DataType → Value p
  float_as f DataType.string = Value.string (p.show64 f)
  float_as f _ = Value.float64 f

  number_as : Option ℤ → Option p.F64 → DataType → Value p
  unfolding int_as float_as
  number_as (some i) f target = int_as i target
  number_as none (some f) target = float_as f target
  number_as none none target = Value.null

  -- `.map(…).unwrap_or(Value::String(…))`
  parsed_or {ℓ} : {A : Type ℓ} → (A → Value p) → Option A → String → Value p
  parsed_or f (some a) s = f a
  parsed_or f none s = Value.string s

  text_as : String → DataType → Value p
  unfolding parsed_or parse_bool
  text_as s DataType.int64 = parsed_or Value.int64 (parse_i64 s) s
  text_as s DataType.float64 = parsed_or Value.float64 (p.parse64 s) s
  text_as s DataType.boolean = parsed_or Value.boolean (parse_bool s) s
  text_as s _ = Value.string s

  unfoldable pub json_to_value : Json p → DataType → Value p
  unfolding number_as text_as
  json_to_value Json.null target = Value.null
  json_to_value (Json.bool b) target = Value.boolean b
  json_to_value (Json.number n) target = number_as n.as_i64 n.as_f64 target
  json_to_value (Json.string s) target = text_as s target
  json_to_value (Json.compound text) target = Value.string text

  -- `map.get(&field.name).cloned().unwrap_or(Null)`
  abbrev pub or_json_null : Option (Json p) → Json p
  or_json_null none = Json.null
  or_json_null (some v) = v

  unfoldable pub object_row : List Field → Dict (Json p) → List (Value p)
  object_row [] m = []
  object_row (f ∷ fs) m =
      json_to_value (or_json_null (Dict.get f.name m)) f.data_type ∷ object_row fs m

  unfoldable pub read_rows : Schema → Stream p → Result (List (Record p))
  unfolding object_row
  read_rows s [] = ok []
  read_rows s (none ∷ rest) = err Error.serde
  read_rows s (some Item.other ∷ rest) = err Error.storage
  read_rows s (some (Item.object m) ∷ rest) = do
    rows ← read_rows s rest
    ok (record { values = object_row s.fields m } ∷ rows)

  -- The loop over the keys of one object; its last argument is `fields`.
  unfoldable pub add_fields : Dict (Json p) → List Field → List Field
  unfolding has_field
  add_fields [] fields = fields
  add_fields ((k, v) ∷ m) fields =
      add_fields m (if has_field k fields then fields else fields ++ new_field k (json_type v) ∷ [])

  unfoldable pub infer_fields : Stream p → List Field → Result (List Field)
  unfolding add_fields
  infer_fields [] fields = ok fields
  infer_fields (none ∷ rest) fields = err Error.serde
  infer_fields (some Item.other ∷ rest) fields = infer_fields rest fields
  infer_fields (some (Item.object m) ∷ rest) fields = infer_fields rest (add_fields m fields)

  unfoldable pub infer_schema_from_reader : Stream p → Result Schema
  unfolding infer_fields
  infer_schema_from_reader stream = do
    fields ← infer_fields stream []
    ok (record { fields = fields })

  -- `scan_reader` with a schema, and without one.
  unfoldable pub scan_json_with : Schema → Stream p → Result (RecordBatch p)
  unfolding read_rows
  scan_json_with s stream = do rows ← read_rows s stream; from_records s rows

  unfoldable pub scan_json : Option Schema → Stream p → Result (RecordBatch p)
  unfolding scan_json_with infer_schema_from_reader
  scan_json (some s) stream = scan_json_with s stream
  scan_json none stream = do s ← infer_schema_from_reader stream; scan_json_with s stream

  -- The source under the name `json`; the file system gives each path its stream.
  unfoldable pub json_context : (String → Result (Stream p)) → ExecutionContext p
  json_context files = record {
    scan_source = λ source path s.
        if str_eq source "json"
        then (do stream ← files path; scan_json_with s stream)
        else err Error.not_found;
  }

-- `serde_json::Value::from` of numbers. What is not finite becomes null.
pub record JsonNumbers (p : Platform) : Type 0 where
  pub of_int : ℤ → Json p
  pub of32 : p.F32 → Json p
  pub of64 : p.F64 → Json p

module _ {p : Platform} (to : JsonNumbers p) where
  unfoldable pub value_to_json : Value p → Json p
  value_to_json Value.null = Json.null
  value_to_json (Value.boolean b) = Json.bool b
  value_to_json (Value.int32 i) = to.of_int i
  value_to_json (Value.int64 i) = to.of_int i
  value_to_json (Value.float32 f) = to.of32 f
  value_to_json (Value.float64 f) = to.of64 f
  value_to_json (Value.string s) = Json.string s

  -- One object of `write_json` and of the pipelines' `append_file`: fields zipped with values.
  unfoldable pub write_object : List Field → List (Value p) → Dict (Json p) → Dict (Json p)
  unfolding value_to_json
  write_object [] vs obj = obj
  write_object (f ∷ fs) [] obj = obj
  write_object (f ∷ fs) (v ∷ vs) obj = write_object fs vs (Dict.insert f.name (value_to_json v) obj)

  -- The stream that the written rows are.
  unfoldable pub write_rows : Schema → List (Record p) → Stream p
  unfolding write_object
  write_rows s [] = []
  write_rows s (r ∷ rs) = some (Item.object (write_object s.fields r.values [])) ∷ write_rows s rs
