-- ===== src/Core/Value.antt =====
-- crates/rspark-core/src/value.rs: nullable values, their casts and their order.
pub mod Order
use rust_spark.Common.{
  ℕ, ◌≡◌, refl, Bool, true, false, not, Option, none, some, String, Ordering, ℤ, pos, compare_ℤ,
  eq_ℤ, compare_str, str_eq, show_ℤ, show_bool, parse_i64, eq_lower, ◌||◌, Error, Result, ok, err,
  if◌then◌else◌, arith,
}
use rust_spark.Core.Platform.{Platform}

pub data Value (p : Platform) : Type 0 where
  null : Value p
  boolean : Bool → Value p
  int32 : ℤ → Value p
  int64 : ℤ → Value p
  float32 : p.F32 → Value p
  float64 : p.F64 → Value p
  string : String → Value p

abbrev bool_cmp : Bool → Bool → Ordering
bool_cmp false false = Ordering.eq
bool_cmp false true = Ordering.lt
bool_cmp true false = Ordering.gt
bool_cmp true true = Ordering.eq

abbrev bool_eq : Bool → Bool → Bool
bool_eq true b = b
bool_eq false b = not b

-- `partial_cmp(…).ok_or_else(… cannot compare NaN floats …)`
abbrev or_nan : Option Ordering → Result Ordering
or_nan (some o) = ok o
or_nan none = err Error.type

module _ {p : Platform} where
  unfoldable pub is_null : Value p → Bool
  is_null Value.null = true
  is_null _ = false

  unfoldable pub data_type_name : Value p → String
  data_type_name Value.null = "null"
  data_type_name (Value.boolean _) = "boolean"
  data_type_name (Value.int32 _) = "int"
  data_type_name (Value.int64 _) = "bigint"
  data_type_name (Value.float32 _) = "float"
  data_type_name (Value.float64 _) = "double"
  data_type_name (Value.string _) = "string"

  unfoldable pub cast_to_string : Value p → String
  cast_to_string Value.null = "null"
  cast_to_string (Value.boolean v) = show_bool v
  cast_to_string (Value.int32 v) = show_ℤ v
  cast_to_string (Value.int64 v) = show_ℤ v
  cast_to_string (Value.float32 v) = p.show32 v
  cast_to_string (Value.float64 v) = p.show64 v
  cast_to_string (Value.string v) = v

  unfoldable pub cast_to_f64 : Value p → Option p.F64
  cast_to_f64 Value.null = none
  cast_to_f64 (Value.boolean b) = some (if b then p.one64 else p.zero64)
  cast_to_f64 (Value.int32 v) = some (p.of_int v)
  cast_to_f64 (Value.int64 v) = some (p.of_int v)
  cast_to_f64 (Value.float32 v) = some (p.widen v)
  cast_to_f64 (Value.float64 v) = some v
  cast_to_f64 (Value.string s) = p.parse64 s

  unfoldable pub cast_to_i64 : Value p → Option ℤ
  cast_to_i64 Value.null = none
  cast_to_i64 (Value.boolean b) = some (if b then pos 1 else pos 0)
  cast_to_i64 (Value.int32 v) = some v
  cast_to_i64 (Value.int64 v) = some v
  cast_to_i64 (Value.float32 v) = some (p.to_i64_of_32 v)
  cast_to_i64 (Value.float64 v) = some (p.to_i64_of_64 v)
  cast_to_i64 (Value.string s) = parse_i64 s

  unfoldable pub cast_to_bool : Value p → Option Bool
  cast_to_bool Value.null = none
  cast_to_bool (Value.boolean b) = some b
  cast_to_bool (Value.int32 v) = some (not (eq_ℤ v (pos 0)))
  cast_to_bool (Value.int64 v) = some (not (eq_ℤ v (pos 0)))
  cast_to_bool (Value.float32 v) = some (not (p.eq32 v p.zero32))
  cast_to_bool (Value.float64 v) = some (not (p.eq64 v p.zero64))
  cast_to_bool (Value.string s) =
      if eq_lower s "true" || eq_lower s "t" || eq_lower s "1" || eq_lower s "yes" || eq_lower s "y"
      then some true
      else if eq_lower s "false"
          || eq_lower s "f"
          || eq_lower s "0"
          || eq_lower s "no"
          || eq_lower s "n"
      then some false
      else none

  -- The derived `PartialEq`: one variant, and equal payloads.
  unfoldable pub eq_value : Value p → Value p → Bool
  eq_value Value.null Value.null = true
  eq_value (Value.boolean a) (Value.boolean b) = bool_eq a b
  eq_value (Value.int32 a) (Value.int32 b) = eq_ℤ a b
  eq_value (Value.int64 a) (Value.int64 b) = eq_ℤ a b
  eq_value (Value.float32 a) (Value.float32 b) = p.eq32 a b
  eq_value (Value.float64 a) (Value.float64 b) = p.eq64 a b
  eq_value (Value.string a) (Value.string b) = str_eq a b
  eq_value _ _ = false

  unfoldable pub try_cmp : Value p → Value p → Result Ordering
  try_cmp Value.null Value.null = ok Ordering.eq
  try_cmp Value.null _ = ok Ordering.lt
  try_cmp _ Value.null = ok Ordering.gt
  try_cmp (Value.boolean a) (Value.boolean b) = ok (bool_cmp a b)
  try_cmp (Value.int32 a) (Value.int32 b) = ok (compare_ℤ a b)
  try_cmp (Value.int64 a) (Value.int64 b) = ok (compare_ℤ a b)
  try_cmp (Value.float32 a) (Value.float32 b) = or_nan (p.partial_cmp32 a b)
  try_cmp (Value.float64 a) (Value.float64 b) = or_nan (p.partial_cmp64 a b)
  try_cmp (Value.string a) (Value.string b) = ok (compare_str a b)
  try_cmp (Value.int32 a) (Value.int64 b) = ok (compare_ℤ a b)
  try_cmp (Value.int64 a) (Value.int32 b) = ok (compare_ℤ a b)
  try_cmp (Value.int32 a) (Value.float64 b) = or_nan (p.partial_cmp64 (p.of_int a) b)
  try_cmp (Value.float64 a) (Value.int32 b) = or_nan (p.partial_cmp64 a (p.of_int b))
  try_cmp (Value.int64 a) (Value.float64 b) = or_nan (p.partial_cmp64 (p.of_int a) b)
  try_cmp (Value.float64 a) (Value.int64 b) = or_nan (p.partial_cmp64 a (p.of_int b))
  try_cmp (Value.float32 a) (Value.float64 b) = or_nan (p.partial_cmp64 (p.widen a) b)
  try_cmp (Value.float64 a) (Value.float32 b) = or_nan (p.partial_cmp64 a (p.widen b))
  try_cmp _ _ = err Error.type
