-- ===== src/Core/Platform.antt =====
-- What the engine takes from outside the repository: IEEE floats and the `regex` crate.
use rust_spark.Common.{◌≡◌, Bool, Option, none, some, String, Ordering, ℤ, reverse_ordering}

pub record Platform : Type 1 where
  -- `f32` and `f64`, with `==`, `partial_cmp`, the casts and the text forms of the standard library.
  pub F32 : Type 0
  pub F64 : Type 0
  pub eq32 : F32 → F32 → Bool
  pub eq64 : F64 → F64 → Bool
  pub partial_cmp32 : F32 → F32 → Option Ordering
  pub partial_cmp64 : F64 → F64 → Option Ordering
  pub widen : F32 → F64
  pub of_int : ℤ → F64
  pub to_i64_of_32 : F32 → ℤ
  pub to_i64_of_64 : F64 → ℤ
  pub zero32 : F32
  pub zero64 : F64
  pub one64 : F64
  pub add64 : F64 → F64 → F64
  pub sub64 : F64 → F64 → F64
  pub mul64 : F64 → F64 → F64
  pub div64 : F64 → F64 → F64
  pub parse32 : String → Option F32
  pub parse64 : String → Option F64
  pub show32 : F32 → String
  pub show64 : F64 → String
  -- `regex::escape` of a one-character text, and `Regex::new(…)` with `is_match`.
  -- `none` is a pattern that the crate refuses.
  pub escape : String → String
  pub is_match : String → String → Option Bool

abbrev pub swap_answer : Option Ordering → Option Ordering
swap_answer none = none
swap_answer (some o) = some (reverse_ordering o)

-- The contract of `PartialOrd`: `a < b` exactly when `b > a`, and so for the others.
pub record OrdersFloats (p : Platform) : Type 0 where
  pub swap32 : (a b : p.F32) → p.partial_cmp32 b a ≡ swap_answer (p.partial_cmp32 a b)
  pub swap64 : (a b : p.F64) → p.partial_cmp64 b a ≡ swap_answer (p.partial_cmp64 a b)
