-- ===== src/Core/Value/Order.antt =====
-- The order of values: `try_cmp` answers the two ways round consistently.
use rust_spark.Common.{
  ◌≡◌, refl, Option, compare_ℤ_swap, compare_str_swap, Ordering, reverse_ordering, Result, ok, err,
  panic, arith,
}
use rust_spark.Core.Platform.{Platform, OrdersFloats, swap_answer}
use rust_spark.Core.Value.{Value, try_cmp, or_nan}

abbrev pub swap_result : Result Ordering → Result Ordering
swap_result (ok o) = ok (reverse_ordering o)
swap_result (err e) = err e
swap_result panic = panic

or_nan_swap : (o o' : Option Ordering) → o' ≡ swap_answer o → or_nan o' ≡ swap_result (or_nan o)
or_nan_swap o o' h = ground arith

module _ {p : Platform} (law : OrdersFloats p) where
  -- Comparing the other way round gives the reversed order, and the same error if there is one,
  -- provided float comparison keeps the contract of `PartialOrd`.
  pub try_cmp_swap : (a b : Value p) → try_cmp b a ≡ swap_result (try_cmp a b)
  unfolding try_cmp
  try_cmp_swap Value.null Value.null = refl
  try_cmp_swap (Value.int32 a) (Value.int32 b) = ground (arith, compare_ℤ_swap a b)
  try_cmp_swap (Value.int64 a) (Value.int64 b) = ground (arith, compare_ℤ_swap a b)
  try_cmp_swap (Value.int32 a) (Value.int64 b) = ground (arith, compare_ℤ_swap a b)
  try_cmp_swap (Value.int64 a) (Value.int32 b) = ground (arith, compare_ℤ_swap a b)
  try_cmp_swap (Value.string a) (Value.string b) = ground (arith, compare_str_swap a b)
  try_cmp_swap (Value.float32 a) (Value.float32 b) = or_nan_swap _ _ (law.swap32 a b)
  try_cmp_swap (Value.float64 a) (Value.float64 b) = or_nan_swap _ _ (law.swap64 a b)
  try_cmp_swap (Value.int32 a) (Value.float64 b) = or_nan_swap _ _ (law.swap64 (p.of_int a) b)
  try_cmp_swap (Value.float64 a) (Value.int32 b) = or_nan_swap _ _ (law.swap64 a (p.of_int b))
  try_cmp_swap (Value.int64 a) (Value.float64 b) = or_nan_swap _ _ (law.swap64 (p.of_int a) b)
  try_cmp_swap (Value.float64 a) (Value.int64 b) = or_nan_swap _ _ (law.swap64 a (p.of_int b))
  try_cmp_swap (Value.float32 a) (Value.float64 b) = or_nan_swap _ _ (law.swap64 (p.widen a) b)
  try_cmp_swap (Value.float64 a) (Value.float32 b) = or_nan_swap _ _ (law.swap64 a (p.widen b))
  try_cmp_swap _ _ = ground arith
