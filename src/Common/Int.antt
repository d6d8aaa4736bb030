-- ===== src/Common/Int.antt =====
-- Signed integers over the native numbers, and the two's-complement wrap of Rust's `i64`.
use Prim.Native.Nat.{ℕ, suc, ◌+◌, ◌-◌, ◌*◌, ◌%◌, ◌≤◌, ◌<◌, Ordering, compare}
use mathlib.Core.Path.{◌≡◌}
use mathlib.Core.Bool.{Bool}
use native.Mathlib.Omega.{arith}
use rust_spark.Common.Tests.{ltb, leb, ◌==◌, if◌then◌else◌, reverse_ordering}

-- `negsuc n` is -(n + 1).
pub data ℤ : Type 0 where
  pos : ℕ → ℤ
  negsuc : ℕ → ℤ

abbrev pub pos_part : ℤ → ℕ
pos_part (pos n) = n
pos_part (negsuc n) = 0

abbrev pub neg_part : ℤ → ℕ
neg_part (pos n) = 0
neg_part (negsuc n) = suc n

-- a - b, as an integer.
abbrev pub sub_ℕ : ℕ → ℕ → ℤ
sub_ℕ a b = if leb b a then pos (a - b) else negsuc (b - a - 1)

-- Rust's `cmp` on signed integers.
abbrev pub compare_ℤ : ℤ → ℤ → Ordering
compare_ℤ a b = compare (pos_part a + neg_part b) (pos_part b + neg_part a)

abbrev pub eq_ℤ : ℤ → ℤ → Bool
eq_ℤ a b = (pos_part a + neg_part b) == (pos_part b + neg_part a)

pub compare_ℤ_swap : (a b : ℤ) → compare_ℤ b a ≡ reverse_ordering (compare_ℤ a b)
compare_ℤ_swap a b = ground arith

pub eq_of_parts : (a b : ℤ) → pos_part a + neg_part b ≡ pos_part b + neg_part a → a ≡ b
eq_of_parts a b h = ground arith

abbrev pub two_63 : ℕ
two_63 = 9223372036854775808

abbrev pub two_64 : ℕ
two_64 = 18446744073709551616

-- The value of the 64-bit pattern `n` read as an `i64`.
abbrev pub of_pattern : ℕ → ℤ
of_pattern n = if ltb n two_63 then pos n else negsuc (two_64 - n - 1)

-- The integer `a - b` reduced to an `i64`: the wrap-around of a release build.
pub wrap_i64 : ℕ → ℕ → ℤ
wrap_i64 a b = of_pattern ((a % two_64 + (two_64 - b % two_64)) % two_64)

unfoldable pub IsI64 : ℤ → Type 0
IsI64 a = (pos_part a < two_63) × (neg_part a ≤ two_63)

unfoldable pub add_i64 : ℤ → ℤ → ℤ
unfolding wrap_i64
add_i64 a b = wrap_i64 (pos_part a + pos_part b) (neg_part a + neg_part b)

unfoldable pub sub_i64 : ℤ → ℤ → ℤ
unfolding wrap_i64
sub_i64 a b = wrap_i64 (pos_part a + neg_part b) (neg_part a + pos_part b)

unfoldable pub mul_i64 : ℤ → ℤ → ℤ
unfolding wrap_i64
mul_i64 a b =
    wrap_i64 (pos_part a * pos_part b + neg_part a * neg_part b)
      (pos_part a * neg_part b + neg_part a * pos_part b)

-- Rust's `%`: the remainder has the sign of the dividend.
unfoldable pub rem_ℤ : ℤ → ℤ → ℤ
rem_ℤ a b = let m = pos_part b + neg_part b in sub_ℕ (pos_part a % m) (neg_part a % m)
