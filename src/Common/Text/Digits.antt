-- ===== src/Common/Text/Digits.antt =====
-- Decimal numbers are read back as they were shown, and show no white space.
use Prim.Native.Nat.{ℕ, zero, suc, ◌+◌, ◌-◌, ◌*◌, ◌/◌, ◌%◌, ◌≤◌, ◌<◌}
use Prim.Native.Char.{code}
use Prim.Native.String.append
use Prim.Native.String.compare
use Prim.Native.String.{String, ◌++◌ as str_append}
use mathlib.Core.Path.{◌≡◌, refl, ◌∙◌, ap}
use mathlib.Core.Bool.{false}
use mathlib.Core.List.{List, [], ◌∷◌, ◌++◌}
use mathlib.Core.Option.{Option, none, some}
use native.Mathlib.Omega.{arith}
use mathlib.Core.Logic.{inl, inr}
use rust_spark.Common.Tests.{Bool-cases, ltb, ◌==◌}
use rust_spark.Common.Int.{ℤ, pos, negsuc, two_63, IsI64}
use rust_spark.Common.Lists.{All, All-append}
use rust_spark.Common.Trim.{is_whitespace, trim, trim_start, trim_end}
use rust_spark.Common.Text.{
  codes, digit, show_digits, read_digits, read_number, pos_in_range, neg_in_range, read_i64, show_ℕ,
  show_ℤ, parse_i64, eq_lower, lower_codes, str_eq,
}

codes-append : (s t : String) → codes (str_append s t) ≡ codes s ++ codes t
codes-append String.[] t = ap codes (append.nil t)
codes-append (String.◌∷◌ c s) t =
    ap codes (append.cons c s t) ∙ ap (λ cs. code c ∷ cs) (codes-append s t)

codes-digit : (n : ℕ) → n < 10 → codes (digit n) ≡ (48 + n) ∷ []
unfolding digit
codes-digit zero h = refl
codes-digit (suc zero) h = refl
codes-digit (suc (suc zero)) h = refl
codes-digit (suc (suc (suc zero))) h = refl
codes-digit (suc (suc (suc (suc zero)))) h = refl
codes-digit (suc (suc (suc (suc (suc zero))))) h = refl
codes-digit (suc (suc (suc (suc (suc (suc zero)))))) h = refl
codes-digit (suc (suc (suc (suc (suc (suc (suc zero))))))) h = refl
codes-digit (suc (suc (suc (suc (suc (suc (suc (suc zero)))))))) h = refl
codes-digit (suc (suc (suc (suc (suc (suc (suc (suc (suc zero))))))))) h = refl
codes-digit (suc (suc (suc (suc (suc (suc (suc (suc (suc (suc n)))))))))) h = absurd (omega arith)

next_digit : ℕ → Option ℕ → Option ℕ
next_digit c none = none
next_digit c (some v) = some (v * 10 + (c - 48))

read_digits-snoc :
    (acc : ℕ) (cs : List ℕ) (c : ℕ)
    → 48 ≤ c
    → c ≤ 57
    → read_digits acc (cs ++ c ∷ []) ≡ next_digit c (read_digits acc cs)
unfolding read_digits next_digit
read_digits-snoc acc [] c h k = ground arith
read_digits-snoc acc (d ∷ cs) c h k =
    ground (arith, read_digits-snoc (acc * 10 + (d - 48)) cs c h k)

abbrev pub limit : ℕ → ℕ
limit zero = 1
limit (suc n) = 10 * limit n

read_digits-show_digits :
    (fuel n : ℕ) → n < limit fuel → read_digits 0 (codes (show_digits fuel n)) ≡ some n
unfolding show_digits read_digits next_digit
read_digits-show_digits zero n h = ground arith
read_digits-show_digits (suc fuel) n h = elim (Bool-cases (ltb n 10)) [
  | inl e ↦ rw (e, codes-digit n (ground arith)) (ground arith)
  | inr e ↦
      rw
        (
          e,
          codes-append (show_digits fuel (n / 10)) (digit (n % 10)),
          codes-digit (n % 10) (omega arith),
          read_digits-snoc 0 (codes (show_digits fuel (n / 10))) (48 + n % 10) (omega arith)
              (omega arith),
          read_digits-show_digits fuel (n / 10) (omega arith),
        )
        (ap some (omega arith))
]

abbrev IsDigit : ℕ → Type 0
IsDigit c = (48 ≤ c) × (c ≤ 57)

-- At least one code, and each a digit.
abbrev HasDigits : List ℕ → Type 0
HasDigits [] = ⊥
HasDigits (c ∷ cs) = IsDigit c × All IsDigit cs

HasDigits-snoc : (cs : List ℕ) (c : ℕ) → All IsDigit cs → IsDigit c → HasDigits (cs ++ c ∷ [])
HasDigits-snoc [] c h k = (k, tt)
HasDigits-snoc (d ∷ cs) c h k = (h.0, All-append IsDigit cs (c ∷ []) h.1 (k, tt))

HasDigits-All : (cs : List ℕ) → HasDigits cs → All IsDigit cs
HasDigits-All [] h = tt
HasDigits-All (c ∷ cs) h = h

show_digits-HasDigits :
    (fuel n : ℕ)
    → All IsDigit (codes (show_digits fuel (n / 10)))
    → HasDigits (codes (show_digits (suc fuel) n))
unfolding show_digits
show_digits-HasDigits fuel n h = elim (Bool-cases (ltb n 10)) [
  | inl e ↦ rw (e, codes-digit n (ground arith)) ((omega arith, ground arith), tt)
  | inr e ↦
      rw
        (
          e,
          codes-append (show_digits fuel (n / 10)) (digit (n % 10)),
          codes-digit (n % 10) (omega arith),
        )
        (HasDigits-snoc (codes (show_digits fuel (n / 10))) (48 + n % 10) h
          (omega arith, omega arith))
]

show_digits-All : (fuel n : ℕ) → All IsDigit (codes (show_digits fuel n))
unfolding show_digits
show_digits-All zero n = tt
show_digits-All (suc fuel) n =
    HasDigits-All (codes (show_digits (suc fuel) n))
      (show_digits-HasDigits fuel n (show_digits-All fuel (n / 10)))

show_ℕ-show_digits : (n : ℕ) → show_ℕ n ≡ show_digits 20 n
unfolding show_ℕ
show_ℕ-show_digits n = refl

show_ℕ-HasDigits : (n : ℕ) → HasDigits (codes (show_ℕ n))
show_ℕ-HasDigits n =
    rw (show_ℕ-show_digits n) (show_digits-HasDigits 19 n (show_digits-All 19 (n / 10)))

read_digits-show_ℕ : (n : ℕ) → n < limit 20 → read_digits 0 (codes (show_ℕ n)) ≡ some n
read_digits-show_ℕ n h = rw (show_ℕ-show_digits n) (read_digits-show_digits 20 n h)

read_pos :
    (cs : List ℕ) (n : ℕ)
    → HasDigits cs
    → read_digits 0 cs ≡ some n
    → n < two_63
    → read_i64 cs ≡ some (pos n)
unfolding read_i64 read_number pos_in_range
read_pos [] n h e k = absurd h
read_pos (c ∷ cs) n h e k =
    let minus : (c == b'-') ≡ false = ground arith in
    let plus : (c == b'+') ≡ false = ground arith in rw (minus, plus, e) (ground arith)

read_neg :
    (cs : List ℕ) (n : ℕ)
    → HasDigits cs
    → read_digits 0 cs ≡ some (suc n)
    → n < two_63
    → read_i64 (b'-' ∷ cs) ≡ some (negsuc n)
unfolding read_i64 read_number neg_in_range
read_neg [] n h e k = absurd h
read_neg (c ∷ cs) n h e k = rw e (ground arith)

codes-minus : (s : String) → codes (str_append "-" s) ≡ b'-' ∷ codes s
codes-minus s = codes-append "-" s

-- A 64-bit integer is read back from its decimal text.
pub parse_i64-show_ℤ : (i : ℤ) → IsI64 i → parse_i64 (show_ℤ i) ≡ some i
unfolding parse_i64 show_ℤ IsI64
parse_i64-show_ℤ (pos n) h =
    read_pos (codes (show_ℕ n)) n (show_ℕ-HasDigits n) (read_digits-show_ℕ n (omega arith)) h.0
parse_i64-show_ℤ (negsuc n) h = rw (codes-minus (show_ℕ (suc n))) (
    read_neg (codes (show_ℕ (suc n))) n (show_ℕ-HasDigits (suc n))
      (read_digits-show_ℕ (suc n) (omega arith)) (omega arith))

abbrev IsVisible : ℕ → Type 0
IsVisible c = is_whitespace c ≡ false

trim_end-IsVisible : (s : String) → All IsVisible (codes s) → trim_end s ≡ s
unfolding trim_end
trim_end-IsVisible String.[] h = refl
trim_end-IsVisible (String.◌∷◌ c s) h = rw (h.0, trim_end-IsVisible s h.1) refl

trim_start-IsVisible : (s : String) → All IsVisible (codes s) → trim_start s ≡ s
unfolding trim_start
trim_start-IsVisible String.[] h = refl
trim_start-IsVisible (String.◌∷◌ c s) h = rw h.0 refl

trim-IsVisible : (s : String) → All IsVisible (codes s) → trim s ≡ s
unfolding trim
trim-IsVisible s h = rw (trim_start-IsVisible s h) (trim_end-IsVisible s h)

-- What a cell of the CSV source needs to be taken as it stands.
pub record IsPlain (s : String) : Type 0 where
  pub trimmed : trim s ≡ s
  pub filled : str_eq s "" ≡ false
  pub not_null : eq_lower s "null" ≡ false

-- A visible text whose first character stands before the letters.
abbrev IsNumeral : List ℕ → Type 0
IsNumeral [] = ⊥
IsNumeral (c ∷ cs) = (c < 65) × All IsVisible (c ∷ cs)

IsNumeral-not_null : (s : String) → IsNumeral (codes s) → eq_lower s "null" ≡ false
unfolding eq_lower lower_codes
IsNumeral-not_null String.[] h = absurd h
IsNumeral-not_null (String.◌∷◌ c s) h = ground arith

IsNumeral-filled : (s : String) → IsNumeral (codes s) → str_eq s "" ≡ false
IsNumeral-filled String.[] h = absurd h
IsNumeral-filled (String.◌∷◌ c s) h = rw (compare.cons-nil c s) refl

IsNumeral-All : (cs : List ℕ) → IsNumeral cs → All IsVisible cs
IsNumeral-All [] h = tt
IsNumeral-All (c ∷ cs) h = h.1

IsNumeral-IsPlain : (s : String) → IsNumeral (codes s) → IsPlain s
IsNumeral-IsPlain s h = record {
  trimmed = trim-IsVisible s (IsNumeral-All (codes s) h);
  filled = IsNumeral-filled s h;
  not_null = IsNumeral-not_null s h;
}

digits-IsVisible : (cs : List ℕ) → All IsDigit cs → All IsVisible cs
digits-IsVisible [] h = tt
digits-IsVisible (c ∷ cs) h = (ground arith, digits-IsVisible cs h.1)

HasDigits-IsNumeral : (cs : List ℕ) → HasDigits cs → IsNumeral cs
HasDigits-IsNumeral [] h = h
HasDigits-IsNumeral (c ∷ cs) h = (omega arith, digits-IsVisible (c ∷ cs) h)

minus-IsNumeral : (cs : List ℕ) → HasDigits cs → IsNumeral (b'-' ∷ cs)
minus-IsNumeral cs h = (omega arith, (refl, digits-IsVisible cs (HasDigits-All cs h)))

-- The text of an integer is no null and has no white space around it.
pub show_ℤ-IsPlain : (i : ℤ) → IsPlain (show_ℤ i)
unfolding show_ℤ
show_ℤ-IsPlain (pos n) =
    IsNumeral-IsPlain (show_ℕ n) (HasDigits-IsNumeral (codes (show_ℕ n)) (show_ℕ-HasDigits n))
show_ℤ-IsPlain (negsuc n) = IsNumeral-IsPlain (str_append "-" (show_ℕ (suc n))) (
    rw (codes-minus (show_ℕ (suc n)))
      (minus-IsNumeral (codes (show_ℕ (suc n))) (show_ℕ-HasDigits (suc n))))
