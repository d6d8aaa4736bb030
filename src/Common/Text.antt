-- ===== src/Common/Text.antt =====
-- Text: comparison, ASCII case folding, and decimal numbers.
pub mod Digits
use Prim.Native.Nat.{ℕ, zero, suc, ◌+◌, ◌-◌, ◌*◌, ◌/◌, ◌%◌, Ordering}
use Prim.Native.Char.{code}
use Prim.Native.String.{String, ◌++◌ as str_append, compare, then as then_by}
use Prim.Native.String.compare
use mathlib.Core.Path.{◌≡◌, refl, sym, ◌∙◌, ap}
use mathlib.Core.Bool.{Bool, true, false, ◌&&◌}
use mathlib.Core.List.{List, [], ◌∷◌}
use mathlib.Core.Option.{Option, none, some}
use native.Mathlib.Omega.{arith}
pub use text.Mathlib.Text.{◌==◌ as str_eq}
pub use text.Mathlib.TextEquality.{eq_iff}
use rust_spark.Common.Tests.{ltb, leb, ◌==◌, if◌then◌else◌, reverse_ordering, compare_swap}
use rust_spark.Common.Int.{ℤ, pos, negsuc, two_63}

infixr 66 ◌<>◌
abbrev pub ◌<>◌ : String → String → String
s <> t = str_append s t

abbrev pub compare_str : String → String → Ordering
compare_str s t = compare s t

then_swap :
    (o r o' r' : Ordering)
    → o' ≡ reverse_ordering o
    → r' ≡ reverse_ordering r
    → then_by o' r' ≡ reverse_ordering (then_by o r)
then_swap o r o' r' h k = ground arith

-- Comparing texts the other way round gives the reversed order.
pub compare_str_swap : (s t : String) → compare_str t s ≡ reverse_ordering (compare_str s t)
compare_str_swap String.[] String.[] = refl
compare_str_swap String.[] (String.◌∷◌ d t) =
    compare.cons-nil d t ∙ ap reverse_ordering (sym (compare.nil-cons d t))
compare_str_swap (String.◌∷◌ c s) String.[] =
    compare.nil-cons c s ∙ ap reverse_ordering (sym (compare.cons-nil c s))
compare_str_swap (String.◌∷◌ c s) (String.◌∷◌ d t) =
    compare.cons-cons d c t s
    ∙ then_swap _ _ _ _ (compare_swap (code c) (code d)) (compare_str_swap s t)
    ∙ ap reverse_ordering (sym (compare.cons-cons c d s t))

abbrev pub codes : String → List ℕ
codes String.[] = []
codes (String.◌∷◌ c s) = code c ∷ codes s

abbrev pub codes_eq : List ℕ → List ℕ → Bool
codes_eq [] [] = true
codes_eq (a ∷ as') (b ∷ bs) = (a == b) && codes_eq as' bs
codes_eq _ _ = false

-- `to_ascii_lowercase`, on code points.
abbrev pub lower : ℕ → ℕ
lower c = if leb b'A' c && leb c b'Z' then c + 32 else c

pub lower_codes : String → List ℕ
lower_codes String.[] = []
lower_codes (String.◌∷◌ c s) = lower (code c) ∷ lower_codes s

-- `s.to_ascii_lowercase() == t`, for a lower-case text `t`.
unfoldable pub eq_lower : String → String → Bool
unfolding lower_codes
eq_lower s t = codes_eq (lower_codes s) (codes t)

unfoldable digit : ℕ → String
digit zero = "0"
digit (suc zero) = "1"
digit (suc (suc zero)) = "2"
digit (suc (suc (suc zero))) = "3"
digit (suc (suc (suc (suc zero)))) = "4"
digit (suc (suc (suc (suc (suc zero))))) = "5"
digit (suc (suc (suc (suc (suc (suc zero)))))) = "6"
digit (suc (suc (suc (suc (suc (suc (suc zero))))))) = "7"
digit (suc (suc (suc (suc (suc (suc (suc (suc zero)))))))) = "8"
digit _ = "9"

-- Decimal digits, most significant first. Twenty digits hold every 64-bit number.
unfoldable show_digits : ℕ → ℕ → String
unfolding digit
show_digits zero n = ""
show_digits (suc fuel) n =
    let high = show_digits fuel (n / 10) in
    if ltb n 10 then digit n else str_append high (digit (n % 10))

unfoldable pub show_ℕ : ℕ → String
unfolding show_digits
show_ℕ n = show_digits 20 n

unfoldable pub show_ℤ : ℤ → String
unfolding show_ℕ
show_ℤ (pos n) = show_ℕ n
show_ℤ (negsuc n) = str_append "-" (show_ℕ (suc n))

abbrev pub show_bool : Bool → String
show_bool true = "true"
show_bool false = "false"

-- The value of a run of decimal digits; `none` at any other character.
unfoldable read_digits : ℕ → List ℕ → Option ℕ
read_digits acc [] = some acc
read_digits acc (c ∷ cs) =
    let rest = read_digits (acc * 10 + (c - 48)) cs in if leb 48 c && leb c 57 then rest else none

unfoldable read_number : List ℕ → Option ℕ
unfolding read_digits
read_number [] = none
read_number (c ∷ cs) = read_digits 0 (c ∷ cs)

unfoldable pos_in_range : Option ℕ → Option ℤ
pos_in_range none = none
pos_in_range (some n) = if ltb n two_63 then some (pos n) else none

unfoldable neg_in_range : Option ℕ → Option ℤ
neg_in_range none = none
neg_in_range (some zero) = some (pos 0)
neg_in_range (some (suc n)) = if ltb n two_63 then some (negsuc n) else none

-- `str::parse::<i64>`: an optional sign, at least one digit, and a value in range.
unfoldable read_i64 : List ℕ → Option ℤ
unfolding read_number pos_in_range neg_in_range
read_i64 [] = none
read_i64 (c ∷ cs) =
    if c == b'-'
    then neg_in_range (read_number cs)
    else if c == b'+'
    then pos_in_range (read_number cs)
    else pos_in_range (read_number (c ∷ cs))

unfoldable pub parse_i64 : String → Option ℤ
unfolding read_i64
parse_i64 s = read_i64 (codes s)

test_show : show_ℤ (negsuc 119) ≡ "-120"
unfolding show_ℤ
test_show = refl

test_parse : parse_i64 "-120" ≡ some (negsuc 119)
unfolding parse_i64
test_parse = refl
