-- ===== src/Sql/ShowCreate/Quoting.antt =====
-- Printed identifiers are read back as they were, and printed types are understood.
use Prim.Native.Char.{Char, code}
use Prim.Native.String.append
use text.Mathlib.TextLemmas.{append_assoc}
use rust_spark.Common.{
  ℕ, eq_lower, ◌≡◌, refl, sym, ◌∙◌, ap, Bool, true, false, not, ◌&&◌, ◌||◌, Option, none, some,
  String, ◌==◌, ◌<>◌, if◌then◌else◌, ok, arith, Bool-cases, inl, inr,
}
use rust_spark.Core.Schema.{DataType, type_of_name}
use rust_spark.Sql.ShowCreate.{
  sql_type, is_letter, is_digit, any_special, needs_quote, doubled, quote_ident,
}

-- A character in front of the text that a reader yields.
abbrev consed : Char → Option (String × String) → Option (String × String)
consed c none = none
consed c (some (name, rest)) = some (String.◌∷◌ c name, rest)

-- The rest of a delimited identifier of SQL, behind its opening quote: a doubled quote stands for one,
-- and a single quote ends it.
pub read_quoted : String → Option (String × String)
read_quoted String.[] = none
read_quoted (String.◌∷◌ c String.[]) = if code c == b'"' then some ("", "") else none
read_quoted (String.◌∷◌ c (String.◌∷◌ d s)) =
    let after_pair = read_quoted s in
    let after_one = read_quoted (String.◌∷◌ d s) in
    if code c == b'"'
    then (if code d == b'"' then consed c after_pair else some ("", String.◌∷◌ d s))
    else consed c after_one

abbrev is_word : ℕ → Bool
is_word c = is_letter c || is_digit c || c == b'_'

-- The longest run of letters, digits and underscores, and what follows it.
pub read_word : String → String × String
read_word String.[] = ("", "")
read_word (String.◌∷◌ c s) =
    let rest = read_word s in
    if is_word (code c) then (String.◌∷◌ c rest.0, rest.1) else ("", String.◌∷◌ c s)

-- An identifier of SQL at the start of a text, and what follows it: delimited by quotes, or a word that
-- begins with no digit.
pub read_ident : String → Option (String × String)
read_ident String.[] = none
read_ident (String.◌∷◌ c s) =
    let word = read_word (String.◌∷◌ c s) in
    let delimited = read_quoted s in
    if code c == b'"'
    then delimited
    else if is_word (code c) && not (is_digit (code c))
    then some word
    else none

abbrev after : String → String
after rest = String.◌∷◌ " " rest

read_quoted-cons :
    (c : Char) (t : String)
    → (code c == b'"') ≡ false
    → read_quoted (String.◌∷◌ c t) ≡ consed c (read_quoted t)
unfolding read_quoted
read_quoted-cons c String.[] h = rw h refl
read_quoted-cons c (String.◌∷◌ d s) h = rw h refl

read_quoted-doubled :
    (s rest : String) → read_quoted (doubled b'"' s <> "\"" <> after rest) ≡ some (s, after rest)
unfolding doubled read_quoted
read_quoted-doubled String.[] rest =
    rw (append.nil ("\"" <> after rest), append.cons "\"" "" (after rest), append.nil (after rest))
      refl
read_quoted-doubled (String.◌∷◌ c s) rest = elim (Bool-cases (code c == b'"')) [
  | inl e ↦
      rw
        (
          e,
          append.cons c (String.◌∷◌ c (doubled b'"' s)) ("\"" <> after rest),
          append.cons c (doubled b'"' s) ("\"" <> after rest),
          e,
          read_quoted-doubled s rest,
        )
        refl
  | inr e ↦
      rw
        (
          e,
          append.cons c (doubled b'"' s) ("\"" <> after rest),
          read_quoted-cons c (doubled b'"' s <> "\"" <> after rest) e,
          read_quoted-doubled s rest,
        )
        refl
]

read_word-plain :
    (name rest : String)
    → any_special name ≡ false
    → read_word (name <> after rest) ≡ (name, after rest)
unfolding any_special read_word
read_word-plain String.[] rest h = rw (append.nil (after rest)) refl
read_word-plain (String.◌∷◌ c s) rest h =
    let word : is_word (code c) ≡ true = ground arith in
    rw (append.cons c s (after rest), word, read_word-plain s rest (ground arith)) refl

read_ident-quoted : (t : String) → read_ident (String.◌∷◌ "\"" t) ≡ read_quoted t
unfolding read_ident
read_ident-quoted t = refl

plain_ident :
    (name rest : String)
    → needs_quote name ≡ false
    → read_ident (name <> after rest) ≡ some (name, after rest)
unfolding needs_quote read_ident
plain_ident String.[] rest h = cc
plain_ident (String.◌∷◌ c s) rest h =
    let quote : (code c == b'"') ≡ false = ground arith in
    let word : (is_word (code c) && not (is_digit (code c))) ≡ true = ground arith in
    let whole = read_word-plain (String.◌∷◌ c s) rest (ground arith) in
    rw (append.cons c s (after rest), quote, word)
      (ap some (ap read_word (sym (append.cons c s (after rest))) ∙ whole))

-- Whatever the name, what `quote_ident` prints for it, with a blank behind it as in the list of columns,
-- is read as one identifier of SQL, delimited or a word, which is the name, up to that blank. That a
-- word may be a keyword is left out.
pub read_ident-quote_ident :
    (name rest : String) → read_ident (quote_ident name <> after rest) ≡ some (name, after rest)
unfolding quote_ident
read_ident-quote_ident name rest = elim (Bool-cases (needs_quote name)) [
  | inl e ↦
      rw
        (
          e,
          append.cons "\"" (doubled b'"' name <> "\"") (after rest),
          read_ident-quoted,
          append_assoc (doubled b'"' name) "\"" (after rest),
        )
        (read_quoted-doubled name rest)
  | inr e ↦ rw e (plain_ident name rest e)
]

-- Every type that SHOW CREATE TABLE prints is read back by `DataType::from_str` as that type.
pub type_of_name-sql_type : (t : DataType) → type_of_name (sql_type t) ≡ ok t
unfolding type_of_name sql_type eq_lower
type_of_name-sql_type DataType.boolean = refl
type_of_name-sql_type DataType.int32 = refl
type_of_name-sql_type DataType.int64 = refl
type_of_name-sql_type DataType.float32 = refl
type_of_name-sql_type DataType.float64 = refl
type_of_name-sql_type DataType.string = refl
type_of_name-sql_type DataType.date = refl
type_of_name-sql_type DataType.timestamp = refl
type_of_name-sql_type DataType.null = refl
