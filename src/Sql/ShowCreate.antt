-- ===== src/Sql/ShowCreate.antt =====
-- crates/rspark-sql/src/show_create.rs: the statement that SHOW CREATE TABLE prints. The catalog is a
-- parameter; `try_show_create`, which asks the SQL parser, is not modelled.
pub mod Quoting
use Prim.Native.Char.{code}
use rust_spark.Common.{
  ℕ, Bool, true, false, not, ◌&&◌, ◌||◌, String, List, [], ◌∷◌, map, is_empty, ◌<>◌, ◌==◌, leb,
  if◌then◌else◌, Result, ok, err, panic, ◌>>=◌,
}
use rust_spark.Core.Schema.{DataType, Field, Schema}

-- What `render_create_table` asks of `Catalog`: `table_location` gives the path and the source.
pub record Catalog : Type 0 where
  pub table_schema : String → Result Schema
  pub table_location : String → Result (String × String)

unfoldable pub sql_type : DataType → String
sql_type DataType.null = "NULL"
sql_type DataType.boolean = "BOOLEAN"
sql_type DataType.int32 = "INT"
sql_type DataType.int64 = "BIGINT"
sql_type DataType.float32 = "FLOAT"
sql_type DataType.float64 = "DOUBLE"
sql_type DataType.string = "STRING"
sql_type DataType.date = "DATE"
sql_type DataType.timestamp = "TIMESTAMP"

abbrev pub is_letter : ℕ → Bool
is_letter c = (leb b'a' c && leb c b'z') || (leb b'A' c && leb c b'Z')

abbrev pub is_digit : ℕ → Bool
is_digit c = leb b'0' c && leb c b'9'

-- `name.chars().any(|c| !c.is_ascii_alphanumeric() && c != '_')`
unfoldable pub any_special : String → Bool
any_special String.[] = false
any_special (String.◌∷◌ c s) =
    (not (is_letter (code c) || is_digit (code c)) && not (code c == b'_')) || any_special s

unfoldable pub needs_quote : String → Bool
needs_quote String.[] = true
needs_quote (String.◌∷◌ c s) =
    (not (is_letter (code c)) && not (code c == b'_')) || any_special (String.◌∷◌ c s)

-- `replace(q, qq)` for the character with the code `q`.
unfoldable pub doubled : (q : ℕ) → String → String
doubled q String.[] = ""
doubled q (String.◌∷◌ c s) =
    let rest = doubled q s in
    if code c == q then String.◌∷◌ c (String.◌∷◌ c rest) else String.◌∷◌ c rest

unfoldable pub quote_ident : String → String
quote_ident name = if needs_quote name then String.◌∷◌ "\"" (doubled b'"' name <> "\"") else name

-- One line of the column list.
pub column_line : Field → String
column_line f =
    "  "
    <> quote_ident f.name
    <> " "
    <> sql_type f.data_type
    <> (if f.nullable then "" else " NOT NULL")

-- `join(",\n")`
pub join_lines : List String → String
join_lines [] = ""
join_lines (s ∷ []) = s
join_lines (s ∷ (t ∷ ts)) = s <> ",\n" <> join_lines (t ∷ ts)

pub column_list : List String → String
unfolding join_lines
column_list [] = ""
column_list (l ∷ ls) = "(\n" <> join_lines (l ∷ ls) <> "\n)"

unfoldable pub render_create_table : Catalog → String → Result String
unfolding column_line column_list
render_create_table catalog table = do
  schema ← catalog.table_schema table
  location ← catalog.table_location table
  ok (
      "CREATE TABLE "
      <> quote_ident table
      <> " "
      <> column_list (map column_line schema.fields)
      <> "\nUSING "
      <> location.1
      <> "\nLOCATION '"
      <> doubled 39 location.0
      <> "'")
