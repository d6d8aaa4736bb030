-- ===== src/Storage/Csv.antt =====
-- crates/rspark-storage/src/csv_source.rs: types inferred from cells, cells coerced to types, and the
-- scan of a file. The `csv` crate and the file system are the argument `read`.
pub mod Laws
pub mod Written
use Prim.Native.Char.{code}
use rust_spark.Common.{
  trim, ℕ, zero, suc, Bool, true, false, not, ◌&&◌, ◌||◌, Option, none, some, String, List, [], ◌∷◌,
  map, ◌==◌, leb, ltb, if◌then◌else◌, eq_lower, str_eq, ℤ, pos_part, neg_part, parse_i64, get_elem?,
  is_empty, length, Error, Result, ok, err, panic, ◌>>=◌,
}
use rust_spark.Core.Platform.{Platform}
use rust_spark.Core.Value.{Value}
use rust_spark.Core.Schema.{DataType, Field, Schema, new_field}
use rust_spark.Core.Record.{Record, RecordBatch, from_records}
use rust_spark.Exec.Executor.{ExecutionContext}

-- What `csv::Reader` with headers yields for a file: its headers, and its rows in order. `none`
-- is a line that the crate refuses.
pub record CsvText : Type 0 where
  pub headers : Option (List String)
  pub rows : List (Option (List String))

in_i32 : Option ℤ → Option ℤ
in_i32 none = none
in_i32 (some n) =
    if ltb (pos_part n) 2147483648 && leb (neg_part n) 2147483648 then some n else none

-- `str::parse::<i32>`
unfoldable pub parse_i32 : String → Option ℤ
unfolding in_i32
parse_i32 s = in_i32 (parse_i64 s)

module _ {p : Platform} where
  -- The tail of `parse_csv_value`, from the two numeric readings of the cell.
  pub number_or_text : Option ℤ → Option p.F64 → String → Value p
  number_or_text (some n) _ text = Value.int64 n
  number_or_text none (some x) text = Value.float64 x
  number_or_text none none text = Value.string text

  unfoldable pub parse_csv_value : String → Value p
  unfolding number_or_text
  parse_csv_value raw =
      let trimmed = trim raw in
      if str_eq trimmed "" || eq_lower trimmed "null" || eq_lower trimmed "none"
      then Value.null
      else if eq_lower trimmed "true"
      then Value.boolean true
      else if eq_lower trimmed "false"
      then Value.boolean false
      else number_or_text (parse_i64 trimmed) (p.parse64 trimmed) trimmed

  -- `.map(…).unwrap_or_else(|_| Value::String(…))`
  abbrev pub or_text {ℓ} : {A : Type ℓ} → (A → Value p) → Option A → String → Value p
  or_text f (some a) text = f a
  or_text f none text = Value.string text

  pub coerce_bool : String → Value p
  coerce_bool s =
      if eq_lower s "true" || eq_lower s "t" || eq_lower s "1" || eq_lower s "yes" || eq_lower s "y"
      then Value.boolean true
      else if eq_lower s "false"
          || eq_lower s "f"
          || eq_lower s "0"
          || eq_lower s "no"
          || eq_lower s "n"
      then Value.boolean false
      else Value.string s

  pub coerce_trimmed : String → DataType → Value p
  unfolding coerce_bool
  coerce_trimmed s DataType.boolean = coerce_bool s
  coerce_trimmed s DataType.int64 = or_text Value.int64 (parse_i64 s) s
  coerce_trimmed s DataType.int32 = or_text Value.int32 (parse_i32 s) s
  coerce_trimmed s DataType.float64 = or_text Value.float64 (p.parse64 s) s
  coerce_trimmed s DataType.float32 = or_text Value.float32 (p.parse32 s) s
  coerce_trimmed s _ = Value.string s

  unfoldable pub coerce_value : String → DataType → Value p
  unfolding coerce_trimmed
  coerce_value raw data_type =
      let trimmed = trim raw in
      if str_eq trimmed "" || eq_lower trimmed "null"
      then Value.null
      else coerce_trimmed trimmed data_type

-- The flags of the inner loop of `infer_columns`.
pub record Flags : Type 0 where
  pub all_int : Bool
  pub all_float : Bool
  pub all_bool : Bool
  pub any_value : Bool

module _ {p : Platform} where
  -- One row's cell of the column; `none` where the row is too short.
  unfoldable pub see : Flags → Option (Value p) → Flags
  see f none = f
  see f (some Value.null) = f
  see f (some (Value.int64 _)) = record f { any_value = true }
  see f (some (Value.boolean _)) = record f { any_value = true; all_int = false; all_float = false }
  see f (some (Value.float64 _)) = record f { any_value = true; all_int = false }
  see f (some _) = record f {
    any_value = true;
    all_int = false;
    all_float = false;
    all_bool = false;
  }

  unfoldable pub see_all : Flags → List (Option (Value p)) → Flags
  see_all f [] = f
  see_all f (c ∷ cs) = see_all (see f c) cs

abbrev pub fresh_flags : Flags
fresh_flags = record { all_int = true; all_float = true; all_bool = true; any_value = false }

unfoldable pub type_of_flags : Flags → DataType
type_of_flags f =
    if not f.any_value
    then DataType.string
    else if f.all_int
    then DataType.int64
    else if f.all_float
    then DataType.float64
    else if f.all_bool
    then DataType.boolean
    else DataType.string

module _ {p : Platform} where
  unfoldable pub infer_column : List (Option (Value p)) → DataType
  infer_column cells = type_of_flags (see_all fresh_flags cells)

  -- `for col_idx in 0..headers.len()`: `left'` columns are left, from the column `k` on.
  unfoldable pub infer_columns : List (List (Value p)) → (k left' : ℕ) → List DataType
  unfolding infer_column
  infer_columns rows k zero = []
  infer_columns rows k (suc left') =
      infer_column (map (λ row. get_elem? row k) rows) ∷ infer_columns rows (suc k) left'

  -- `while reader.read_record(…).unwrap_or(false)`: a refused line ends the loop.
  unfoldable pub converted_rows : List (Option (List String)) → List (List (Value p))
  converted_rows [] = []
  converted_rows (none ∷ rows) = []
  converted_rows (some row ∷ rows) = map parse_csv_value row ∷ converted_rows rows

  -- `row.iter().zip(fields).map(coerce_value)`
  unfoldable pub coerce_row : List String → List Field → List (Value p)
  coerce_row (raw ∷ raws) (f ∷ fs) = coerce_value raw f.data_type ∷ coerce_row raws fs
  coerce_row _ _ = []

  unfoldable pub coerce_rows : List (Option (List String)) → Schema → Result (List (Record p))
  unfolding coerce_row
  coerce_rows [] s = ok []
  coerce_rows (none ∷ rows) s = err Error.csv
  coerce_rows (some row ∷ rows) s = do
    rest ← coerce_rows rows s
    ok (record { values = coerce_row row s.fields } ∷ rest)

abbrev pub zip_fields : List String → List DataType → List Field
zip_fields (h ∷ hs) (t ∷ ts) =
    record { name = h; data_type = t; nullable = true } ∷ zip_fields hs ts
zip_fields _ _ = []

-- `CsvSource::infer_schema_from_reader`
unfoldable pub infer_schema : Platform → CsvText → Result Schema
unfolding new_field
infer_schema p text = elim text.headers [
  | none ↦ err Error.storage
  | some hs ↦
      let rows : List (List (Value p)) = converted_rows text.rows in
      ok (record {
        fields =
            if is_empty rows
            then map (λ h. new_field h DataType.string) hs
            else zip_fields hs (infer_columns rows 0 (length hs));
      })
]

module _ {p : Platform} where
  unfoldable pub scan_with : CsvText → Schema → Result (RecordBatch p)
  scan_with text s = do rs ← coerce_rows text.rows s; from_records s rs

  -- `CsvSource::scan_reader`
  unfoldable pub scan_reader : CsvText → Option Schema → Result (RecordBatch p)
  unfolding scan_with
  scan_reader text (some s) = scan_with text s
  scan_reader text none = do s ← infer_schema p text; scan_with text s

  -- `CsvSource::scan`; `read` opens the file and reads it through the crate.
  unfoldable pub scan :
      (read : String → Result CsvText) → (path : String) → Option Schema → Result (RecordBatch p)
  scan read path s = do text ← read path; scan_reader text s

  -- `SourceRegistry::get` where CSV is the only source that is registered.
  abbrev pub csv_context : (read : String → Result CsvText) → ExecutionContext p
  csv_context read = record {
    scan_source = λ source path s.
        if str_eq source "csv" then scan read path (some s) else err Error.not_found;
  }
