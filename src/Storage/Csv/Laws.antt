-- ===== src/Storage/Csv/Laws.antt =====
-- The CSV source keeps the contract of a data source, and reads back the types that it infers.
use rust_spark.Common.{
  trim, map, eq_lower, false, ◌≡◌, true, Option, none, some, String, List, [], ◌∷◌, ℤ, Result,
  str_eq, All, arith, Bool-cases, inl, inr,
}
use rust_spark.Core.Platform.{Platform}
use rust_spark.Core.Value.{Value}
use rust_spark.Core.Schema.{DataType, Schema}
use rust_spark.Exec.Executor.Typed.{Gives, Gives-bind, Gives-from_records, SourcesTyped}
use rust_spark.Storage.Csv.{
  CsvText, parse_csv_value, number_or_text, coerce_trimmed, coerce_value, Flags, see, see_all,
  fresh_flags, type_of_flags, infer_column, coerce_rows, scan_with, scan_reader, scan, csv_context,
}

scan-Gives :
    (p : Platform) (read : String → Result CsvText) (path : String) (s : Schema)
    → Gives {p = p} s (scan read path (some s))
unfolding scan scan_reader scan_with
scan-Gives p read path s =
    Gives-bind s (read path) _
      λ text. Gives-bind s (coerce_rows text.rows s) _ λ rs. Gives-from_records s rs

-- Whatever the files hold, a batch that the CSV source returns for a schema has that schema and rows
-- that fit it: the source keeps the contract that the executor relies on.
pub csv_context-SourcesTyped :
    (p : Platform) (read : String → Result CsvText) → SourcesTyped {p = p} (csv_context read)
csv_context-SourcesTyped p read source path s = elim (Bool-cases (str_eq source "csv")) [
  | inl e ↦ rw e (scan-Gives p read path s)
  | inr e ↦ rw e tt
]

type_int : (f : Flags) → type_of_flags f ≡ DataType.int64 → f.all_int ≡ true
unfolding type_of_flags
type_int f h = ground arith

module _ {p : Platform} where
  -- What keeps a column in the type of integers: an integer, a null, or no cell.
  abbrev pub IsIntCell : Option (Value p) → Type 0
  IsIntCell none = Unit
  IsIntCell (some Value.null) = Unit
  IsIntCell (some (Value.int64 _)) = Unit
  IsIntCell (some _) = ⊥

  see_int :
      (f : Flags) (c : Option (Value p))
      → (see f c).all_int ≡ true
      → (f.all_int ≡ true) × IsIntCell c
  unfolding see
  see_int f c h = ground arith

  see_all_int :
      (f : Flags) (cs : List (Option (Value p)))
      → (see_all f cs).all_int ≡ true
      → (f.all_int ≡ true) × All IsIntCell cs
  unfolding see_all
  see_all_int f [] h = (h, tt)
  see_all_int f (c ∷ cs) h =
      let (a, b) = see_all_int (see f c) cs h in let (d, e) = see_int f c a in (d, (e, b))

  -- A column is given the type of integers only if each of its cells is an integer, null or missing.
  pub infer_column_int :
      (cells : List (Option (Value p))) → infer_column cells ≡ DataType.int64 → All IsIntCell cells
  unfolding infer_column
  infer_column_int cells h = (see_all_int fresh_flags cells (type_int _ h)).1

  -- An integer cell is read back unchanged when it is coerced to the type of integers.
  pub coerce_value-int :
      (raw : String) (n : ℤ)
      → parse_csv_value {p = p} raw ≡ Value.int64 n
      → coerce_value {p = p} raw DataType.int64 ≡ Value.int64 n
  unfolding parse_csv_value coerce_value number_or_text coerce_trimmed
  coerce_value-int raw n h = ground arith

reads_int :
    (p : Platform) (raw : String)
    → IsIntCell {p = p} (some (parse_csv_value {p = p} raw))
    → eq_lower (trim raw) "none" ≡ false
    → IsIntCell {p = p} (some (coerce_value raw DataType.int64))
unfolding parse_csv_value coerce_value number_or_text coerce_trimmed
reads_int p raw h other = ground arith

abbrev pub cells_of : (p : Platform) → List String → List (Option (Value p))
cells_of p raws = map (λ raw. some (parse_csv_value {p = p} raw)) raws

-- If a column of texts is given the type of integers, then each of its cells is coerced to an
-- integer or null, but for a cell that reads NONE in any case of its letters.
pub infer_column-coerce_value :
    (p : Platform) (raws : List String)
    → infer_column {p = p} (cells_of p raws) ≡ DataType.int64
    → All
        (λ raw.
          eq_lower (trim raw) "none" ≡ false
          → IsIntCell {p = p} (some (coerce_value raw DataType.int64)))
        raws
infer_column-coerce_value p raws h = each raws (infer_column_int (cells_of p raws) h)
  where
    each :
        (rs : List String)
        → All IsIntCell (cells_of p rs)
        → All
            (λ raw.
              eq_lower (trim raw) "none" ≡ false
              → IsIntCell {p = p} (some (coerce_value raw DataType.int64)))
            rs
    each [] c = tt
    each (r ∷ rs) c = (reads_int p r c.0, each rs c.1)
