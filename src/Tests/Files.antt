-- ===== src/Tests/Files.antt =====
-- The CSV source, and the executor on the caller's rows, at concrete inputs.
use rust_spark.Common.{
  ℕ, map, trim, ◌≡◌, refl, true, false, some, none, String, List, [], ◌∷◌, pos, ok, err, Result,
  Error, All, ◌>>=◌, str_eq, eq_lower, if◌then◌else◌, ℤ, two_63, pos_part, neg_part, ltb, leb, ◌==◌,
  ◌&&◌, all, length, Bool, Option, arith, IsI64, parse_i64-show_ℤ, show_ℤ-IsPlain, negsuc,
}
use rust_spark.Core.Value.{Value}
use rust_spark.Core.Schema.{DataType}
use rust_spark.Core.Record.{from_records}
use rust_spark.Core.Record.Valid.{IsTyped, from_records-IsTyped}
use rust_spark.Exec.Executor.{execute}
use rust_spark.Exec.Executor.Typed.{SourcesTyped}
use rust_spark.Exec.Seeded.{
  materialize_input, apply_tree, execute_with_input, execute_with_input-IsTyped,
}
use rust_spark.Storage.Csv.{CsvText, parse_csv_value, coerce_value, infer_column, csv_context}
use rust_spark.Storage.Csv.Laws.{
  cells_of, IsIntCell, csv_context-SourcesTyped, infer_column-coerce_value,
}
use rust_spark.Storage.Csv.{scan_with}
use rust_spark.Storage.Csv.Written.{FloatTexts, write_csv-scan_with}
use rust_spark.Storage.Writer.{CsvCrate, ReadsBack, write_csv}
use rust_spark.Tests.Samples.{whole, people, table, shop, shop-SourcesTyped, scan_people}

-- name,age with one full row and one row that lacks the age.
abbrev people_csv : String → Result CsvText
people_csv path =
    if str_eq path "people.csv"
    then ok (record {
      headers = some ("name" ∷ "age" ∷ []);
      rows = some ("ann" ∷ " 41" ∷ []) ∷ some ("bob" ∷ "null" ∷ []) ∷ [];
    })
    else err Error.io

csv_context-SourcesTyped_example : SourcesTyped {p = whole} (csv_context people_csv)
csv_context-SourcesTyped_example = csv_context-SourcesTyped whole people_csv

abbrev ages : List String
ages = " 41" ∷ "null" ∷ "-7" ∷ []

ages_int : infer_column {p = whole} (cells_of whole ages) ≡ DataType.int64
unfolding infer_column rust_spark.Storage.Csv.type_of_flags rust_spark.Storage.Csv.see_all
    rust_spark.Storage.Csv.see parse_csv_value trim eq_lower rust_spark.Common.parse_i64
ages_int = refl

infer_column-coerce_value_example :
    All
      (λ raw.
        eq_lower (trim raw) "none" ≡ false
        → IsIntCell {p = whole} (some (coerce_value raw DataType.int64)))
      ages
infer_column-coerce_value_example = infer_column-coerce_value whole ages ages_int

parsed : parse_csv_value {p = whole} " 41" ≡ Value.int64 (pos 41)
unfolding parse_csv_value trim eq_lower rust_spark.Common.parse_i64
parsed = refl

-- A column of an integer and a truth value is given the type of truth values.
mixed : infer_column {p = whole} (cells_of whole ("7" ∷ "true" ∷ [])) ≡ DataType.boolean
unfolding infer_column rust_spark.Storage.Csv.type_of_flags rust_spark.Storage.Csv.see_all
    rust_spark.Storage.Csv.see parse_csv_value trim eq_lower rust_spark.Common.parse_i64
mixed = refl

read_table : materialize_input shop scan_people ≡ ok table
unfolding materialize_input from_records
read_table = refl

read_rows : from_records people table.records ≡ ok table
unfolding from_records
read_rows = refl

table-IsTyped : IsTyped people table
table-IsTyped = (from_records-IsTyped people table.records {b = table} read_rows).0

seeded_run : execute_with_input shop scan_people table ≡ ok table
unfolding execute_with_input materialize_input from_records apply_tree
    rust_spark.Exec.Executor.apply_scan
seeded_run = refl

execute_with_input-IsTyped_example : IsTyped people table
unfolding rust_spark.Sql.Plan.output_schema
execute_with_input-IsTyped_example =
    execute_with_input-IsTyped shop shop-SourcesTyped scan_people table table
      (λ leaf. table-IsTyped) seeded_run

-- A crate that keeps the records as they are, and refuses records of several lengths.
abbrev same_lengths : List (List String) → Bool
same_lengths [] = true
same_lengths (header ∷ rows) = all (λ row. length row == length header) rows

abbrev body : List (List String) → List (List String)
body [] = []
body (header ∷ rows) = rows

abbrev kept_crate : CsvCrate (List (List String))
kept_crate = record {
  write = λ records. if same_lengths records then some records else none;
  read = λ records. record { headers = none; rows = map some (body records) };
}

all_same :
    (n : ℕ) (rows : List (List String))
    → All (λ row. length row ≡ n) rows
    → all (λ row. length row == n) rows ≡ true
all_same n [] h = refl
all_same n (row ∷ rows) h = ground (arith, all_same n rows h.1)

kept_crate-ReadsBack : ReadsBack kept_crate
kept_crate-ReadsBack = record {
  reads_back =
      λ header rows filled h. (header ∷ rows, rw (all_same (length header) rows h) refl, refl);
}

abbrev in_i64 : ℤ → Bool
in_i64 i = ltb (pos_part i) two_63 && leb (neg_part i) two_63

in_i64-IsI64 : (i : ℤ) → in_i64 i ≡ true → IsI64 i
unfolding IsI64
in_i64-IsI64 i h = (ground arith, ground arith)

whole-FloatTexts : FloatTexts whole
whole-FloatTexts = record {
  finite32 = in_i64;
  finite64 = in_i64;
  parse32-show32 = λ f h. parse_i64-show_ℤ f (in_i64-IsI64 f h);
  parse64-show64 = λ f h. parse_i64-show_ℤ f (in_i64-IsI64 f h);
  plain32 = λ f h. show_ℤ-IsPlain f;
  plain64 = λ f h. show_ℤ-IsPlain f;
}

write_csv-scan_with_example :
    (write_csv kept_crate table >>= λ text. scan_with (kept_crate.read text) people) ≡ ok table
unfolding trim eq_lower IsI64
write_csv-scan_with_example =
    write_csv-scan_with whole-FloatTexts kept_crate table kept_crate-ReadsBack (omega arith)
      (
        (
          (refl, record { trimmed = refl; filled = refl; not_null = refl }),
          ((refl, (omega arith, omega arith)), tt),
        ),
        (
          ((refl, record { trimmed = refl; filled = refl; not_null = refl }), (tt, tt)),
          (
            (
              (refl, record { trimmed = refl; filled = refl; not_null = refl }),
              ((refl, (omega arith, omega arith)), tt),
            ),
            tt,
          ),
        ),
      )
      read_rows
