-- ===== src/Storage/Writer.antt =====
-- `OutputWriter` of crates/rspark-storage/src/writer.rs: what a file is given. That the file can be
-- created is assumed. The `csv` crate is the argument `crate`.
use rust_spark.Common.{
  ◌||◌, ◌≡◌, Option, none, some, String, eq_lower, ◌<◌, List, ◌∷◌, map, length, All, Error, Result,
  ok, err, ◌>>=◌, if◌then◌else◌,
}
use rust_spark.Core.Platform.{Platform}
use rust_spark.Core.Value.{Value, cast_to_string}
use rust_spark.Core.Schema.{Field}
use rust_spark.Core.Record.{Record, RecordBatch}
use rust_spark.Storage.Csv.{CsvText}
use rust_spark.Storage.Json.{JsonNumbers, Stream, write_rows}

-- `csv::Writer::write_record` for each record, and `csv::Reader` on the text. `none` is an error.
pub record CsvCrate (Text : Type 0) : Type 0 where
  pub write : List (List String) → Option Text
  pub read : Text → CsvText

-- What the crate documents of the two: records of one length, the header's, which is not zero, are
-- written, and the reader yields the records below the header.
pub record ReadsBack {Text : Type 0} (crate : CsvCrate Text) : Type 0 where
  pub reads_back :
      (header : List String)
      → (rows : List (List String)) → 0 < length header
      → All (λ row. length row ≡ length header) rows
      → (text : Text) × (crate.write (header ∷ rows) ≡ some text)
        × ((crate.read text).rows ≡ map some rows)

abbrev or_csv_error : {A : Type 0} → Option A → Result A
or_csv_error (some a) = ok a
or_csv_error none = err Error.csv

-- What `write` leaves in the file.
pub data Output (p : Platform) (Text : Type 0) : Type 0 where
  csv_text : Text → Output p Text
  json_lines : Stream p → Output p Text

abbrev extension_or_empty : Option String → String
extension_or_empty (some s) = s
extension_or_empty none = ""

module _ {p : Platform} where
  unfoldable pub value_to_csv_string : Value p → String
  value_to_csv_string Value.null = ""
  value_to_csv_string (Value.string s) = s
  value_to_csv_string v = cast_to_string v

  unfoldable pub csv_row : Record p → List String
  unfolding value_to_csv_string
  csv_row r = map value_to_csv_string r.values

  unfoldable pub csv_header : RecordBatch p → List String
  csv_header b = map (λ (f : Field). f.name) b.schema.fields

  unfoldable pub write_csv : {Text : Type 0} → CsvCrate Text → RecordBatch p → Result Text
  unfolding csv_row csv_header
  write_csv crate b = or_csv_error (crate.write (csv_header b ∷ map csv_row b.records))

  -- `OutputWriter::write`; `extension` is the path's extension, if it has one.
  unfoldable pub write_by_extension :
      {Text : Type 0}
      → CsvCrate Text
      → JsonNumbers p
      → (extension : Option String) → RecordBatch p
      → Result (Output p Text)
  unfolding write_csv
  write_by_extension crate to extension b =
      let ext = extension_or_empty extension in
      if eq_lower ext "csv"
      then (do text ← write_csv crate b; ok (Output.csv_text text))
      else if eq_lower ext "json" || eq_lower ext "jsonl" || eq_lower ext "ndjson"
      then ok (Output.json_lines (write_rows to b.schema b.records))
      else err Error.storage
