-- ===== src/Storage/Csv/Written.antt =====
-- What the writer puts out as CSV is read back as the same batch.
use rust_spark.Common.{
  ◌≡◌, refl, Bool, true, false, some, String, List, [], ◌∷◌, map, length, length-map, ◌<◌, ◌≤◌, ℤ,
  pos_part, neg_part, IsI64, show_ℤ, All, arith, ok, ◌>>=◌, eq_lower, trim, IsPlain,
  parse_i64-show_ℤ, show_ℤ-IsPlain,
}
use rust_spark.Core.Platform.{Platform}
use rust_spark.Core.Value.{Value, cast_to_string}
use rust_spark.Core.Schema.{DataType, Field, Schema}
use rust_spark.Core.Record.{Record, RecordBatch, from_records}
use rust_spark.Storage.Csv.{
  coerce_trimmed, coerce_bool, coerce_value, coerce_row, coerce_rows, parse_i32, in_i32, scan_with,
}
use rust_spark.Storage.Writer.{
  CsvCrate, ReadsBack, value_to_csv_string, csv_row, csv_header, write_csv,
}

-- What the standard library documents of floats: a finite one is read back from its text, which is
-- a numeral.
pub record FloatTexts (p : Platform) : Type 0 where
  pub finite32 : p.F32 → Bool
  pub finite64 : p.F64 → Bool
  pub parse32-show32 : (f : p.F32) → finite32 f ≡ true → p.parse32 (p.show32 f) ≡ some f
  pub parse64-show64 : (f : p.F64) → finite64 f ≡ true → p.parse64 (p.show64 f) ≡ some f
  pub plain32 : (f : p.F32) → finite32 f ≡ true → IsPlain (p.show32 f)
  pub plain64 : (f : p.F64) → finite64 f ≡ true → IsPlain (p.show64 f)

module _ {p : Platform} (floats : FloatTexts p) where
  -- The value is null, or one that a column of the type holds and that its text stands for.
  abbrev pub IsKept : Value p → DataType → Type 0
  IsKept Value.null t = Unit
  IsKept (Value.boolean b) t = t ≡ DataType.boolean
  IsKept (Value.int32 i) t =
      (t ≡ DataType.int32) × (pos_part i < 2147483648) × (neg_part i ≤ 2147483648)
  IsKept (Value.int64 i) t = (t ≡ DataType.int64) × IsI64 i
  IsKept (Value.float32 f) t = (t ≡ DataType.float32) × (floats.finite32 f ≡ true)
  IsKept (Value.float64 f) t = (t ≡ DataType.float64) × (floats.finite64 f ≡ true)
  IsKept (Value.string s) t = (t ≡ DataType.string) × IsPlain s

  coerce_plain :
      (s : String) (t : DataType) → IsPlain s → coerce_value {p = p} s t ≡ coerce_trimmed s t
  unfolding coerce_value
  coerce_plain s t h = rw (h.trimmed, h.filled, h.not_null) refl

  coerce_empty : (t : DataType) → coerce_value {p = p} "" t ≡ Value.null
  unfolding coerce_value trim eq_lower
  coerce_empty t = refl

  coerce_true : coerce_value {p = p} "true" DataType.boolean ≡ Value.boolean true
  unfolding coerce_value coerce_trimmed coerce_bool trim eq_lower
  coerce_true = refl

  coerce_false : coerce_value {p = p} "false" DataType.boolean ≡ Value.boolean false
  unfolding coerce_value coerce_trimmed coerce_bool trim eq_lower
  coerce_false = refl

  parse_i32-show_ℤ :
      (i : ℤ)
      → (pos_part i < 2147483648) × (neg_part i ≤ 2147483648)
      → parse_i32 (show_ℤ i) ≡ some i
  unfolding parse_i32 in_i32 IsI64
  parse_i32-show_ℤ i h = rw (parse_i64-show_ℤ i (omega arith, omega arith)) (ground arith)

  kept_cell : (v : Value p) (t : DataType) → IsKept v t → coerce_value (value_to_csv_string v) t ≡ v
  unfolding value_to_csv_string cast_to_string coerce_trimmed
  kept_cell Value.null t h = coerce_empty t
  kept_cell (Value.boolean true) t h = rw h coerce_true
  kept_cell (Value.boolean false) t h = rw h coerce_false
  kept_cell (Value.int32 i) t h =
      rw (coerce_plain (show_ℤ i) t (show_ℤ-IsPlain i), h.0, parse_i32-show_ℤ i (h.1, h.2)) refl
  kept_cell (Value.int64 i) t h =
      rw (coerce_plain (show_ℤ i) t (show_ℤ-IsPlain i), h.0, parse_i64-show_ℤ i h.1) refl
  kept_cell (Value.float32 f) t h =
      rw (coerce_plain (p.show32 f) t (floats.plain32 f h.1), h.0, floats.parse32-show32 f h.1) refl
  kept_cell (Value.float64 f) t h =
      rw (coerce_plain (p.show64 f) t (floats.plain64 f h.1), h.0, floats.parse64-show64 f h.1) refl
  kept_cell (Value.string s) t h = rw (coerce_plain s t h.1, h.0) refl

  -- The values of a row fit the types of the fields, one for one.
  abbrev pub RowKept : List Field → List (Value p) → Type 0
  RowKept [] [] = Unit
  RowKept (f ∷ fs) (v ∷ vs) = IsKept v f.data_type × RowKept fs vs
  RowKept _ _ = ⊥

  kept_row :
      (fs : List Field) (vs : List (Value p))
      → RowKept fs vs
      → coerce_row (map value_to_csv_string vs) fs ≡ vs
  unfolding coerce_row
  kept_row [] [] h = refl
  kept_row [] (v ∷ vs) h = absurd h
  kept_row (f ∷ fs) [] h = absurd h
  kept_row (f ∷ fs) (v ∷ vs) h = rw (kept_cell v f.data_type h.0, kept_row fs vs h.1) refl

  kept_rows :
      (s : Schema) (rs : List (Record p))
      → All (λ r. RowKept s.fields r.values) rs
      → coerce_rows (map some (map csv_row rs)) s ≡ ok rs
  unfolding coerce_rows csv_row
  kept_rows s [] h = refl
  kept_rows s (r ∷ rs) h = rw (kept_row s.fields r.values h.0, kept_rows s rs h.1) refl

  length-RowKept : (fs : List Field) (vs : List (Value p)) → RowKept fs vs → length vs ≡ length fs
  length-RowKept [] [] h = refl
  length-RowKept [] (v ∷ vs) h = absurd h
  length-RowKept (f ∷ fs) [] h = absurd h
  length-RowKept (f ∷ fs) (v ∷ vs) h = omega (arith, length-RowKept fs vs h.1)

  lengths :
      (b : RecordBatch p) (rs : List (Record p))
      → All (λ r. RowKept b.schema.fields r.values) rs
      → All (λ row. length row ≡ length (csv_header b)) (map csv_row rs)
  unfolding csv_row csv_header
  lengths b [] h = tt
  lengths b (r ∷ rs) h = (
    omega (
      arith,
      length-map value_to_csv_string r.values,
      length-map (λ (f : Field). f.name) b.schema.fields,
      length-RowKept b.schema.fields r.values h.0,
    ),
    lengths b rs h.1,
  )

  -- A batch that from_records makes of its own rows is written as CSV without an error, and a scan of
  -- what was written under the same schema gives the same batch, if it has a field and each value is
  -- null or has its field's type, an integer in its range, a finite float, or a text that is not empty, that does not
  -- read NULL and that no white space surrounds.
  pub write_csv-scan_with :
      {Text : Type 0} (crate : CsvCrate Text) (b : RecordBatch p)
      → ReadsBack crate
      → 0 < length b.schema.fields
      → All (λ r. RowKept b.schema.fields r.values) b.records
      → from_records b.schema b.records ≡ ok b
      → (write_csv crate b >>= λ text. scan_with (crate.read text) b.schema) ≡ ok b
  unfolding write_csv scan_with csv_header
  write_csv-scan_with crate b law some_field kept valid =
      let (text, written, back) =
        law.reads_back (csv_header b) (map csv_row b.records)
          (omega (arith, length-map (λ (f : Field). f.name) b.schema.fields, some_field))
          (lengths b b.records kept) in
      rw (written, back, kept_rows b.schema b.records kept) valid
