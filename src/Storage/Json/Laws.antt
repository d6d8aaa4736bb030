-- ===== src/Storage/Json/Laws.antt =====
-- What the JSON source guarantees, and the way back from the writer's rows.
use mathlib.Core.Path.{subst}
use rust_spark.Common.{
  IsI64, ◌≡◌, refl, ◌∙◌, false, ◌||◌, Bool-cases, inl, inr, none, some, String, str_eq, eq_iff,
  List, [], ◌∷◌, ◌++◌, ℤ, Result, ok, ◌>>=◌, arith, All, >>=-eq-ok, ok-injective,
}
use rust_spark.Common.Dict
use rust_spark.Common.Dict.{Dict, get-insert}
use rust_spark.Core.Platform.{Platform}
use rust_spark.Core.Value.{Value}
use rust_spark.Core.Schema.{DataType, Field, Schema, new_field}
use rust_spark.Core.Record.{Record}
use rust_spark.Exec.Executor.Typed.{Gives, Gives-bind, Gives-from_records, SourcesTyped}
use rust_spark.Storage.Json.{
  JsonNumber, Json, Item, Stream, JsonNumbers, json_type, json_to_value, object_row, read_rows,
  has_field, add_fields, infer_fields, infer_schema_from_reader, scan_json_with, json_context,
  value_to_json, write_object, write_rows,
}

module _ {p : Platform} (files : String → Result (Stream p)) where
  scan_json-Gives :
      (path : String) (s : Schema) → Gives s (files path >>= λ stream. scan_json_with s stream)
  unfolding scan_json_with
  scan_json-Gives path s =
      Gives-bind s (files path) _
        λ stream. Gives-bind s (read_rows s stream) _ λ rows. Gives-from_records s rows

  -- Whatever the files hold, a batch that the JSON source returns for a schema has that schema and rows
  -- that fit it.
  pub json_context-SourcesTyped : SourcesTyped (json_context files)
  unfolding json_context
  json_context-SourcesTyped source path s = elim (Bool-cases (str_eq source "json")) [
    | inl e ↦ rw e (scan_json-Gives path s)
    | inr e ↦ rw e tt
  ]

-- No two fields of the list have one name.
abbrev pub DistinctNames : List Field → Type 0
DistinctNames [] = Unit
DistinctNames (f ∷ fs) = (has_field f.name fs ≡ false) × DistinctNames fs

module _ {p : Platform} (to : JsonNumbers p) where
  -- What `serde_json` documents of integers: one that fits `i64` reads back as that integer.
  pub record KeepsIntegers : Type 0 where
    pub keeps_int :
        (i : ℤ) → IsI64 i → (n : JsonNumber p) × (to.of_int i ≡ Json.number n) × (n.as_i64 ≡ some i)

  module _ (law : KeepsIntegers) where
    -- The value is null, or one that a column of the type holds. Floats are left out: the crate may read
    -- a float as a neighbour of the one that was written.
    abbrev pub IsOf : Value p → DataType → Type 0
    IsOf Value.null t = Unit
    IsOf (Value.boolean b) t = t ≡ DataType.boolean
    IsOf (Value.int64 i) t = (t ≡ DataType.int64) × IsI64 i
    IsOf (Value.string s) t = t ≡ DataType.string
    IsOf _ t = ⊥

    value-round_trip :
        (v : Value p) (t : DataType) → IsOf v t → json_to_value (value_to_json to v) t ≡ v
    unfolding json_to_value value_to_json
    value-round_trip Value.null t h = refl
    value-round_trip (Value.boolean b) t h = refl
    value-round_trip (Value.int64 i) t h =
        let (n, e, g) = law.keeps_int i h.1 in rw (e, h.0, g) refl
    value-round_trip (Value.string s) t h = rw h refl
    value-round_trip (Value.int32 i) t h = absurd h
    value-round_trip (Value.float32 f) t h = absurd h
    value-round_trip (Value.float64 f) t h = absurd h

    -- The values of a row fit the types of the fields, one for one.
    abbrev pub RowOf : List Field → List (Value p) → Type 0
    RowOf [] [] = Unit
    RowOf (f ∷ fs) (v ∷ vs) = IsOf v f.data_type × RowOf fs vs
    RowOf _ _ = ⊥

    get-write_object :
        (k : String) (fs : List Field) (vs : List (Value p)) (obj : Dict (Json p))
        → has_field k fs ≡ false
        → Dict.get k (write_object to fs vs obj) ≡ Dict.get k obj
    unfolding write_object has_field
    get-write_object k [] vs obj h = refl
    get-write_object k (f ∷ fs) [] obj h = refl
    get-write_object k (f ∷ fs) (v ∷ vs) obj h =
        get-write_object k fs vs (Dict.insert f.name (value_to_json to v) obj) (ground arith)
        ∙ ground (arith, get-insert f.name k (value_to_json to v) obj)

    object_row-write_object :
        (fs : List Field) (vs : List (Value p)) (obj : Dict (Json p))
        → DistinctNames fs
        → RowOf fs vs
        → object_row fs (write_object to fs vs obj) ≡ vs
    unfolding object_row write_object
    object_row-write_object [] [] obj d h = refl
    object_row-write_object [] (v ∷ vs) obj d h = absurd h
    object_row-write_object (f ∷ fs) [] obj d h = absurd h
    object_row-write_object (f ∷ fs) (v ∷ vs) obj d h =
        let obj' = Dict.insert f.name (value_to_json to v) obj in
        let found : Dict.get f.name (write_object to fs vs obj') ≡ some (value_to_json to v) =
          get-write_object f.name fs vs obj' d.0
          ∙ ground
              (arith, get-insert f.name f.name (value_to_json to v) obj, eq_iff f.name f.name) in
        rw (found, value-round_trip v f.data_type h.0, object_row-write_object fs vs obj' d.1 h.1)
          refl

    -- Rows that the writer puts out as objects are read back as the same rows under the same schema, if
    -- its names differ and every value is null or a Boolean, a 64-bit integer or a text under the type of
    -- its field.
    pub read_rows-write_rows :
        (s : Schema) (rs : List (Record p))
        → DistinctNames s.fields
        → All (λ r. RowOf s.fields r.values) rs
        → read_rows s (write_rows to s rs) ≡ ok rs
    unfolding read_rows write_rows
    read_rows-write_rows s [] d h = refl
    read_rows-write_rows s (r ∷ rs) d h =
        rw (object_row-write_object s.fields r.values [] d h.0, read_rows-write_rows s rs d h.1)
          refl

has_field-snoc :
    (k : String) (fs : List Field) (f : Field)
    → has_field k (fs ++ f ∷ []) ≡ (has_field k fs || str_eq f.name k)
unfolding has_field
has_field-snoc k [] f = ground arith
has_field-snoc k (g ∷ fs) f = ground (arith, has_field-snoc k fs f)

DistinctNames-snoc :
    (fs : List Field) (f : Field)
    → DistinctNames fs
    → has_field f.name fs ≡ false
    → DistinctNames (fs ++ f ∷ [])
unfolding has_field
DistinctNames-snoc [] f d h = (refl, tt)
DistinctNames-snoc (g ∷ fs) f d h = (
  ground (arith, has_field-snoc g.name fs f, eq_iff f.name g.name, eq_iff g.name f.name),
  DistinctNames-snoc fs f d.1 (ground arith),
)

module _ {p : Platform} where
  add_fields-DistinctNames :
      (m : Dict (Json p)) (fs : List Field) → DistinctNames fs → DistinctNames (add_fields m fs)
  unfolding add_fields new_field
  add_fields-DistinctNames [] fs d = d
  add_fields-DistinctNames ((k, v) ∷ m) fs d = elim (Bool-cases (has_field k fs)) [
    | inl e ↦ rw e (add_fields-DistinctNames m fs d)
    | inr e ↦ rw e (
        add_fields-DistinctNames m (fs ++ new_field k (json_type v) ∷ [])
          (DistinctNames-snoc fs (new_field k (json_type v)) d e))
  ]

  infer_fields-DistinctNames :
      (stream : Stream p) (fs : List Field) {out : List Field}
      → DistinctNames fs
      → infer_fields stream fs ≡ ok out
      → DistinctNames out
  unfolding infer_fields
  infer_fields-DistinctNames [] fs d h = subst DistinctNames (ok-injective h) d
  infer_fields-DistinctNames (none ∷ rest) fs d h = cc
  infer_fields-DistinctNames (some Item.other ∷ rest) fs d h =
      infer_fields-DistinctNames rest fs d h
  infer_fields-DistinctNames (some (Item.object m) ∷ rest) fs d h =
      infer_fields-DistinctNames rest (add_fields m fs) (add_fields-DistinctNames m fs d) h

  -- A schema inferred from JSON objects has no two fields of one name.
  pub infer_schema-DistinctNames :
      (stream : Stream p) (s : Schema)
      → infer_schema_from_reader stream ≡ ok s
      → DistinctNames s.fields
  unfolding infer_schema_from_reader
  infer_schema-DistinctNames stream s h =
      let (fields, found, made) = >>=-eq-ok (infer_fields stream []) _ h in
      subst (λ (q : Schema). DistinctNames q.fields) (ok-injective made)
        (infer_fields-DistinctNames stream [] tt found)
