-- ===== src/Core/Schema.antt =====
-- crates/rspark-core/src/schema.rs: data types, fields and schemas.
use rust_spark.Common.{
  ℕ, ◌≡◌, refl, Bool, true, false, Option, String, List, [], ◌∷◌, map, ◌++◌, str_eq, eq_iff,
  eq_lower, ◌||◌, ◌&&◌, Error, Result, ok, err, if◌then◌else◌, arith, length, find, position,
}

pub data DataType : Type 0 where
  boolean int32 int64 float32 float64 string date timestamp null : DataType

unfoldable pub eq_type : DataType → DataType → Bool
eq_type DataType.boolean DataType.boolean = true
eq_type DataType.int32 DataType.int32 = true
eq_type DataType.int64 DataType.int64 = true
eq_type DataType.float32 DataType.float32 = true
eq_type DataType.float64 DataType.float64 = true
eq_type DataType.string DataType.string = true
eq_type DataType.date DataType.date = true
eq_type DataType.timestamp DataType.timestamp = true
eq_type DataType.null DataType.null = true
eq_type _ _ = false

unfoldable pub type_name : DataType → String
type_name DataType.boolean = "boolean"
type_name DataType.int32 = "int"
type_name DataType.int64 = "bigint"
type_name DataType.float32 = "float"
type_name DataType.float64 = "double"
type_name DataType.string = "string"
type_name DataType.date = "date"
type_name DataType.timestamp = "timestamp"
type_name DataType.null = "null"

unfoldable pub spark_name : DataType → String
spark_name DataType.boolean = "BOOLEAN"
spark_name DataType.int32 = "INT"
spark_name DataType.int64 = "BIGINT"
spark_name DataType.float32 = "FLOAT"
spark_name DataType.float64 = "DOUBLE"
spark_name DataType.string = "STRING"
spark_name DataType.date = "DATE"
spark_name DataType.timestamp = "TIMESTAMP"
spark_name DataType.null = "VOID"

unfoldable pub is_numeric : DataType → Bool
is_numeric DataType.int32 = true
is_numeric DataType.int64 = true
is_numeric DataType.float32 = true
is_numeric DataType.float64 = true
is_numeric _ = false

-- `DataType::from_str`: the match is on the upper-cased text, so case does not count.
unfoldable pub type_of_name : String → Result DataType
type_of_name s =
    if eq_lower s "boolean" || eq_lower s "bool"
    then ok DataType.boolean
    else if eq_lower s "int" || eq_lower s "integer" || eq_lower s "int32"
    then ok DataType.int32
    else if eq_lower s "bigint" || eq_lower s "int64" || eq_lower s "long"
    then ok DataType.int64
    else if eq_lower s "float" || eq_lower s "float32"
    then ok DataType.float32
    else if eq_lower s "double" || eq_lower s "float64"
    then ok DataType.float64
    else if eq_lower s "string" || eq_lower s "varchar" || eq_lower s "text"
    then ok DataType.string
    else if eq_lower s "date"
    then ok DataType.date
    else if eq_lower s "timestamp"
    then ok DataType.timestamp
    else if eq_lower s "void" || eq_lower s "null" || eq_lower s "none"
    then ok DataType.null
    else err Error.type

pub record Field : Type 0 where
  pub name : String
  pub data_type : DataType
  pub nullable : Bool

-- `Field::new` and `Field::not_null`.
unfoldable pub new_field : String → DataType → Field
new_field n t = record { name = n; data_type = t; nullable = true }

unfoldable pub not_null : String → DataType → Field
not_null n t = record { name = n; data_type = t; nullable = false }

unfoldable pub with_nullable : Field → Bool → Field
with_nullable f b = record f { nullable = b }

unfoldable pub eq_field : Field → Field → Bool
unfolding eq_type
eq_field a b =
    str_eq a.name b.name
    && eq_type a.data_type b.data_type
    && (if a.nullable then b.nullable else (if b.nullable then false else true))

unfoldable pub eq_fields : List Field → List Field → Bool
unfolding eq_field
eq_fields [] [] = true
eq_fields (a ∷ as') (b ∷ bs) = eq_field a b && eq_fields as' bs
eq_fields _ _ = false

pub record Schema : Type 0 where
  pub fields : List Field

-- The derived `PartialEq` of `Schema`.
unfoldable pub eq_schema : Schema → Schema → Bool
unfolding eq_fields
eq_schema a b = eq_fields a.fields b.fields

abbrev pub empty_schema : Schema
empty_schema = record { fields = [] }

unfoldable pub field_names : Schema → List String
field_names s = map (λ f. f.name) s.fields

unfoldable pub field_count : Schema → ℕ
field_count s = length s.fields

unfoldable pub field : Schema → String → Option Field
field s name = find (λ f. str_eq f.name name) s.fields

unfoldable pub index_of : Schema → String → Option ℕ
index_of s name = position (λ f. str_eq f.name name) s.fields

unfoldable pub try_merge : Schema → Schema → Result Schema
try_merge a b = ok (record { fields = a.fields ++ b.fields })

pub eq_type_sound : (a b : DataType) → eq_type a b ≡ true → a ≡ b
unfolding eq_type
eq_type_sound a b h = ground arith

pub eq_field_sound : (a b : Field) → eq_field a b ≡ true → a ≡ b
unfolding eq_field
eq_field_sound a b h = ground (arith, eq_iff a.name b.name, eq_type_sound a.data_type b.data_type)

eq_fields_sound : (as' bs : List Field) → eq_fields as' bs ≡ true → as' ≡ bs
unfolding eq_fields
eq_fields_sound [] [] h = refl
eq_fields_sound [] (b ∷ bs) h = cc
eq_fields_sound (a ∷ as') [] h = cc
eq_fields_sound (a ∷ as') (b ∷ bs) h = ground (arith, eq_field_sound a b, eq_fields_sound as' bs)

-- Schemas that compare equal are equal.
pub eq_schema_sound : (a b : Schema) → eq_schema a b ≡ true → a ≡ b
unfolding eq_schema
eq_schema_sound a b h = ground (arith, eq_fields_sound a.fields b.fields)
