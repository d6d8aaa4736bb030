-- ===== src/Sql/Session.antt =====
-- crates/rspark-sql/src/session.rs and table_kind.rs: the catalog of a session. A lock that another
-- thread's panic has poisoned is not modelled.
pub mod Lookup
use rust_spark.Common.{Bool, Option, none, some, String, List, [], ◌∷◌, map, Error, Result, ok, err}
use rust_spark.Common.Dict
use rust_spark.Common.Dict.{Dict}
use rust_spark.Core.Schema.{DataType, Schema, new_field}
use rust_spark.Sql.ShowCreate.{Catalog}

pub data TableKind : Type 0 where
  batch streaming_table materialized_view : TableKind

-- `TableKind::as_str`
unfoldable pub kind_name : TableKind → String
kind_name TableKind.batch = "batch"
kind_name TableKind.streaming_table = "streaming_table"
kind_name TableKind.materialized_view = "materialized_view"

pub record TableEntry : Type 0 where
  pub path : String
  pub source : String
  pub schema : Schema
  pub kind : TableKind

pub record SessionState : Type 0 where
  pub tables : Dict TableEntry

-- `SessionState::new`
abbrev pub new_session : SessionState
new_session = record { tables = [] }

unfoldable pub register_with_kind :
    (name path source : String) → Schema → TableKind → SessionState → SessionState
register_with_kind name table_path table_source table_schema table_kind s = record s {
  tables =
      Dict.insert name
        (record {
          path = table_path;
          source = table_source;
          schema = table_schema;
          kind = table_kind;
        })
        s.tables;
}

unfoldable pub register : (name path source : String) → Schema → SessionState → SessionState
unfolding register_with_kind
register name path source schema s = register_with_kind name path source schema TableKind.batch s

unfoldable pub unregister : (name : String) → SessionState → SessionState
unregister name s = record s { tables = Dict.remove name s.tables }

unfoldable pub register_inferred :
    (name path source : String) (field_names : List String) → SessionState → SessionState
unfolding register new_field
register_inferred name path source field_names s =
    register name path source
      (record { fields = map (λ n. new_field n DataType.string) field_names }) s

abbrev pub or_not_found {ℓ κ} : {A : Type ℓ} {B : Type κ} → (A → B) → Option A → Result B
or_not_found f none = err Error.not_found
or_not_found f (some a) = ok (f a)

unfoldable pub table_schema : SessionState → String → Result Schema
table_schema s name = or_not_found (λ t. t.schema) (Dict.get name s.tables)

unfoldable pub table_location : SessionState → String → Result (String × String)
table_location s name = or_not_found (λ t. (t.path, t.source)) (Dict.get name s.tables)

unfoldable pub table_kind : SessionState → String → Result TableKind
table_kind s name = or_not_found (λ t. t.kind) (Dict.get name s.tables)

unfoldable pub list_tables : SessionState → List String
list_tables s = map (λ e. e.0) s.tables

unfoldable pub list_tables_with_kind : SessionState → List (String × TableKind)
list_tables_with_kind s = map (λ e. (e.0, e.1.kind)) s.tables

-- `impl Catalog for SessionState`, for the two lookups that other parts call.
abbrev pub session_catalog : SessionState → Catalog
session_catalog s = record { table_schema = table_schema s; table_location = table_location s }
