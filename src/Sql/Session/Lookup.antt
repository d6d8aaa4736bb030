-- ===== src/Sql/Session/Lookup.antt =====
-- What the catalog answers after a table is registered or taken off, for that table and all others.
use rust_spark.Common.{
  ◌≡◌, refl, String, Error, Result, ok, err, str_eq, if◌then◌else◌, Bool-cases, inl, inr,
}
use rust_spark.Common.Dict.{get-insert, get-remove}
use rust_spark.Core.Schema.{Schema}
use rust_spark.Sql.Session.{
  SessionState, TableKind, register_with_kind, unregister, table_schema, table_location, table_kind,
}

-- The three answers of the catalog on one table.
abbrev pub answers :
    SessionState → String → Result Schema × (Result (String × String) × Result TableKind)
answers s name = (table_schema s name, (table_location s name, table_kind s name))

-- After a registration the catalog answers with what was registered for that name, and as before for
-- every other name.
pub answers-register_with_kind :
    (name path source : String) (schema : Schema) (kind : TableKind) (s : SessionState)
    (other : String)
    → answers (register_with_kind name path source schema kind s) other
      ≡ (if str_eq name other then (ok schema, (ok (path, source), ok kind)) else answers s other)
unfolding register_with_kind table_schema table_location table_kind
answers-register_with_kind name path source schema kind s other =
    elim (Bool-cases (str_eq name other)) [
      | inl e ↦
          rw
            (
              get-insert name other
                  (record { path = path; source = source; schema = schema; kind = kind }) s.tables,
              e,
            )
            refl
      | inr e ↦
          rw
            (
              get-insert name other
                  (record { path = path; source = source; schema = schema; kind = kind }) s.tables,
              e,
            )
            refl
    ]

-- After a table is taken off the catalog has no answer for its name, and answers as before for every
-- other name.
pub answers-unregister :
    (name : String) (s : SessionState) (other : String)
    → answers (unregister name s) other ≡ (
        if str_eq name other
        then (err Error.not_found, (err Error.not_found, err Error.not_found))
        else answers s other)
unfolding unregister table_schema table_location table_kind
answers-unregister name s other = elim (Bool-cases (str_eq name other)) [
  | inl e ↦ rw (get-remove name other s.tables, e) refl
  | inr e ↦ rw (get-remove name other s.tables, e) refl
]
