-- ===== src/Core/Record/Valid.antt =====
-- What `validate`, `from_records`, `push` and `extend` guarantee of a batch.
use rust_spark.Common.{
  ◌≡◌, refl, ◌↔◌, true, List, [], ◌∷◌, ◌++◌, ◌==◌, ==_iff, ok, >>=-eq-ok, ok-injective, sym, ◌∙◌,
  length, All, All-append, arith, Bool-cases, inl, inr,
}
use mathlib.Core.Path.{subst}
use rust_spark.Core.Platform.{Platform}
use rust_spark.Core.Value.{Value, is_null}
use rust_spark.Core.Schema.{Field, Schema, eq_schema, eq_schema_sound}
use rust_spark.Core.Record.{
  Record, RecordBatch, check_nulls, validate, validate_all, from_records, push, extend,
}

module _ {p : Platform} where
  -- A row fits fields: as many values as fields, and a null only under a nullable field.
  abbrev pub FitsFields : List (Value p) → List Field → Type 0
  FitsFields [] [] = Unit
  FitsFields [] (f ∷ fs) = ⊥
  FitsFields (v ∷ vs) [] = ⊥
  FitsFields (v ∷ vs) (f ∷ fs) = (is_null v ≡ true → f.nullable ≡ true) × FitsFields vs fs

  abbrev pub Fits : Schema → Record p → Type 0
  Fits s r = FitsFields r.values s.fields

  abbrev pub IsWellFormed : RecordBatch p → Type 0
  IsWellFormed b = All (Fits b.schema) b.records

  -- The batch has the schema, and each of its rows fits it.
  pub record IsTyped (s : Schema) (b : RecordBatch p) : Type 0 where
    pub has_schema : b.schema ≡ s
    pub rows_fit : All (Fits s) b.records

  check_nulls_iff :
      (vs : List (Value p)) (fs : List Field)
      → length vs ≡ length fs
      → (check_nulls vs fs ≡ ok tt) ↔ FitsFields vs fs
  unfolding check_nulls
  check_nulls_iff [] [] e = ground arith
  check_nulls_iff [] (f ∷ fs) e = absurd (omega arith)
  check_nulls_iff (v ∷ vs) [] e = absurd (omega arith)
  check_nulls_iff (v ∷ vs) (f ∷ fs) e = ground (arith, check_nulls_iff vs fs (omega arith))

  length_of_fits :
      (vs : List (Value p)) (fs : List Field) → FitsFields vs fs → length vs ≡ length fs
  length_of_fits [] [] h = refl
  length_of_fits [] (f ∷ fs) h = absurd h
  length_of_fits (v ∷ vs) [] h = absurd h
  length_of_fits (v ∷ vs) (f ∷ fs) h = omega (arith, length_of_fits vs fs h.1)

  -- `validate` accepts exactly the rows that fit the schema: a row has as many values as the schema has
  -- fields, and a null only where allowed.
  pub validate_iff : (r : Record p) (s : Schema) → (validate r s ≡ ok tt) ↔ Fits s r
  unfolding validate
  validate_iff r s = elim (Bool-cases (length r.values == length s.fields)) [
    | inl e ↦ rw e (check_nulls_iff r.values s.fields ((==_iff _ _).0 e))
    | inr e ↦ (λ h. ground arith, λ h. ground (arith, length_of_fits r.values s.fields h))
  ]

  validate_all_iff :
      (s : Schema) (rs : List (Record p)) → (validate_all s rs ≡ ok tt) ↔ All (Fits s) rs
  unfolding validate_all
  validate_all_iff s [] = (λ h. tt, λ h. refl)
  validate_all_iff s (r ∷ rs) = (
    λ h.
        let (_, e, rest) = >>=-eq-ok (validate r s) (λ _. validate_all s rs) h in
        ((validate_iff r s).0 e, (validate_all_iff s rs).0 rest),
    λ h. rw ((validate_iff r s).1 h.0) ((validate_all_iff s rs).1 h.1),
  )

  -- A batch that `from_records` returns has the schema and the rows it was given, and they fit.
  pub from_records-IsTyped :
      (s : Schema) (rs : List (Record p)) {b : RecordBatch p}
      → from_records s rs ≡ ok b
      → IsTyped s b × (b.records ≡ rs)
  unfolding from_records
  from_records-IsTyped s rs h =
      let (_, checked, e) =
        >>=-eq-ok (validate_all s rs) (λ _. ok (record { schema = s; records = rs })) h in
      subst (λ b. IsTyped s b × (b.records ≡ rs)) (ok-injective e)
        (record { has_schema = refl; rows_fit = (validate_all_iff s rs).0 checked }, refl)

  -- Rows that fit are accepted.
  pub from_records_total :
      (s : Schema) (rs : List (Record p))
      → All (Fits s) rs
      → from_records s rs ≡ ok (record { schema = s; records = rs })
  unfolding from_records
  from_records_total s rs h = rw ((validate_all_iff s rs).1 h)

  -- A row that `push` adds to a typed batch stands last, and the batch stays typed.
  pub push-IsTyped :
      (s : Schema) (b b' : RecordBatch p) (r : Record p)
      → IsTyped s b
      → push b r ≡ ok b'
      → IsTyped s b' × (b'.records ≡ b.records ++ r ∷ [])
  unfolding push
  push-IsTyped s b b' r t h =
      let (_, checked, e) =
        >>=-eq-ok (validate r b.schema) (λ _. ok (record b { records = b.records ++ r ∷ [] })) h in
      subst (λ b'. IsTyped s b' × (b'.records ≡ b.records ++ r ∷ [])) (ok-injective e)
        (
          record {
            has_schema = t.has_schema;
            rows_fit =
                All-append (Fits s) b.records (r ∷ []) t.rows_fit
                  ((validate_iff r s).0 (rw t.has_schema at checked), tt);
          },
          refl,
        )

  -- A typed batch that is extended by a well-formed one stays typed, and has the rows of both in order.
  pub extend-IsTyped :
      (s : Schema) (b c d : RecordBatch p)
      → IsTyped s b
      → IsWellFormed c
      → extend b c ≡ ok d
      → IsTyped s d × (d.records ≡ b.records ++ c.records)
  unfolding extend
  extend-IsTyped s b c d t w h = elim (Bool-cases (eq_schema b.schema c.schema)) [
    | inl same ↦
        let one = eq_schema_sound b.schema c.schema same in
        let e : ok (record b { records = b.records ++ c.records }) ≡ ok d = rw same at h in
        subst (λ d. IsTyped s d × (d.records ≡ b.records ++ c.records)) (ok-injective e)
          (
            record {
              has_schema = t.has_schema;
              rows_fit =
                  All-append (Fits s) b.records c.records t.rows_fit
                    (subst (λ q. All (Fits q) c.records) (sym one ∙ t.has_schema) w);
            },
            refl,
          )
    | inr other ↦ cc (other, h)
  ]
