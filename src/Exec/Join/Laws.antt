-- ===== src/Exec/Join/Laws.antt =====
-- What a join keeps: the rows of an outer join, and which rows an unresolved column pairs up.
use rust_spark.Common.{
  suc, eq_iff, position_from, All-append, ℕ, ◌≤◌, ◌≡◌, refl, sym, ◌∙◌, true, not, ◌&&◌, some,
  String, List, [], ◌∷◌, ◌++◌, str_eq, ok, length, length-append, All, arith, Bool-cases, inl, inr,
}
use rust_spark.Core.Platform.{Platform}
use rust_spark.Core.Value.{Value}
use rust_spark.Core.Schema.{Field, Schema, index_of}
use rust_spark.Core.Record.{Record, get_or_null}
use rust_spark.Core.Record.Valid.{FitsFields, Fits}
use rust_spark.Sql.Plan.{JoinType, fields_not_joined, build_join_schema}
use mathlib.Core.List.{append_assoc}
use rust_spark.Exec.Join.{
  is_outer, Pairs, is_joined, join_schema, rows_match, kept_values, column_value, padding,
  joined_row, padded_row, join_matches, has_match, join_one, join_rows,
}

-- The schema that the planner computes for a join is the one that the executor builds.
pub join_schema-agree :
    (l r : Schema) (pairs : Pairs) → build_join_schema l r pairs ≡ ok (join_schema l r pairs)
unfolding build_join_schema join_schema
join_schema-agree l r pairs = refl

index_from_some :
    (name : String) (i : ℕ) (pre : List Field) (f : Field) (fs : List Field)
    → f.name ≡ name
    → (k : ℕ) × (position_from i (λ g. str_eq g.name name) (pre ++ f ∷ fs) ≡ some k)
index_from_some name i [] f fs e = (i, rw ((eq_iff f.name name).1 e))
index_from_some name i (g ∷ pre) f fs e = elim (Bool-cases (str_eq g.name name)) [
  | inl same ↦ (i, rw same)
  | inr other ↦ rw other (index_from_some name (suc i) pre f fs e)
]

abbrev pub Resolves : Schema → Field → Type 0
Resolves s f = (k : ℕ) × (index_of s f.name ≡ some k)

-- Every field of a schema resolves in it by its name.
pub All-resolve : (s : Schema) (pre fs : List Field) → s.fields ≡ pre ++ fs → All (Resolves s) fs
unfolding index_of
All-resolve s pre [] e = tt
All-resolve s pre (f ∷ fs) e = (
  rw e (index_from_some f.name 0 pre f fs refl),
  All-resolve s (pre ++ f ∷ []) fs (e ∙ sym (append_assoc pre (f ∷ []) fs)),
)

-- Every field of the list that the join keeps may be null.
abbrev pub KeptNullable : Pairs → List Field → Type 0
KeptNullable pairs fs = All (λ f. f.nullable ≡ true) (fields_not_joined pairs fs)

module _ {p : Platform} where
  FitsFields-append :
      (vs ws : List (Value p)) (fs gs : List Field)
      → FitsFields vs fs
      → FitsFields ws gs
      → FitsFields (vs ++ ws) (fs ++ gs)
  FitsFields-append [] ws [] gs h k = k
  FitsFields-append [] ws (f ∷ fs) gs h k = absurd h
  FitsFields-append (v ∷ vs) ws [] gs h k = absurd h
  FitsFields-append (v ∷ vs) ws (f ∷ fs) gs h k = (h.0, FitsFields-append vs ws fs gs h.1 k)

padding_fits :
    (p : Platform) (pairs : Pairs) (fs : List Field)
    → KeptNullable pairs fs
    → FitsFields (padding {p = p} pairs fs) (fields_not_joined pairs fs)
unfolding padding fields_not_joined
padding_fits p pairs [] n = tt
padding_fits p pairs (f ∷ fs) n = elim (Bool-cases (is_joined pairs f)) [
  | inl e ↦ rw e (padding_fits p pairs fs (rw e at n))
  | inr e ↦
      let n' : (f.nullable ≡ true) × KeptNullable pairs fs = rw e at n in
      rw e ((λ _. n'.0), padding_fits p pairs fs n'.1)
]

module _ {p : Platform} where
  pub column_value_resolved :
      (rs : Schema) (r : Record p) (f : Field) {k : ℕ}
      → index_of rs f.name ≡ some k
      → column_value rs r f ≡ get_or_null r k ∷ []
  unfolding column_value
  column_value_resolved rs r f e = rw (e, column_value)

  kept_fits :
      (rs : Schema) (pairs : Pairs) (fs : List Field) (r : Record p)
      → All (Resolves rs) fs
      → KeptNullable pairs fs
      → FitsFields (kept_values rs pairs fs r) (fields_not_joined pairs fs)
  unfolding kept_values fields_not_joined
  kept_fits rs pairs [] r a n = tt
  kept_fits rs pairs (f ∷ fs) r a n = elim (Bool-cases (is_joined pairs f)) [
    | inl e ↦ rw e (kept_fits rs pairs fs r a.1 (rw e at n))
    | inr e ↦
        let n' : (f.nullable ≡ true) × KeptNullable pairs fs = rw e at n in
        let one : column_value rs r f ≡ get_or_null r a.0.0 ∷ [] =
          column_value_resolved rs r f a.0.1 in
        rw (e, one) ((λ _. n'.0), kept_fits rs pairs fs r a.1 n'.1)
  ]

module _ {p : Platform} (ls rs : Schema) (pairs : Pairs) where
  matches_pos :
      (l : Record p) (rights : List (Record p))
      → has_match ls rs pairs l rights ≡ true
      → 1 ≤ length (join_matches ls rs pairs l rights)
  unfolding has_match join_matches
  matches_pos l [] h = cc
  matches_pos l (r ∷ rights) h = ground (arith, matches_pos l rights)

  outer_pos :
      (rights : List (Record p)) (l : Record p)
      → 1 ≤ length (join_one ls rs pairs JoinType.left rights l)
  unfolding join_one
  outer_pos rights l = elim (Bool-cases (has_match ls rs pairs l rights)) [
    | inl e ↦ rw e (matches_pos l rights e)
    | inr e ↦ rw e (
        omega
          (arith, length-append (join_matches ls rs pairs l rights) (padded_row rs pairs l ∷ [])))
  ]

  -- A left join keeps every left row: it returns at least as many rows as the left side has.
  pub join_rows-left :
      (rights lefts : List (Record p))
      → length lefts ≤ length (join_rows ls rs pairs JoinType.left rights lefts)
  unfolding join_rows
  join_rows-left rights [] = omega arith
  join_rows-left rights (l ∷ lefts) = omega (
    arith,
    length-append (join_one ls rs pairs JoinType.left rights l)
        (join_rows ls rs pairs JoinType.left rights lefts),
    outer_pos rights l,
    join_rows-left rights lefts,
  )

  module _ (nullable : KeptNullable pairs rs.fields) where
    abbrev Out : Record p → Type 0
    Out = Fits (join_schema ls rs pairs)

    joined-Fits : (l r : Record p) → Fits ls l → Out (joined_row rs pairs l r)
    unfolding joined_row join_schema
    joined-Fits l r fits =
        FitsFields-append l.values (kept_values rs pairs rs.fields r) ls.fields
          (fields_not_joined pairs rs.fields) fits
          (kept_fits rs pairs rs.fields r (All-resolve rs [] rs.fields refl) nullable)

    padded-Fits : (l : Record p) → Fits ls l → Out (padded_row rs pairs l)
    unfolding padded_row join_schema
    padded-Fits l fits =
        FitsFields-append l.values (padding pairs rs.fields) ls.fields
          (fields_not_joined pairs rs.fields) fits (padding_fits p pairs rs.fields nullable)

    matches_fit :
        (l : Record p) (rights : List (Record p))
        → Fits ls l
        → All Out (join_matches ls rs pairs l rights)
    unfolding join_matches
    matches_fit l [] fits = tt
    matches_fit l (r ∷ rights) fits = elim (Bool-cases (rows_match ls rs pairs l r)) [
      | inl e ↦ rw e (joined-Fits l r fits, matches_fit l rights fits)
      | inr e ↦ rw e (matches_fit l rights fits)
    ]

    one-Fits :
        (how : JoinType) (rights : List (Record p)) (l : Record p)
        → Fits ls l
        → All Out (join_one ls rs pairs how rights l)
    unfolding join_one
    one-Fits how rights l fits =
        elim (Bool-cases (not (has_match ls rs pairs l rights) && is_outer how)) [
          | inl e ↦ rw e (
              All-append Out (join_matches ls rs pairs l rights) (padded_row rs pairs l ∷ [])
                (matches_fit l rights fits) (padded-Fits l fits, tt))
          | inr e ↦ rw e (matches_fit l rights fits)
        ]

    pub rows_fit :
        (how : JoinType) (rights lefts : List (Record p))
        → All (Fits ls) lefts
        → All Out (join_rows ls rs pairs how rights lefts)
    unfolding join_rows
    rows_fit how rights [] fits = tt
    rows_fit how rights (l ∷ lefts) fits =
        All-append Out (join_one ls rs pairs how rights l) (join_rows ls rs pairs how rights lefts)
          (one-Fits how rights l fits.0) (rows_fit how rights lefts fits.1)
