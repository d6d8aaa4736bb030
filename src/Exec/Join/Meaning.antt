-- ===== src/Exec/Join/Meaning.antt =====
-- What a join returns, described by the values under the names of its pairs: the loops, the flag and the
-- column numbers of `join_batches` do not appear in it.
use rust_spark.Common.{
  ℕ, ◌≡◌, refl, Bool, true, false, not, ◌&&◌, Option, none, some, String, List, [], ◌∷◌, ◌++◌, map,
  all, keep, is_empty, ok, All, arith, Bool-cases, inl, inr, if◌then◌else◌,
}
use rust_spark.Core.Platform.{Platform}
use rust_spark.Core.Value.{Value, eq_value}
use rust_spark.Core.Schema.{Field, Schema, index_of}
use rust_spark.Core.Record.{Record, RecordBatch, get_or_null}
use rust_spark.Core.Record.Valid.{from_records_total, IsWellFormed}
use rust_spark.Sql.Plan.{JoinType, fields_not_joined}
use rust_spark.Exec.Join.{
  is_outer, is_rejected, Pairs, is_joined, join_schema, pair_matches, rows_match, kept_values,
  padding, joined_row, padded_row, join_matches, has_match, join_one, join_rows, join_batches,
}
use rust_spark.Exec.Join.Laws.{KeptNullable, Resolves, All-resolve, column_value_resolved, rows_fit}

abbrev pub concat_map {ℓ κ} : {A : Type ℓ} {B : Type κ} → (A → List B) → List A → List B
concat_map f [] = []
concat_map f (x ∷ xs) = f x ++ concat_map f xs

module _ {p : Platform} where
  abbrev value_at : Record p → Option ℕ → Option (Value p)
  value_at r none = none
  value_at r (some i) = some (get_or_null r i)

  -- The value of a row under a name, where the schema has the name.
  abbrev pub value_of : Schema → Record p → String → Option (Value p)
  value_of s r name = value_at r (index_of s name)

  -- A name that one side lacks constrains nothing.
  abbrev pub agree : Option (Value p) → Option (Value p) → Bool
  agree (some a) (some b) = eq_value a b
  agree _ _ = true

  abbrev pub null_if_none : Option (Value p) → Value p
  null_if_none (some v) = v
  null_if_none none = Value.null

  module _ (ls rs : Schema) (pairs : Pairs) where
    -- The two rows have equal values under each pair of names.
    abbrev pub are_partners : Record p → Record p → Bool
    are_partners l r = all (λ pair. agree (value_of ls l pair.0) (value_of rs r pair.1)) pairs

    -- The left values, and those of the right row under the names that are in no pair.
    abbrev pub combined : Record p → Record p → Record p
    combined l r = record {
      values =
          l.values
          ++ map (λ f. null_if_none (value_of rs r f.name)) (fields_not_joined pairs rs.fields);
    }

    abbrev pub alone : Record p → Record p
    alone l = record {
      values = l.values ++ map (λ f. Value.null) (fields_not_joined pairs rs.fields);
    }

    -- A left row with each of its partners, or alone in an outer join if it has none.
    abbrev pub left_rows : JoinType → List (Record p) → Record p → List (Record p)
    left_rows how rights l =
        let partners = keep (are_partners l) rights in
        if is_empty partners && is_outer how then alone l ∷ [] else map (combined l) partners

  pair_matches-agree :
      (ls rs : Schema) (pair : String × String) (l r : Record p)
      → pair_matches ls rs pair l r ≡ agree (value_of ls l pair.0) (value_of rs r pair.1)
  unfolding pair_matches
  pair_matches-agree ls rs pair l r = ground arith

  rows_match-are_partners :
      (ls rs : Schema) (pairs : Pairs) (l r : Record p)
      → rows_match ls rs pairs l r ≡ are_partners ls rs pairs l r
  unfolding rows_match
  rows_match-are_partners ls rs [] l r = refl
  rows_match-are_partners ls rs (pair ∷ pairs) l r =
      rw (pair_matches-agree ls rs pair l r, rows_match-are_partners ls rs pairs l r) refl

  kept_values-map :
      (rs : Schema) (pairs : Pairs) (fs : List Field) (r : Record p)
      → All (Resolves rs) fs
      → kept_values rs pairs fs r
        ≡ map (λ f. null_if_none (value_of rs r f.name)) (fields_not_joined pairs fs)
  unfolding kept_values fields_not_joined
  kept_values-map rs pairs [] r a = refl
  kept_values-map rs pairs (f ∷ fs) r a = elim (Bool-cases (is_joined pairs f)) [
    | inl e ↦ rw e (kept_values-map rs pairs fs r a.1)
    | inr e ↦
        rw (e, column_value_resolved rs r f a.0.1, kept_values-map rs pairs fs r a.1, a.0.1) refl
  ]

  padding-map :
      (pairs : Pairs) (fs : List Field)
      → padding {p = p} pairs fs ≡ map (λ f. Value.null) (fields_not_joined pairs fs)
  unfolding padding fields_not_joined
  padding-map pairs [] = refl
  padding-map pairs (f ∷ fs) = elim (Bool-cases (is_joined pairs f)) [
    | inl e ↦ rw e (padding-map pairs fs)
    | inr e ↦ rw (e, padding-map pairs fs) refl
  ]

  module _ (ls rs : Schema) (pairs : Pairs) where
    joined_row-combined : (l r : Record p) → joined_row rs pairs l r ≡ combined ls rs pairs l r
    unfolding joined_row
    joined_row-combined l r =
        rw (kept_values-map rs pairs rs.fields r (All-resolve rs [] rs.fields refl)) refl

    padded_row-alone : (l : Record p) → padded_row rs pairs l ≡ alone ls rs pairs l
    unfolding padded_row
    padded_row-alone l = rw (padding-map pairs rs.fields) refl

    join_matches-keep :
        (l : Record p) (rights : List (Record p))
        → join_matches ls rs pairs l rights
          ≡ map (combined ls rs pairs l) (keep (are_partners ls rs pairs l) rights)
    unfolding join_matches
    join_matches-keep l [] = refl
    join_matches-keep l (r ∷ rights) = elim (Bool-cases (are_partners ls rs pairs l r)) [
      | inl e ↦
          rw
            (
              rows_match-are_partners ls rs pairs l r,
              e,
              joined_row-combined l r,
              join_matches-keep l rights,
            )
            refl
      | inr e ↦ rw (rows_match-are_partners ls rs pairs l r, e) (join_matches-keep l rights)
    ]

    has_match-is_empty :
        (l : Record p) (rights : List (Record p))
        → not (has_match ls rs pairs l rights) ≡ is_empty (keep (are_partners ls rs pairs l) rights)
    unfolding has_match
    has_match-is_empty l [] = refl
    has_match-is_empty l (r ∷ rights) =
        ground (arith, rows_match-are_partners ls rs pairs l r, has_match-is_empty l rights)

    join_one-left_rows :
        (how : JoinType) (rights : List (Record p)) (l : Record p)
        → join_one ls rs pairs how rights l ≡ left_rows ls rs pairs how rights l
    unfolding join_one
    join_one-left_rows how rights l =
        rw (has_match-is_empty l rights, join_matches-keep l rights, padded_row-alone l)
          (one (keep (are_partners ls rs pairs l) rights))
      where
        one :
            (partners : List (Record p))
            → (if is_empty partners && is_outer how
                then map (combined ls rs pairs l) partners ++ alone ls rs pairs l ∷ []
                else map (combined ls rs pairs l) partners)
              ≡ (if is_empty partners && is_outer how
                  then alone ls rs pairs l ∷ []
                  else map (combined ls rs pairs l) partners)
        one [] = refl
        one (r ∷ partners) = refl

    join_rows-left_rows :
        (how : JoinType) (rights lefts : List (Record p))
        → join_rows ls rs pairs how rights lefts
          ≡ concat_map (left_rows ls rs pairs how rights) lefts
    unfolding join_rows
    join_rows-left_rows how rights [] = refl
    join_rows-left_rows how rights (l ∷ lefts) =
        rw (join_one-left_rows how rights l, join_rows-left_rows how rights lefts) refl

-- An inner or left join of a well-formed left batch returns, and never fails, when the fields that it
-- keeps from the right side are all nullable. For each left row in order, the result has the row with
-- each right row that has equal values under every pair of names that both sides have, in order; or, in
-- a left join where no right row does, the row once with nulls.
pub join_batches-total :
    {p : Platform} (lb rb : RecordBatch p) (pairs : Pairs) (how : JoinType)
    → IsWellFormed lb
    → KeptNullable pairs rb.schema.fields
    → is_rejected how ≡ false
    → join_batches lb rb pairs how
      ≡ ok (record {
        schema = join_schema lb.schema rb.schema pairs;
        records = concat_map (left_rows lb.schema rb.schema pairs how rb.records) lb.records;
      })
unfolding join_batches
join_batches-total lb rb pairs how wf n accepted =
    rw (accepted, ← join_rows-left_rows lb.schema rb.schema pairs how rb.records lb.records)
      (from_records_total _ _ (rows_fit lb.schema rb.schema pairs n how rb.records lb.records wf))
