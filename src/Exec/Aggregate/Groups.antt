-- ===== src/Exec/Aggregate/Groups.antt =====
-- Each group is aggregated from exactly its own rows.
use rust_spark.Common.{
  ◌≡◌, refl, sym, true, false, Option, some, String, List, [], ◌∷◌, is_equal, Ordering, Result, ok,
  ◌>>=◌, >>=-eq-ok, ok-injective, if◌then◌else◌, arith, Bool-cases, inl, inr,
}
use mathlib.Core.Path.{subst}
use text.Mathlib.TextEquality.{path_by_compare}
use text.Mathlib.TextPositions.{compare_refl}
use rust_spark.Core.Platform.{Platform}
use rust_spark.Core.Value.{Value}
use rust_spark.Core.Record.{Record, RecordBatch}
use rust_spark.Core.Expr.{Expr}
use rust_spark.Exec.Aggregate.{
  GroupState, Groups, key_compare, find_group, put_group, key_of, eval_all, grow, group_row,
  group_rows,
}

-- Keys that compare equal are equal, and the other way round.
pub key_compare_sound : (k j : List String) → is_equal (key_compare k j) ≡ true → k ≡ j
unfolding key_compare
key_compare_sound [] [] h = refl
key_compare_sound [] (t ∷ ts) h = cc
key_compare_sound (s ∷ ss) [] h = cc
key_compare_sound (s ∷ ss) (t ∷ ts) h = ground (arith, path_by_compare s t, key_compare_sound ss ts)

pub key_compare_refl : (k : List String) → key_compare k k ≡ Ordering.eq
unfolding key_compare
key_compare_refl [] = refl
key_compare_refl (s ∷ ss) = rw (compare_refl s) (key_compare_refl ss)

module _ {p : Platform} where
  pub find_group-put_self :
      (k : List String) (g : GroupState p) (m : Groups p) → find_group k (put_group k g m) ≡ some g
  unfolding find_group put_group
  find_group-put_self k g [] = rw (key_compare_refl k)
  find_group-put_self k g ((j, h) ∷ m) =
      ground (arith, key_compare_refl k, find_group-put_self k g m)

  pub find_group-put_ne :
      (k j : List String) (g : GroupState p) (m : Groups p)
      → is_equal (key_compare j k) ≡ false
      → find_group j (put_group k g m) ≡ find_group j m
  unfolding find_group put_group
  find_group-put_ne k j g [] e = rw e
  find_group-put_ne k j g ((i, h) ∷ m) e =
      ground (arith, key_compare_sound k i, find_group-put_ne k j g m e)

  module _ (groups aggs : List (Expr p)) (batch : RecordBatch p) where
    -- What the rows with one key make of that key's group, with all other rows passed over.
    abbrev pub own_row :
        List String
        → Option (GroupState p)
        → Record p
        → List (Value p)
        → Result (Option (GroupState p))
    own_row k old row values =
        if is_equal (key_compare k (key_of values))
        then (grow groups aggs batch values old row >>= λ g. ok (some g))
        else ok old

    pub group_only :
        List String → Option (GroupState p) → List (Record p) → Result (Option (GroupState p))
    group_only k old [] = ok old
    group_only k old (row ∷ rows) = do
      values ← eval_all groups row batch
      new ← own_row k old row values
      group_only k new rows

    own_row_step :
        (k : List String) (m : Groups p) (row : Record p) (values : List (Value p))
        (g : GroupState p)
        → grow groups aggs batch values (find_group (key_of values) m) row ≡ ok g
        → own_row k (find_group k m) row values ≡ ok (find_group k (put_group (key_of values) g m))
    own_row_step k m row values g h = elim (Bool-cases (is_equal (key_compare k (key_of values)))) [
      | inl e ↦
          rw (e, key_compare_sound k (key_of values) e, h, find_group-put_self (key_of values) g m)
      | inr e ↦ rw (e, find_group-put_ne (key_of values) k g m e)
    ]

    -- The group of a key in the result is what its own rows make of it, one after the other: rows
    -- of other groups neither change it nor are lost from theirs. The grouping is one that succeeds.
    pub group_rows-only :
        (k : List String) (m : Groups p) (rows : List (Record p)) (final : Groups p)
        → group_rows groups aggs batch m rows ≡ ok final
        → group_only k (find_group k m) rows ≡ ok (find_group k final)
    unfolding group_rows group_only group_row
    group_rows-only k m [] final h = rw (ok-injective h)
    group_rows-only k m (row ∷ rows) final h =
        let (m', h1, h2) =
          >>=-eq-ok (group_row groups aggs batch m row) (λ m'. group_rows groups aggs batch m' rows)
            h in
        let (values, h3, h4) =
          >>=-eq-ok (eval_all groups row batch)
            (λ values. grow groups aggs batch values (find_group (key_of values) m) row >>= λ g.
              ok (put_group (key_of values) g m))
            h1 in
        let (g, h5, h6) =
          >>=-eq-ok (grow groups aggs batch values (find_group (key_of values) m) row)
            (λ g. ok (put_group (key_of values) g m)) h4 in
        rw (h3, own_row_step k m row values g h5)
          (subst (λ t. group_only k (find_group k t) rows ≡ ok (find_group k final))
            (sym (ok-injective h6)) (group_rows-only k m' rows final h2))
