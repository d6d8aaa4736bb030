-- ===== src/Exec/Distinct/Laws.antt =====
-- DISTINCT keeps one row of each key: no key twice, and none lost.
use rust_spark.Common.{
  ◌≡◌, ◌⊎◌, refl, false, ◌||◌, String, List, [], ◌∷◌, eq_iff, arith, Bool-cases, inl, inr, map,
}
use rust_spark.Core.Platform.{Platform}
use rust_spark.Core.Record.{Record}
use rust_spark.Exec.Distinct.{row_key, seen_before, distinct_rows}

module _ {p : Platform} where
  -- No key occurs in `seen`, and none occurs twice.
  abbrev pub FreshKeys : List String → List (Record p) → Type 0
  FreshKeys seen [] = Unit
  FreshKeys seen (r ∷ rs) = (seen_before (row_key r) seen ≡ false) × FreshKeys (row_key r ∷ seen) rs

  -- The rows that are kept have keys that are new and differ from one another.
  pub distinct_rows-FreshKeys :
      (seen : List String) (rs : List (Record p)) → FreshKeys seen (distinct_rows seen rs)
  unfolding distinct_rows
  distinct_rows-FreshKeys seen [] = tt
  distinct_rows-FreshKeys seen (r ∷ rs) = elim (Bool-cases (seen_before (row_key r) seen)) [
    | inl e ↦ rw e (distinct_rows-FreshKeys seen rs)
    | inr e ↦ rw e (e, distinct_rows-FreshKeys (row_key r ∷ seen) rs)
  ]

  abbrev pub keys : List (Record p) → List String
  keys rs = map row_key rs

  distinct_rows-keys :
      (seen : List String) (rs : List (Record p)) (k : String)
      → (seen_before k seen || seen_before k (keys (distinct_rows seen rs)))
        ≡ (seen_before k seen || seen_before k (keys rs))
  unfolding distinct_rows
  distinct_rows-keys seen [] k = refl
  distinct_rows-keys seen (r ∷ rs) k = ground (
    arith,
    eq_iff (row_key r) k,
    distinct_rows-keys seen rs k,
    distinct_rows-keys (row_key r ∷ seen) rs k,
  )

  -- The first rows stand among the second ones in the same order.
  abbrev pub IsSublist : List (Record p) → List (Record p) → Type 0
  IsSublist [] ys = Unit
  IsSublist (x ∷ xs) [] = ⊥
  IsSublist (x ∷ xs) (y ∷ ys) = ((x ≡ y) × IsSublist xs ys) ⊎ IsSublist (x ∷ xs) ys

  IsSublist-cons :
      (xs ys : List (Record p)) (y : Record p) → IsSublist xs ys → IsSublist xs (y ∷ ys)
  IsSublist-cons [] ys y h = tt
  IsSublist-cons (x ∷ xs) ys y h = inr h

  distinct_rows-IsSublist :
      (seen : List String) (rs : List (Record p)) → IsSublist (distinct_rows seen rs) rs
  unfolding distinct_rows
  distinct_rows-IsSublist seen [] = tt
  distinct_rows-IsSublist seen (r ∷ rs) = elim (Bool-cases (seen_before (row_key r) seen)) [
    | inl e ↦ rw e (IsSublist-cons (distinct_rows seen rs) rs r (distinct_rows-IsSublist seen rs))
    | inr e ↦ rw e (inl (refl, distinct_rows-IsSublist (row_key r ∷ seen) rs))
  ]

  -- DISTINCT keeps rows of the input in their order, no two of them with one key, and none with a key
  -- that was seen before; and no key is lost: a key is seen or kept exactly when it is seen or in the
  -- input.
  pub distinct_rows_lem :
      (seen : List String) (rs : List (Record p)) (k : String)
      → IsSublist (distinct_rows seen rs) rs
        × FreshKeys seen (distinct_rows seen rs)
        × ((seen_before k seen || seen_before k (keys (distinct_rows seen rs)))
            ≡ (seen_before k seen || seen_before k (keys rs)))
  distinct_rows_lem seen rs k = (
    distinct_rows-IsSublist seen rs,
    distinct_rows-FreshKeys seen rs,
    distinct_rows-keys seen rs k,
  )
