-- ===== src/Exec/Sort/Laws.antt =====
-- Sorting permutes the rows of a batch, and leaves no pair out of order where the comparison of the
-- keys is transitive.
use mathlib.Core.List.Perm
use mathlib.Core.List.{Perm, filter_map, filter_map-cons-some, append_assoc}
use mathlib.Core.Path.{subst}
use rust_spark.Common.{
  ap, Option, ℕ, suc, Bool, not, ◌&&◌, ◌||◌, all, All, ◌≡◌, refl, sym, ◌∙◌, true, some, List, [],
  ◌∷◌, ◌++◌, Ordering, reverse_ordering, is_greater, ok, ◌>>=◌, >>=-eq-ok, ok-injective, length,
  length-append, get_elem?, get_elem?-append, arith, Bool-cases, inl, inr,
}
use rust_spark.Core.Platform.{Platform, OrdersFloats}
use rust_spark.Core.Value.{Value}
use rust_spark.Core.Value.Order.{try_cmp_swap}
use rust_spark.Core.Record.{Record, RecordBatch, from_records}
use rust_spark.Core.Record.Valid.{from_records-IsTyped}
use rust_spark.Sql.Plan.{SortExpr}
use rust_spark.Exec.Sort.{insert_by, sort_by, key_cmp, keys_cmp, index_rows, sort_keys, sort_batch}

module _ {ℓ} {A : Type ℓ} (cmp : A → A → Ordering) where
  insert_by-perm : (x : A) (ys : List A) → Perm (insert_by cmp x ys) (x ∷ ys)
  unfolding insert_by
  insert_by-perm x [] = Perm.refl (x ∷ [])
  insert_by-perm x (y ∷ ys) = elim (Bool-cases (is_greater (cmp x y))) [
    | inl e ↦ rw e (Perm.trans (Perm.cons y (insert_by-perm x ys)) (Perm.swap x y ys))
    | inr e ↦ rw e (Perm.refl (x ∷ y ∷ ys))
  ]

  pub sort_by-perm : (xs : List A) → Perm (sort_by cmp xs) xs
  unfolding sort_by
  sort_by-perm [] = Perm.refl []
  sort_by-perm (x ∷ xs) =
      Perm.trans (insert_by-perm x (sort_by cmp xs)) (Perm.cons x (sort_by-perm xs))

  abbrev not_above : A → A → Bool
  not_above x y = not (is_greater (cmp x y))

  -- No element is greater than a later one.
  abbrev pub IsAscending : List A → Type 0
  IsAscending [] = Unit
  IsAscending (x ∷ xs) = All (λ y. not_above x y ≡ true) xs × IsAscending xs

  -- The comparison is transitive on the elements of the list.
  abbrev pub is_transitive_on : List A → Bool
  is_transitive_on xs =
      all (λ a. all (λ b. all (λ c. not (not_above a b && not_above b c) || not_above a c) xs) xs)
        xs

filter_map_nil {ℓ κ} : {A : Type ℓ} {B : Type κ} (f : A → Option B) → filter_map f [] ≡ []
unfolding filter_map
filter_map_nil f = refl

module _ {p : Platform} (order : List (SortExpr p)) where
  -- Fetching by the recorded indices gives the rows back.
  index_rows_fetch :
      (records pre rows : List (Record p)) (i : ℕ) (batch : RecordBatch p)
      (ixs : List (ℕ × List (Value p)))
      → records ≡ pre ++ rows
      → i ≡ length pre
      → index_rows order i rows batch ≡ ok ixs
      → filter_map (λ e. get_elem? records e.0) ixs ≡ rows
  unfolding index_rows
  index_rows_fetch records pre [] i batch ixs e n h =
      rw (← ok-injective h) (filter_map_nil (λ e. get_elem? records e.0))
  index_rows_fetch records pre (row ∷ rows) i batch ixs e n h =
      let (keys, _, h1) =
        >>=-eq-ok (sort_keys order row batch)
          (λ keys. index_rows order (suc i) rows batch >>= λ rest. ok ((i, keys) ∷ rest)) h in
      let (rest, h2, h3) =
        >>=-eq-ok (index_rows order (suc i) rows batch) (λ rest. ok ((i, keys) ∷ rest)) h1 in
      let later =
        index_rows_fetch records (pre ++ row ∷ []) rows (suc i) batch rest
          (e ∙ sym (append_assoc pre (row ∷ []) rows))
          (omega (arith, n, length-append pre (row ∷ []))) h2 in
      let fetch = λ (e : ℕ × List (Value p)). get_elem? records e.0 in
      let here : get_elem? records i ≡ some row = rw (e, n) (get_elem?-append pre row rows) in
      ap (filter_map fetch) (sym (ok-injective h3))
      ∙ filter_map-cons-some fetch (i, keys) rest {b = row} here
      ∙ ap (λ t. row ∷ t) later

  -- Sorting, where it succeeds, keeps the schema and every row, each as often as it was there.
  pub sort_batch-perm :
      (batch : RecordBatch p) {sorted : RecordBatch p}
      → sort_batch batch order ≡ ok sorted
      → Perm sorted.records batch.records × (sorted.schema ≡ batch.schema)
  unfolding sort_batch
  sort_batch-perm batch h =
      let (ixs, h1, h2) =
        >>=-eq-ok (index_rows order 0 batch.records batch)
          (λ ixs. from_records batch.schema (
            filter_map (λ e. get_elem? batch.records e.0)
              (sort_by (λ a b. keys_cmp order a.1 b.1) ixs)))
          h in
      let (typed, rows) = from_records-IsTyped batch.schema _ h2 in
      let same = index_rows_fetch batch.records [] batch.records 0 batch ixs refl refl h1 in
      (
        rw rows (
            Perm.trans (Perm.filter_map _ (sort_by-perm _ ixs))
              (subst (Perm _) same (Perm.refl _))),
        typed.has_schema,
      )

module _ {p : Platform} (law : OrdersFloats p) where
  key_cmp_swap : (a b : Value p) → key_cmp b a ≡ reverse_ordering (key_cmp a b)
  unfolding key_cmp
  key_cmp_swap a b = ground (arith, try_cmp_swap law a b)

  -- The order that ORDER BY asks for is consistent: swapping two key lists reverses the answer, if
  -- float comparison keeps the contract of `PartialOrd`.
  pub keys_cmp_swap :
      (order : List (SortExpr p)) (as' bs : List (Value p))
      → keys_cmp order bs as' ≡ reverse_ordering (keys_cmp order as' bs)
  unfolding keys_cmp
  keys_cmp_swap [] as' bs = refl
  keys_cmp_swap (s ∷ order) [] [] = refl
  keys_cmp_swap (s ∷ order) [] (b ∷ bs) = refl
  keys_cmp_swap (s ∷ order) (a ∷ as') [] = refl
  keys_cmp_swap (s ∷ order) (a ∷ as') (b ∷ bs) =
      ground (arith, key_cmp_swap a b, keys_cmp_swap order as' bs)
