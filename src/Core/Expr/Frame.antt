-- ===== src/Core/Expr/Frame.antt =====
-- Evaluation reads only the columns that `references` lists.
use mathlib.Core.List.{append_assoc, append-nil}
use mathlib.Core.Path.{subst}
use rust_spark.Common.{
  ◌≡◌, refl, sym, String, List, [], ◌∷◌, ◌++◌, compare_str, is_greater, str_eq, eq_iff, All,
  Bool-cases, inl, inr,
}
use rust_spark.Core.Platform.{Platform}
use rust_spark.Core.Record.{Record, RecordBatch}
use rust_spark.Core.Expr.{Expr}
use rust_spark.Core.Expr.Eval.{eval, eval_column}
use rust_spark.Core.Expr.Columns.{collect_columns, references, sort_str, dedup, insert_str}

module _ {ℓ} (P : String → Type ℓ) where
  All-split : (xs ys : List String) → All P (xs ++ ys) → All P xs × All P ys
  All-split [] ys h = (tt, h)
  All-split (x ∷ xs) ys h = let (a, b) = All-split xs ys h.1 in ((h.0, a), b)

  All-insert_str : (s : String) (ts : List String) → All P (insert_str s ts) → P s × All P ts
  unfolding insert_str
  All-insert_str s [] h = h
  All-insert_str s (t ∷ ts) h = elim (Bool-cases (is_greater (compare_str s t))) [
    | inl e ↦
        let k : P t × All P (insert_str s ts) = rw e at h in
        let (a, b) = All-insert_str s ts k.1 in (a, (k.0, b))
    | inr e ↦ let k : P s × (P t × All P ts) = rw e at h in k
  ]

  All-sort_str : (ss : List String) → All P (sort_str ss) → All P ss
  unfolding sort_str
  All-sort_str [] h = tt
  All-sort_str (s ∷ ss) h = let (a, b) = All-insert_str s (sort_str ss) h in (a, All-sort_str ss b)

  All-dedup : (ss : List String) → All P (dedup ss) → All P ss
  unfolding dedup
  All-dedup [] h = tt
  All-dedup (s ∷ []) h = h
  All-dedup (s ∷ (t ∷ ts)) h = elim (Bool-cases (str_eq s t)) [
    | inl e ↦
        let k : All P (dedup (t ∷ ts)) = rw e at h in
        let r = All-dedup (t ∷ ts) k in (subst P (sym ((eq_iff s t).0 e)) r.0, r)
    | inr e ↦ let k : P s × All P (dedup (t ∷ ts)) = rw e at h in (k.0, All-dedup (t ∷ ts) k.1)
  ]

module _ {p : Platform} where
  -- What `collect_columns` pushes does not depend on what the list already holds.
  collect_columns_append :
      (e : Expr p) (out : List String) → collect_columns e out ≡ out ++ collect_columns e []
  unfolding collect_columns
  collect_columns_append (Expr.column name) out = refl
  collect_columns_append (Expr.literal _) out = sym (append-nil out)
  collect_columns_append Expr.star out = sym (append-nil out)
  collect_columns_append (Expr.binary _ l r) out = cc (
    collect_columns_append r (collect_columns l out),
    collect_columns_append r (collect_columns l []),
    collect_columns_append l out,
    append_assoc out (collect_columns l []) (collect_columns r []),
  )
  collect_columns_append (Expr.not inner) out = collect_columns_append inner out
  collect_columns_append (Expr.is_null inner) out = collect_columns_append inner out
  collect_columns_append (Expr.is_not_null inner) out = collect_columns_append inner out
  collect_columns_append (Expr.if_expr c t e) out = cc (
    collect_columns_append e (collect_columns t (collect_columns c out)),
    collect_columns_append e (collect_columns t (collect_columns c [])),
    collect_columns_append t (collect_columns c out),
    collect_columns_append t (collect_columns c []),
    collect_columns_append c out,
    append_assoc out (collect_columns c []) (collect_columns t []),
    append_assoc out (collect_columns c [] ++ collect_columns t []) (collect_columns e []),
  )
  collect_columns_append (Expr.aggregate _ arg _) out = collect_columns_append arg out
  collect_columns_append (Expr.aliased inner _) out = collect_columns_append inner out

  module _ (row row' : Record p) (batch : RecordBatch p) where
    -- The two rows have the same value, or the same failure, in the column.
    abbrev pub SameColumn : String → Type 0
    SameColumn name = eval_column name row batch ≡ eval_column name row' batch

    abbrev SameOn : Expr p → Type 0
    SameOn e = All SameColumn (collect_columns e [])

    SameOn-binary :
        (l r : Expr p)
        → All SameColumn (collect_columns r (collect_columns l []))
        → SameOn l × SameOn r
    SameOn-binary l r h =
        All-split SameColumn (collect_columns l []) (collect_columns r [])
          (subst (All SameColumn) (collect_columns_append r (collect_columns l [])) h)

    eval-agree : (e : Expr p) → SameOn e → eval e row batch ≡ eval e row' batch
    unfolding eval collect_columns
    eval-agree (Expr.column name) h = h.0
    eval-agree (Expr.literal _) h = refl
    eval-agree Expr.star h = refl
    eval-agree (Expr.binary op l r) h =
        let (a, b) = SameOn-binary l r h in rw (eval-agree l a, eval-agree r b)
    eval-agree (Expr.not inner) h = rw (eval-agree inner h)
    eval-agree (Expr.is_null inner) h = rw (eval-agree inner h)
    eval-agree (Expr.is_not_null inner) h = rw (eval-agree inner h)
    eval-agree (Expr.if_expr c t e) h =
        let k =
          All-split SameColumn (collect_columns t (collect_columns c [])) (collect_columns e []) (
            subst (All SameColumn)
              (collect_columns_append e (collect_columns t (collect_columns c []))) h) in
        let (a, b) = SameOn-binary c t k.0 in rw (eval-agree c a, eval-agree t b, eval-agree e k.1)
    eval-agree (Expr.aggregate _ arg _) h = refl
    eval-agree (Expr.aliased inner _) h = eval-agree inner h

    -- Two rows that agree on every column that `references` lists evaluate alike: to the same
    -- value, the same error or the same panic.
    pub eval-references :
        (e : Expr p) → All SameColumn (references e) → eval e row batch ≡ eval e row' batch
    unfolding references
    eval-references e h = eval-agree e (
        All-sort_str SameColumn (collect_columns e [])
          (All-dedup SameColumn (sort_str (collect_columns e [])) h))
