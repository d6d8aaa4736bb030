-- ===== src/Sql/Build/Membership.antt =====
-- What IN lists and BETWEEN evaluate to, through the chain of comparisons that the builder makes.
use rust_spark.Common.{
  ◌≡◌, refl, ap, Bool, true, false, not, ◌&&◌, ◌||◌, inl, inr, Bool-cases, some, List, [], ◌∷◌, any,
  is_empty, ok, Ordering, is_less, is_greater, arith, if◌then◌else◌, ◌∙◌,
}
use rust_spark.Core.Platform.{Platform}
use rust_spark.Core.Value.{Value, is_null, eq_value, try_cmp}
use rust_spark.Core.Record.{Record, RecordBatch}
use rust_spark.Core.Expr.{Expr, BinaryOp, to_value}
use rust_spark.Core.Expr.Eval.{eval, apply_binary, logical_or, negate}
use rust_spark.Sql.Ast.{SqlExpr, SqlExprs}
use rust_spark.Sql.Build.Meaning.{and_bools}
use rust_spark.Sql.Build.{false_lit, build_expr, build_or_chain, or_next, or_false, negated_if}

module _ {p : Platform} where
  -- `v IN (…)`: false for no item, null if the value or an item is null, else membership.
  abbrev pub in_value : Value p → List (Value p) → Value p
  in_value v [] = Value.boolean false
  in_value v (w ∷ ws) =
      if is_null v || any is_null (w ∷ ws)
      then Value.null
      else Value.boolean (any (eq_value v) (w ∷ ws))

  -- The chain so far is null, or a truth value.
  abbrev or_value : Bool → Bool → Value p
  or_value null? b = if null? then Value.null else Value.boolean b

  -- NOT of a value that is null or a truth value.
  abbrev pub negated_value : Bool → Value p → Value p
  negated_value negated (Value.boolean b) = Value.boolean (if negated then not b else b)
  negated_value negated v = v

module _ {p : Platform} (row : Record p) (batch : RecordBatch p) where
  -- The items of a list build, and evaluate to the value at their place.
  abbrev pub Items : SqlExprs → List (Value p) → Type 0
  Items SqlExprs.nil [] = Unit
  Items (SqlExprs.cons x xs) (w ∷ ws) =
      ((e : Expr p) × (build_expr x ≡ ok e) × (eval e row batch ≡ ok w)) × Items xs ws
  Items _ _ = ⊥

  eval_equal :
      (t e : Expr p) (v w : Value p)
      → eval t row batch ≡ ok v
      → eval e row batch ≡ ok w
      → eval (Expr.binary BinaryOp.eq t e) row batch
        ≡ ok (or_value (is_null v || is_null w) (eq_value v w))
  unfolding eval apply_binary
  eval_equal t e v w ht he = elim (Bool-cases (is_null v || is_null w)) [
    | inl n ↦ rw (ht, he, n) refl
    | inr n ↦ rw (ht, he, n) refl
  ]

  eval_or :
      (a b : Expr p) (m n : Bool) (x y : Bool)
      → eval a row batch ≡ ok (or_value m x)
      → eval b row batch ≡ ok (or_value n y)
      → eval (Expr.binary BinaryOp.or a b) row batch ≡ ok (or_value (m || n) (x || y))
  unfolding eval apply_binary logical_or is_null
  eval_or a b true n x y ha hb = rw (ha, hb) refl
  eval_or a b false true x y ha hb = rw (ha, hb) refl
  eval_or a b false false x y ha hb = rw (ha, hb) refl

  -- The loop, once it has a chain: it ends, and the chain has taken in every item.
  or_chain_lem :
      (xs : SqlExprs) (ws : List (Value p)) (t : Expr p) (v : Value p) (prev : Expr p) (m x : Bool)
      → eval t row batch ≡ ok v
      → eval prev row batch ≡ ok (or_value m x)
      → Items xs ws
      → (e : Expr p) × (build_or_chain t (some prev) xs ≡ ok (some e))
        × (eval e row batch
            ≡ ok (
                or_value
                  (m || (not (is_empty ws) && (is_null v || any is_null ws)))
                  (x || any (eq_value v) ws)))
  unfolding build_or_chain or_next
  or_chain_lem SqlExprs.nil [] t v prev m x ht hp h = (prev, refl, ground (arith, hp))
  or_chain_lem SqlExprs.nil (w ∷ ws) t v prev m x ht hp h = absurd h
  or_chain_lem (SqlExprs.cons i xs) [] t v prev m x ht hp h = absurd h
  or_chain_lem (SqlExprs.cons i xs) (w ∷ ws) t v prev m x ht hp h =
      let (e, built, means) = h.0 in
      let next =
        eval_or prev _ m (is_null v || is_null w) x (eq_value v w) hp
          (eval_equal t e v w ht means) in
      let (r, done, value) = or_chain_lem xs ws t v _ _ _ ht next h.1 in
      (r, rw built done, value ∙ ap ok (ground arith))

  eval-negated_if :
      (negated : Bool) (e : Expr p) (m x : Bool)
      → eval e row batch ≡ ok (or_value m x)
      → eval (negated_if negated e) row batch ≡ ok (negated_value negated (or_value m x))
  unfolding eval negate negated_if
  eval-negated_if true e true x h = rw h refl
  eval-negated_if true e false x h = rw h refl
  eval-negated_if false e true x h = h
  eval-negated_if false e false x h = h

  eval-false_lit : eval false_lit row batch ≡ ok (or_value false false)
  unfolding eval to_value
  eval-false_lit = refl

  in_value_lem :
      (v w : Value p) (ws : List (Value p))
      → or_value
          ((is_null v || is_null w) || (not (is_empty ws) && (is_null v || any is_null ws)))
          (eq_value v w || any (eq_value v) ws)
        ≡ in_value v (w ∷ ws)
  in_value_lem v w [] = ground arith
  in_value_lem v w (u ∷ ws) = ground arith

  -- `e IN (…)` over items that build and evaluate: it builds, and evaluates to membership by the
  -- engine's equality; to null where the value or an item is null; to false for no items. NOT IN
  -- negates that, and keeps null.
  pub build_expr-in_list :
      (negated : Bool) (x : SqlExpr) (xs : SqlExprs) (t : Expr p) (v : Value p)
      (ws : List (Value p))
      → build_expr x ≡ ok t
      → eval t row batch ≡ ok v
      → Items xs ws
      → (e : Expr p) × (build_expr (SqlExpr.in_list negated x xs) ≡ ok e)
        × (eval e row batch ≡ ok (negated_value negated (in_value v ws)))
  unfolding build_expr or_false or_next
  build_expr-in_list negated x SqlExprs.nil t v [] bt ht h =
      (_, rw bt refl, eval-negated_if negated false_lit false false eval-false_lit)
  build_expr-in_list negated x SqlExprs.nil t v (w ∷ ws) bt ht h = absurd h
  build_expr-in_list negated x (SqlExprs.cons i xs) t v [] bt ht h = absurd h
  build_expr-in_list negated x (SqlExprs.cons i xs) t v (w ∷ ws) bt ht h =
      let (e, built, means) = h.0 in
      let first = eval_equal t e v w ht means in
      let (r, done, value) = or_chain_lem xs ws t v _ _ _ ht first h.1 in
      (
        negated_if negated r,
        rw (bt, built, done) refl,
        eval-negated_if negated r _ _ value
            ∙ ap (λ u. ok (negated_value negated u)) (in_value_lem v w ws),
      )

  eval_gt_eq :
      (e l : Expr p) (v lo : Value p) (o : Ordering)
      → eval e row batch ≡ ok v
      → eval l row batch ≡ ok lo
      → (is_null v || is_null lo) ≡ false
      → try_cmp v lo ≡ ok o
      → eval (Expr.binary BinaryOp.gt_eq e l) row batch ≡ ok (Value.boolean (not (is_less o)))
  unfolding eval apply_binary
  eval_gt_eq e l v lo o he hl n c = rw (he, hl, n, c) (ground arith)

  eval_lt_eq :
      (e h : Expr p) (v hi : Value p) (o : Ordering)
      → eval e row batch ≡ ok v
      → eval h row batch ≡ ok hi
      → (is_null v || is_null hi) ≡ false
      → try_cmp v hi ≡ ok o
      → eval (Expr.binary BinaryOp.lt_eq e h) row batch ≡ ok (Value.boolean (not (is_greater o)))
  unfolding eval apply_binary
  eval_lt_eq e h v hi o he hh n c = rw (he, hh, n, c) (ground arith)

  -- `e BETWEEN low AND high` over values that compare: it builds, and is true exactly when the value is
  -- not below `low` and not above `high`; NOT BETWEEN negates that.
  pub build_expr-between :
      (negated : Bool) (x low high : SqlExpr) (e l h : Expr p) (v lo hi : Value p) (o o' : Ordering)
      → build_expr x ≡ ok e
      → build_expr low ≡ ok l
      → build_expr high ≡ ok h
      → eval e row batch ≡ ok v
      → eval l row batch ≡ ok lo
      → eval h row batch ≡ ok hi
      → (is_null v || is_null lo || is_null hi) ≡ false
      → try_cmp v lo ≡ ok o
      → try_cmp v hi ≡ ok o'
      → (r : Expr p) × (build_expr (SqlExpr.between negated x low high) ≡ ok r)
        × (eval r row batch
            ≡ ok (
                Value.boolean (
                  if negated
                  then is_less o || is_greater o'
                  else not (is_less o) && not (is_greater o'))))
  unfolding build_expr
  build_expr-between negated x low high e l h v lo hi o o' be bl bh ve vl vh n cl ch =
      let ge = eval_gt_eq e l v lo o ve vl (ground arith) cl in
      let le = eval_lt_eq e h v hi o' ve vh (ground arith) ch in
      let both = and_bools row batch _ _ _ _ ge le in
      (_, rw (be, bl, bh) refl, eval-negated_if negated _ false _ both ∙ ground arith)
