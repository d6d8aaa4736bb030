-- ===== src/Sql/Build/Meaning.antt =====
-- What the expressions that the builder makes evaluate to: COALESCE, NVL, AND, IN and BETWEEN.
use rust_spark.Common.{
  ◌≡◌, refl, Bool, true, not, ◌&&◌, inl, inr, Bool-cases, Option, none, some, List, [], ◌∷◌, all,
  find, ok, arith, if◌then◌else◌, ◌∙◌,
}
use rust_spark.Core.Platform.{Platform}
use rust_spark.Core.Value.{Value, is_null}
use rust_spark.Core.Record.{Record, RecordBatch}
use rust_spark.Core.Expr.{Expr, BinaryOp, to_value}
use rust_spark.Core.Expr.Eval.{eval, apply_binary, logical_and, is_true}
use rust_spark.Sql.Build.Calls.{coalesce_from, build_coalesce, build_nvl}
use rust_spark.Sql.Build.Clauses.{combine_and, and_from}

module _ {p : Platform} where
  abbrev pub or_null : Option (Value p) → Value p
  or_null none = Value.null
  or_null (some v) = v

  -- The first value that is not null.
  abbrev pub first_non_null : List (Value p) → Value p
  first_non_null vs = or_null (find (λ v. not (is_null v)) vs)

module _ {p : Platform} (row : Record p) (batch : RecordBatch p) where
  -- Each expression evaluates to the value at its place.
  abbrev pub Evaluate : List (Expr p) → List (Value p) → Type 0
  Evaluate [] [] = Unit
  Evaluate (e ∷ es) (v ∷ vs) = (eval e row batch ≡ ok v) × Evaluate es vs
  Evaluate _ _ = ⊥

  null_of : (v : Value p) → is_null v ≡ true → v ≡ Value.null
  unfolding is_null
  null_of v h = ground arith

  if_not_null :
      (e other : Expr p) (v w : Value p)
      → eval e row batch ≡ ok v
      → eval other row batch ≡ ok w
      → eval (Expr.if_expr (Expr.is_not_null e) e other) row batch ≡ ok (if is_null v then w else v)
  unfolding eval is_true
  if_not_null e other v w he ho = elim (Bool-cases (is_null v)) [
    | inl n ↦ rw (he, ho, n) refl
    | inr n ↦ rw (he, ho, n) refl
  ]

  first_two :
      (v w : Value p) (ws : List (Value p))
      → ok (first_non_null ((if is_null v then w else v) ∷ ws)) ≡ ok (first_non_null (v ∷ w ∷ ws))
  first_two v w ws = ground arith

  coalesce_from_lem :
      (rest : List (Expr p)) (ws : List (Value p)) (acc : Expr p) (v : Value p)
      → eval acc row batch ≡ ok v
      → Evaluate rest ws
      → eval (coalesce_from acc rest) row batch ≡ ok (first_non_null (v ∷ ws))
  unfolding coalesce_from
  coalesce_from_lem [] [] acc v h k = elim (Bool-cases (is_null v)) [
    | inl n ↦ ground (arith, null_of v n)
    | inr n ↦ ground arith
  ]
  coalesce_from_lem [] (w ∷ ws) acc v h k = absurd k
  coalesce_from_lem (e ∷ rest) [] acc v h k = absurd k
  coalesce_from_lem (e ∷ rest) (w ∷ ws) acc v h k =
      coalesce_from_lem rest ws _ _ (if_not_null acc e v w h k.0) k.1 ∙ first_two v w ws

  -- COALESCE of arguments that all evaluate is the first value that is not null, and null if there
  -- is none; it is built for every number of arguments.
  pub build_coalesce-first :
      (es : List (Expr p)) (vs : List (Value p))
      → Evaluate es vs
      → (e : Expr p) × (build_coalesce es ≡ ok e) × (eval e row batch ≡ ok (first_non_null vs))
  unfolding build_coalesce eval to_value
  build_coalesce-first [] [] h = (_, refl, refl)
  build_coalesce-first [] (v ∷ vs) h = absurd h
  build_coalesce-first (e ∷ es) [] h = absurd h
  build_coalesce-first (e ∷ es) (v ∷ vs) h = (_, refl, coalesce_from_lem es vs e v h.0 h.1)

  -- NVL of two arguments that evaluate is the second value, unless that is null: then the first.
  pub build_nvl_second :
      (a b : Expr p) (v w : Value p)
      → Evaluate (a ∷ b ∷ []) (v ∷ w ∷ [])
      → (e : Expr p) × (build_nvl (a ∷ b ∷ []) ≡ ok e)
        × (eval e row batch ≡ ok (if is_null w then v else w))
  unfolding build_nvl
  build_nvl_second a b v w h = (_, refl, if_not_null b a w v h.1.0 h.0)

  pub and_bools :
      (a b : Expr p) (x y : Bool)
      → eval a row batch ≡ ok (Value.boolean x)
      → eval b row batch ≡ ok (Value.boolean y)
      → eval (Expr.binary BinaryOp.and a b) row batch ≡ ok (Value.boolean (x && y))
  unfolding eval apply_binary logical_and is_null
  and_bools a b x y ha hb = rw (ha, hb) refl

  -- Each expression evaluates to the truth value at its place.
  abbrev pub Hold : List (Expr p) → List Bool → Type 0
  Hold [] [] = Unit
  Hold (e ∷ es) (b ∷ bs) = (eval e row batch ≡ ok (Value.boolean b)) × Hold es bs
  Hold _ _ = ⊥

  and_from_lem :
      (es : List (Expr p)) (bs : List Bool) (acc : Expr p) (b : Bool)
      → eval acc row batch ≡ ok (Value.boolean b)
      → Hold es bs
      → eval (and_from acc es) row batch ≡ ok (Value.boolean (b && all (λ x. x) bs))
  unfolding and_from
  and_from_lem [] [] acc b h k = ground (arith, h)
  and_from_lem [] (c ∷ bs) acc b h k = absurd k
  and_from_lem (e ∷ es) [] acc b h k = absurd k
  and_from_lem (e ∷ es) (c ∷ bs) acc b h k =
      and_from_lem es bs _ (b && c) (and_bools acc e b c h k.0) k.1 ∙ ground arith

  -- `combine_and` of conditions that evaluate to truth values is true exactly when all of them are.
  pub combine_and-all :
      (es : List (Expr p)) (bs : List Bool)
      → Hold es bs
      → eval (combine_and es) row batch ≡ ok (Value.boolean (all (λ x. x) bs))
  unfolding combine_and eval to_value
  combine_and-all [] [] h = refl
  combine_and-all [] (b ∷ bs) h = absurd h
  combine_and-all (e ∷ es) [] h = absurd h
  combine_and-all (e ∷ es) (b ∷ bs) h = and_from_lem es bs e b h.0 h.1
