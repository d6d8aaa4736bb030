-- ===== src/Pipelines/Dag/Rounds.antt =====
-- The rounds of `layers`: they end, in the order of the edges, and lose and repeat no node.
use rust_spark.Common.{
  ℕ, zero, suc, ◌+◌, ◌==◌, ◌<◌, ◌≡◌, refl, ap, ◌∙◌, true, false, Bool-cases, inl, inr, some, List,
  [], ◌∷◌, ◌++◌, length, length-append, is_empty, All, arith,
}
use rust_spark.Pipelines.Dag.{Degrees, ready, waiting, release, layers_loop}
use rust_spark.Pipelines.Dag.Counting.{
  Edges, occ, keys, pending, IsExact, occ-append, occ-split, length-split, pending-add, pending-le,
  keys-release, length-keys, release-All,
}

-- The contract of the hash map's iteration: an order of the nodes it holds.
pub record Arranges (arrange : List ℕ → List ℕ) : Type 0 where
  pub same_nodes : (a : ℕ) (xs : List ℕ) → occ a (arrange xs) ≡ occ a xs
  pub same_length : (xs : List ℕ) → length (arrange xs) ≡ length xs

abbrev pub all_nodes : List (List ℕ) → List ℕ
all_nodes [] = []
all_nodes (l ∷ ls) = l ++ all_nodes ls

-- Into the nodes of a layer no edge leads from that layer or a later one.
abbrev pub IsOrdered : Edges → List (List ℕ) → Type 0
IsOrdered es [] = Unit
IsOrdered es (l ∷ ls) =
    ((v : ℕ) → 0 < occ v l → pending es (all_nodes (l ∷ ls)) v ≡ 0) × IsOrdered es ls

module _ (arrange : List ℕ → List ℕ) (law : Arranges arrange) (es : Edges) where
  layer : Degrees → List ℕ
  layer r = arrange (ready r)

  next : Degrees → Degrees
  unfolding layer
  next r = release es (layer r) (waiting r)

  occ-layer : (a : ℕ) (r : Degrees) → occ a (layer r) ≡ occ a (ready r)
  unfolding layer
  occ-layer a r = law.same_nodes a (ready r)

  length-layer : (r : Degrees) → length (layer r) ≡ length (ready r)
  unfolding layer
  length-layer r = law.same_length (ready r)

  keys-next : (r : Degrees) → keys (next r) ≡ keys (waiting r)
  unfolding next
  keys-next r = keys-release es (layer r) (waiting r)

  occ-next : (a : ℕ) (r : Degrees) → occ a (keys r) ≡ occ a (layer r) + occ a (keys (next r))
  occ-next a r = rw (keys-next r, occ-layer a r) (occ-split a r)

  length-next : (r : Degrees) → length r ≡ length (layer r) + length (next r)
  length-next r = omega (
    arith,
    length-layer r,
    length-split r,
    length-keys (next r),
    length-keys (waiting r),
    ap length (keys-next r),
  )

  waiting-All :
      (g : ℕ → ℕ) (r : Degrees) → All (λ e. e.1 ≡ g e.0) r → All (λ e. e.1 ≡ g e.0) (waiting r)
  unfolding waiting
  waiting-All g [] h = tt
  waiting-All g ((n, d) ∷ r) h = elim (Bool-cases (d == 0)) [
    | inl e ↦ rw e (waiting-All g r h.1)
    | inr e ↦ rw e (h.0, waiting-All g r h.1)
  ]

  change :
      (f g : ℕ → ℕ) (r : Degrees)
      → ((n : ℕ) → f n ≡ g n)
      → All (λ e. e.1 ≡ f e.0) r
      → All (λ e. e.1 ≡ g e.0) r
  change f g [] h k = tt
  change f g ((n, d) ∷ r) h k = (k.0 ∙ h n, change f g r h k.1)

  -- A round keeps the degrees exact, now for the nodes that remain.
  next-IsExact : (r : Degrees) → IsExact es (keys r) r → IsExact es (keys (next r)) (next r)
  unfolding next
  next-IsExact r h = release-All es (layer r) (pending es (keys (next r))) (waiting r) (
      change (pending es (keys r)) _ (waiting r)
        (λ n.
          omega (arith, pending-add es (keys r) (layer r) (keys (next r)) n (λ a. occ-next a r)))
        (waiting-All (pending es (keys r)) r h))

  ready-pending :
      (g : ℕ → ℕ) (r : Degrees) (v : ℕ) → All (λ e. e.1 ≡ g e.0) r → 0 < occ v (ready r) → g v ≡ 0
  unfolding ready
  ready-pending g [] v h k = absurd (omega arith)
  ready-pending g ((n, d) ∷ r) v h k = elim (Bool-cases (d == 0)) [
    | inl e ↦ elim (Bool-cases (n == v)) [
      | inl f ↦ ground (arith, h)
      | inr f ↦ ready-pending g r v h.1 (ground arith)
    ]
    | inr e ↦ ready-pending g r v h.1 (ground arith)
  ]

  -- What a run of the loop says of its layers and of what it leaves.
  pub record IsRun (r : Degrees) (ls : List (List ℕ)) (left : Degrees) : Type 0 where
    pub nodes_kept : (a : ℕ) → occ a (all_nodes ls) + occ a (keys left) ≡ occ a (keys r)
    pub length_kept : length (all_nodes ls) + length left ≡ length r
    pub ordered : IsOrdered es ls
    pub exact : IsExact es (keys left) left
    pub stuck : length (ready left) ≡ 0

  stop : (r : Degrees) → IsExact es (keys r) r → length (ready r) ≡ 0 → IsRun r [] r
  stop r h e = record {
    length_kept = omega arith;
    nodes_kept = λ a. omega arith;
    ordered = tt;
    exact = h;
    stuck = e;
  }

  layer-pending :
      (r : Degrees) (v : ℕ)
      → IsExact es (keys r) r
      → 0 < occ v (layer r)
      → pending es (keys r) v ≡ 0
  layer-pending r v h k = ready-pending (pending es (keys r)) r v h (omega (arith, occ-layer v r))

  extend :
      (r : Degrees) (ls : List (List ℕ)) (left : Degrees)
      → IsExact es (keys r) r
      → IsRun (next r) ls left
      → IsRun r (layer r ∷ ls) left
  extend r ls left h run = record {
    nodes_kept =
        λ a. omega (arith, occ-append a (layer r) (all_nodes ls), occ-next a r, run.nodes_kept a);
    length_kept =
        omega (arith, length-append (layer r) (all_nodes ls), length-next r, run.length_kept);
    ordered = (
      λ v k. omega (
        arith,
        layer-pending r v h k,
        pending-le es (layer r ++ all_nodes ls) (keys r) v (λ a.
            omega (arith, occ-append a (layer r) (all_nodes ls), occ-next a r, run.nodes_kept a)),
      ),
      run.ordered,
    );
    exact = run.exact;
    stuck = run.stuck;
  }

  is_empty-length : {A : Type 0} (xs : List A) → is_empty xs ≡ true → length xs ≡ 0
  is_empty-length [] h = refl
  is_empty-length (x ∷ xs) h = cc

  nonempty-length : {A : Type 0} (xs : List A) → is_empty xs ≡ false → 0 < length xs
  nonempty-length [] h = cc
  nonempty-length (x ∷ xs) h = omega arith

  nothing_ready : (r : Degrees) → length r ≡ 0 → length (ready r) ≡ 0
  nothing_ready r h = omega (arith, length-split r)

  shorter : (r : Degrees) → is_empty (arrange (ready r)) ≡ false → 0 < length (layer r)
  unfolding layer
  shorter r f = nonempty-length (arrange (ready r)) f

  step :
      (r : Degrees) (fuel : ℕ) (ls : List (List ℕ)) (left : Degrees)
      → is_empty r ≡ false
      → is_empty (arrange (ready r)) ≡ false
      → layers_loop arrange es fuel (next r) ≡ some (ls, left)
      → layers_loop arrange es (suc fuel) r ≡ some (layer r ∷ ls, left)
  unfolding layers_loop layer next
  step r fuel ls left e f done = rw (e, f, done) refl

  -- With a round for each node, and one more, the loop comes to its end.
  pub layers_loop-IsRun :
      (fuel : ℕ) (r : Degrees)
      → length r < fuel
      → IsExact es (keys r) r
      → (ls : List (List ℕ)) × (left : Degrees) × (layers_loop arrange es fuel r ≡ some (ls, left))
        × IsRun r ls left
  unfolding layers_loop
  layers_loop-IsRun zero r lt h = absurd (omega arith)
  layers_loop-IsRun (suc fuel) r lt h = elim (Bool-cases (is_empty r)) [
    | inl e ↦ ([], r, rw e refl, stop r h (nothing_ready r (is_empty-length r e)))
    | inr e ↦ elim (Bool-cases (is_empty (arrange (ready r)))) [
      | inl f ↦ (
        [],
        r,
        rw (e, f) refl,
        stop r h (omega (arith, law.same_length (ready r), is_empty-length (arrange (ready r)) f)),
      )
      | inr f ↦
          let (ls, left, done, run) =
            layers_loop-IsRun fuel (next r) (omega (arith, length-next r, shorter r f))
              (next-IsExact r h) in
          (layer r ∷ ls, left, step r fuel ls left e f done, extend r ls left h run)
    ]
  ]
