-- ===== src/Pipelines/Dag/Counting.antt =====
-- Counting nodes and edges: what one round of the layers does to the in-degrees.
use rust_spark.Common.{
  ℕ, suc, ◌+◌, ◌==◌, ◌≤◌, ◌≡◌, refl, ap, ◌∙◌, Bool-cases, inl, inr, List, [], ◌∷◌, ◌++◌, length,
  All, arith, if◌then◌else◌,
}
use rust_spark.Pipelines.Dag.{Degrees, ready, waiting, neighbors, decrement, decrement_all, release}

abbrev pub Edges : Type 0
Edges = List (ℕ × ℕ)

-- How often a node stands in a list.
abbrev pub occ : ℕ → List ℕ → ℕ
occ a [] = 0
occ a (x ∷ xs) = (if x == a then 1 else 0) + occ a xs

abbrev pub keys : Degrees → List ℕ
keys [] = []
keys ((n, d) ∷ r) = n ∷ keys r

-- How many edges lead from the nodes of a list to a node.
abbrev pub pending : Edges → List ℕ → ℕ → ℕ
pending [] ks v = 0
pending ((a, b) ∷ es) ks v = (if b == v then occ a ks else 0) + pending es ks v

-- The degrees are the numbers of edges that lead in from the nodes of the list.
abbrev pub IsExact : Edges → List ℕ → Degrees → Type 0
IsExact es ks r = All (λ e. e.1 ≡ pending es ks e.0) r

pub occ-append : (a : ℕ) (xs ys : List ℕ) → occ a (xs ++ ys) ≡ occ a xs + occ a ys
occ-append a [] ys = omega arith
occ-append a (x ∷ xs) ys = omega (arith, occ-append a xs ys)

pub occ-split : (a : ℕ) (r : Degrees) → occ a (keys r) ≡ occ a (ready r) + occ a (keys (waiting r))
unfolding ready waiting
occ-split a [] = omega arith
occ-split a ((n, d) ∷ r) = ground (arith, occ-split a r)

pub length-split : (r : Degrees) → length r ≡ length (ready r) + length (waiting r)
unfolding ready waiting
length-split [] = omega arith
length-split ((n, d) ∷ r) = ground (arith, length-split r)

pub pending-add :
    (es : Edges) (ks xs ys : List ℕ) (v : ℕ)
    → ((a : ℕ) → occ a ks ≡ occ a xs + occ a ys)
    → pending es ks v ≡ pending es xs v + pending es ys v
pending-add [] ks xs ys v h = omega arith
pending-add ((a, b) ∷ es) ks xs ys v h = ground (arith, h a, pending-add es ks xs ys v h)

pub pending-le :
    (es : Edges) (xs ks : List ℕ) (v : ℕ)
    → ((a : ℕ) → occ a xs ≤ occ a ks)
    → pending es xs v ≤ pending es ks v
pending-le [] xs ks v h = omega arith
pending-le ((a, b) ∷ es) xs ks v h = ground (arith, h a, pending-le es xs ks v h)

pending-one : (es : Edges) (n v : ℕ) → pending es (n ∷ []) v ≡ occ v (neighbors es n)
unfolding neighbors
pending-one [] n v = omega arith
pending-one ((a, b) ∷ es) n v = ground (arith, pending-one es n v)

pending-none : (es : Edges) (v : ℕ) → pending es [] v ≡ 0
pending-none [] v = refl
pending-none ((a, b) ∷ es) v = ground (arith, pending-none es v)

pub keys-decrement : (s : ℕ) (r : Degrees) → keys (decrement s r) ≡ keys r
unfolding decrement
keys-decrement s [] = refl
keys-decrement s ((n, d) ∷ r) = ground (arith, keys-decrement s r)

keys-decrement_all : (ss : List ℕ) (r : Degrees) → keys (decrement_all ss r) ≡ keys r
unfolding decrement_all
keys-decrement_all [] r = refl
keys-decrement_all (s ∷ ss) r = keys-decrement_all ss (decrement s r) ∙ keys-decrement s r

pub keys-release : (es : Edges) (ns : List ℕ) (r : Degrees) → keys (release es ns r) ≡ keys r
unfolding release
keys-release es [] r = refl
keys-release es (n ∷ ns) r =
    keys-release es ns (decrement_all (neighbors es n) r) ∙ keys-decrement_all (neighbors es n) r

pub length-keys : (r : Degrees) → length (keys r) ≡ length r
length-keys [] = refl
length-keys ((n, d) ∷ r) = ap suc (length-keys r)

decrement-All :
    (g : ℕ → ℕ) (s : ℕ) (r : Degrees)
    → All (λ e. e.1 ≡ g e.0 + (if s == e.0 then 1 else 0)) r
    → All (λ e. e.1 ≡ g e.0) (decrement s r)
unfolding decrement
decrement-All g s [] h = tt
decrement-All g s ((n, d) ∷ r) h = elim (Bool-cases (n == s)) [
  | inl e ↦ rw e (ground arith, decrement-All g s r h.1)
  | inr e ↦ rw e (ground arith, decrement-All g s r h.1)
]

weaken :
    (f g : ℕ → ℕ) (r : Degrees)
    → ((n : ℕ) → f n ≡ g n)
    → All (λ e. e.1 ≡ f e.0) r
    → All (λ e. e.1 ≡ g e.0) r
weaken f g [] h k = tt
weaken f g ((n, d) ∷ r) h k = (k.0 ∙ h n, weaken f g r h k.1)

decrement_all-All :
    (g : ℕ → ℕ) (ss : List ℕ) (r : Degrees)
    → All (λ e. e.1 ≡ g e.0 + occ e.0 ss) r
    → All (λ e. e.1 ≡ g e.0) (decrement_all ss r)
unfolding decrement_all
decrement_all-All g [] r h = weaken _ g r (λ n. omega arith) h
decrement_all-All g (s ∷ ss) r h = decrement_all-All g ss (decrement s r) (
    decrement-All (λ n. g n + occ n ss) s r
      (weaken (λ n. g n + occ n (s ∷ ss)) (λ n. g n + occ n ss + (if s == n then 1 else 0)) r
        (λ n. omega arith) h))

-- Releasing a layer takes from each degree the edges that lead in from the layer.
pub release-All :
    (es : Edges) (ns : List ℕ) (g : ℕ → ℕ) (r : Degrees)
    → All (λ e. e.1 ≡ g e.0 + pending es ns e.0) r
    → All (λ e. e.1 ≡ g e.0) (release es ns r)
unfolding release
release-All es [] g r h = weaken _ g r (λ n. omega (arith, pending-none es n)) h
release-All es (n ∷ ns) g r h = release-All es ns g (decrement_all (neighbors es n) r) (
    decrement_all-All (λ v. g v + pending es ns v) (neighbors es n) r
      (weaken _ _ r
        (λ v.
          omega
            (arith, pending-add es (n ∷ ns) (n ∷ []) ns v (λ a. omega arith), pending-one es n v))
        h))
