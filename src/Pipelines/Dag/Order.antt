-- ===== src/Pipelines/Dag/Order.antt =====
-- The layers of a whole pipeline: every flow once, each after the flows it depends on.
use mathlib.Core.Path.{subst}
use rust_spark.Common.{
  ℕ, zero, suc, ◌+◌, ◌==◌, ◌≤◌, ◌<◌, ◌≡◌, refl, ap, true, Bool-cases, inl, inr, Option, none, some,
  String, List, [], ◌∷◌, length, length-map, All, arith, if◌then◌else◌, ltb, leb, ◌&&◌,
}
use rust_spark.Common.Dict
use rust_spark.Common.Dict.{Dict}
use rust_spark.Pipelines.Spec.{Flow, Pipeline}
use rust_spark.Pipelines.Dag.{
  Graph, PipelineDag, Degrees, from_pipeline, in_degree, degrees_from, ready, layers, node_count,
}
use rust_spark.Pipelines.Dag.Links.{leads, Linked, AllLinked, SourcesBelow, from_pipeline-Linked}
use rust_spark.Pipelines.Dag.Counting.{Edges, occ, keys, pending, IsExact}
use rust_spark.Pipelines.Dag.Rounds.{Arranges, all_nodes, IsOrdered, IsRun, layers_loop-IsRun}

-- `petgraph::algo::toposort` finds no cycle only where the nodes can be ranked along the edges.
abbrev pub Ranked : Edges → (ℕ → ℕ) → Type 0
Ranked es rank = All (λ e. rank e.0 < rank e.1) es

abbrev pub FindsCycles : (Graph → Option ℕ) → Type 0
FindsCycles toposort = (g : Graph) → toposort g ≡ none → (rank : ℕ → ℕ) × Ranked g.edges rank

occ-keys :
    (es : Edges) (a k : ℕ) (names : List String)
    → occ a (keys (degrees_from es k names))
      ≡ (if leb k a && ltb a (k + length names) then 1 else 0)
unfolding degrees_from
occ-keys es a k [] = ground arith
occ-keys es a k (n ∷ names) = ground (arith, occ-keys es a (suc k) names)

pending-in_degree :
    (es : Edges) (ks : List ℕ) (n v : ℕ)
    → SourcesBelow n es
    → ((a : ℕ) → a < n → occ a ks ≡ 1)
    → in_degree es v ≡ pending es ks v
unfolding in_degree
pending-in_degree [] ks n v h k = refl
pending-in_degree ((a, b) ∷ es) ks n v h k =
    ground (arith, k a h.0, pending-in_degree es ks n v h.1 k)

degrees_from-IsExact :
    (es : Edges) (ks : List ℕ) (n k : ℕ) (names : List String)
    → SourcesBelow n es
    → ((a : ℕ) → a < n → occ a ks ≡ 1)
    → IsExact es ks (degrees_from es k names)
unfolding degrees_from
degrees_from-IsExact es ks n k [] h o = tt
degrees_from-IsExact es ks n k (name ∷ names) h o =
    (pending-in_degree es ks n k h o, degrees_from-IsExact es ks n (suc k) names h o)

length-degrees_from :
    (es : Edges) (k : ℕ) (names : List String) → length (degrees_from es k names) ≡ length names
unfolding degrees_from
length-degrees_from es k [] = refl
length-degrees_from es k (name ∷ names) = ap suc (length-degrees_from es (suc k) names)

-- A node into which an edge still leads has a source of lower rank among the nodes that remain.
lower_source :
    (es : Edges) (rank : ℕ → ℕ) (ks : List ℕ) (v : ℕ)
    → Ranked es rank
    → 0 < pending es ks v
    → (a : ℕ) × (0 < occ a ks) × (rank a < rank v)
lower_source [] rank ks v h p = absurd (omega arith)
lower_source ((a, b) ∷ es) rank ks v h p = elim (Bool-cases (b == v && ltb 0 (occ a ks))) [
  | inl e ↦ (a, ground arith, ground (arith, h))
  | inr e ↦ lower_source es rank ks v h.1 (ground arith)
]

-- Where no node is ready, every node that remains has an edge into it.
degree_pos :
    (g : ℕ → ℕ) (r : Degrees) (v : ℕ)
    → All (λ e. e.1 ≡ g e.0) r
    → length (ready r) ≡ 0
    → 0 < occ v (keys r)
    → 0 < g v
unfolding ready
degree_pos g [] v h e k = absurd (omega arith)
degree_pos g ((n, d) ∷ r) v h e k = elim (Bool-cases (d == 0)) [
  | inl z ↦ absurd (ground (arith, e))
  | inr z ↦ elim (Bool-cases (n == v)) [
    | inl f ↦ ground (arith, h)
    | inr f ↦ degree_pos g r v h.1 (ground (arith, e)) (ground arith)
  ]
]

none_left :
    (es : Edges) (rank : ℕ → ℕ) (r : Degrees) (bound v : ℕ)
    → Ranked es rank
    → IsExact es (keys r) r
    → length (ready r) ≡ 0
    → rank v < bound
    → 0 < occ v (keys r)
    → ⊥
none_left es rank r zero v h x e b k = omega arith
none_left es rank r (suc bound) v h x e b k =
    let (a, here, lower) =
      lower_source es rank (keys r) v h (degree_pos (pending es (keys r)) r v x e k) in
    none_left es rank r bound a h x e (omega arith) here

-- Every node below the number of flows stands in the layers once, and no other.
abbrev pub EachOnce : ℕ → List (List ℕ) → Type 0
EachOnce n ls = (a : ℕ) → occ a (all_nodes ls) ≡ (if ltb a n then 1 else 0)

-- The flow at the second node comes in a layer after that of the first node.
abbrev pub Follows : List (List ℕ) → ℕ → ℕ → Type 0
Follows [] a b = Unit
Follows (l ∷ ls) a b = (0 < occ b l → occ a (all_nodes (l ∷ ls)) ≡ 0) × Follows ls a b

-- The index has both names, and the second one's flow comes after the first one's.
abbrev pub FollowsIn : Dict ℕ → List (List ℕ) → String → String → Type 0
FollowsIn names ls dep name =
    (a : ℕ) × (b : ℕ) × (Dict.get dep names ≡ some a)
    × (Dict.get name names ≡ some b)
    × Follows ls a b

leads-pending :
    (es : Edges) (ks : List ℕ) (a b : ℕ) → leads es a b ≡ true → occ a ks ≤ pending es ks b
leads-pending [] ks a b h = cc
leads-pending ((x, y) ∷ es) ks a b h = elim (Bool-cases ((x == a) && (y == b))) [
  | inl e ↦ ground arith
  | inr e ↦ ground (arith, leads-pending es ks a b)
]

IsOrdered-Follows :
    (es : Edges) (ls : List (List ℕ)) (a b : ℕ)
    → leads es a b ≡ true
    → IsOrdered es ls
    → Follows ls a b
IsOrdered-Follows es [] a b e h = tt
IsOrdered-Follows es (l ∷ ls) a b e h = (
  λ k. omega (arith, leads-pending es (all_nodes (l ∷ ls)) a b e, h.0 b k),
  IsOrdered-Follows es ls a b e h.1,
)

module _ (toposort : Graph → Option ℕ) (arrange : List ℕ → List ℕ) (law : Arranges arrange) where
  run_of :
      (p : Pipeline) (dag : PipelineDag)
      → from_pipeline toposort p ≡ inl dag
      → (ls : List (List ℕ)) × (left : Degrees) × (layers arrange dag ≡ some (ls, left))
        × IsRun arrange law dag.graph.edges (degrees_from dag.graph.edges 0 dag.graph.nodes) ls left
  unfolding layers
  run_of p dag h =
      let linked = from_pipeline-Linked toposort p dag h in
      let es = dag.graph.edges in
      let nodes = dag.graph.nodes in
      layers_loop-IsRun arrange law es (suc (length nodes)) (degrees_from es 0 nodes)
        (omega (arith, length-degrees_from es 0 nodes))
        (degrees_from-IsExact es (keys (degrees_from es 0 nodes)) (length nodes) 0 nodes linked.1
          (λ a below. ground (arith, occ-keys es a 0 nodes)))

  empty_left :
      (es : Edges) (rank : ℕ → ℕ) (left : Degrees)
      → Ranked es rank
      → IsExact es (keys left) left
      → length (ready left) ≡ 0
      → left ≡ []
  empty_left es rank [] h x e = refl
  empty_left es rank ((v, d) ∷ left) h x e =
      absurd (none_left es rank ((v, d) ∷ left) (suc (rank v)) v h x e (omega arith) (ground arith))

  -- For a pipeline that `from_pipeline` accepts, `layers` comes to an end with no node left over, and
  -- every node stands in its layers exactly once, in whatever order the hash map gives its entries,
  -- if `toposort` finds the cycles.
  pub layers_total :
      (cycles : FindsCycles toposort) (p : Pipeline) (dag : PipelineDag)
      → from_pipeline toposort p ≡ inl dag
      → (ls : List (List ℕ)) × (layers arrange dag ≡ some (ls, [])) × EachOnce (node_count dag) ls
  unfolding node_count
  layers_total cycles p dag h =
      let (ls, left, done, run) = run_of p dag h in
      let es = dag.graph.edges in
      let nodes = dag.graph.nodes in
      let (rank, ranked) = cycles dag.graph (from_pipeline-Linked toposort p dag h).3 in
      let none_remain : left ≡ [] = empty_left es rank left ranked run.exact run.stuck in
      (
        ls,
        subst (λ q. layers arrange dag ≡ some (ls, q)) none_remain done,
        λ a. ground (
          arith,
          run.nodes_kept a,
          occ-keys es a 0 nodes,
          ap (λ (q : Degrees). occ a (keys q)) none_remain,
        ),
      )

  -- The layers hold as many nodes as there are flows.
  pub layers-length :
      (cycles : FindsCycles toposort) (p : Pipeline) (dag : PipelineDag) (ls : List (List ℕ))
      (left : Degrees)
      → from_pipeline toposort p ≡ inl dag
      → layers arrange dag ≡ some (ls, left)
      → length (all_nodes ls) ≡ length p.flows
  layers-length cycles p dag ls left h made =
      let (ls', left', done, run) = run_of p dag h in
      let linked = from_pipeline-Linked toposort p dag h in
      let es = dag.graph.edges in
      let (rank, ranked) = cycles dag.graph linked.3 in
      let none_remain : left' ≡ [] = empty_left es rank left' ranked run.exact run.stuck in
      let same : ls' ≡ ls = cc in
      omega (
        arith,
        run.length_kept,
        ap length none_remain,
        ap (λ (q : List (List ℕ)). length (all_nodes q)) same,
        length-degrees_from es 0 dag.graph.nodes,
        ap length linked.0,
        length-map (λ (f : Flow). f.name) p.flows,
      )

  deps_in_order :
      (names : Dict ℕ) (es : Edges) (ls : List (List ℕ)) (name : String) (deps : List String)
      → IsOrdered es ls
      → All (λ dep. Linked names es dep name) deps
      → All (λ dep. FollowsIn names ls dep name) deps
  deps_in_order names es ls name [] o h = tt
  deps_in_order names es ls name (dep ∷ deps) o h =
      let (a, b, ga, gb, l) = h.0 in
      ((a, b, ga, gb, IsOrdered-Follows es ls a b l o), deps_in_order names es ls name deps o h.1)

  flows_in_order :
      (names : Dict ℕ) (es : Edges) (ls : List (List ℕ)) (fs : List Flow)
      → IsOrdered es ls
      → AllLinked names es fs
      → All (λ f. All (λ dep. FollowsIn names ls dep f.name) f.depends_on) fs
  flows_in_order names es ls [] o h = tt
  flows_in_order names es ls (f ∷ fs) o h =
      (deps_in_order names es ls f.name f.depends_on o h.0, flows_in_order names es ls fs o h.1)

  -- For a pipeline that `from_pipeline` accepts, in the layers that `layers` returns every flow stands
  -- in a later layer than each flow it depends on.
  pub layers_order :
      (p : Pipeline) (dag : PipelineDag) (ls : List (List ℕ)) (left : Degrees)
      → from_pipeline toposort p ≡ inl dag
      → layers arrange dag ≡ some (ls, left)
      → All (λ f. All (λ dep. FollowsIn dag.name_index ls dep f.name) f.depends_on) p.flows
  layers_order p dag ls left h made =
      let (ls', left', done, run) = run_of p dag h in
      let same : ls' ≡ ls = cc in
      flows_in_order dag.name_index dag.graph.edges ls p.flows
        (subst (IsOrdered dag.graph.edges) same run.ordered)
        (from_pipeline-Linked toposort p dag h).2
