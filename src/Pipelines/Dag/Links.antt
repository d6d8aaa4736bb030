-- ===== src/Pipelines/Dag/Links.antt =====
-- The edges that `from_pipeline` makes: one from every flow that a flow depends on, between known nodes.
use mathlib.Core.Path.{subst}
use rust_spark.Common.{
  ℕ, suc, ◌+◌, ◌==◌, ◌<◌, ◌≡◌, refl, Bool, true, Bool-cases, inl, inr, Option, none, some, String,
  List, [], ◌∷◌, ◌++◌, map, any, length, get_elem?, length-map, All, All-append, arith, ◌&&◌, ◌||◌,
  str_eq, eq_iff,
}
use rust_spark.Common.Dict
use rust_spark.Common.Dict.{Dict, get-insert}
use rust_spark.Pipelines.Spec.{Flow, Pipeline, SpecError}
use rust_spark.Pipelines.Dag.{
  Graph, PipelineDag, SpecResult, index_names, edges_to, append_edges, all_edges, checked_dag,
  from_pipeline, name_of,
}
use rust_spark.Pipelines.Dag.Counting.{Edges}

-- There is an edge from `a` to `b`.
abbrev pub leads : Edges → ℕ → ℕ → Bool
leads es a b = any (λ e. (e.0 == a) && (e.1 == b)) es

abbrev pub SourcesBelow : ℕ → Edges → Type 0
SourcesBelow n es = All (λ e. e.0 < n) es

-- Both names are in the index, and an edge leads from the first to the second.
abbrev pub Linked : Dict ℕ → Edges → String → String → Type 0
Linked names es dep name =
    (a : ℕ) × (b : ℕ) × (Dict.get dep names ≡ some a)
    × (Dict.get name names ≡ some b)
    × (leads es a b ≡ true)

abbrev pub AllLinked : Dict ℕ → Edges → List Flow → Type 0
AllLinked names es fs = All (λ f. All (λ dep. Linked names es dep f.name) f.depends_on) fs

abbrev Below : ℕ → Dict ℕ → Type 0
Below n m = All (λ e. e.1 < n) m

Below-suc : (n : ℕ) (m : Dict ℕ) → Below n m → Below (suc n) m
Below-suc n [] h = tt
Below-suc n ((j, w) ∷ m) h = (omega arith, Below-suc n m h.1)

insert-Below : (k : String) (n : ℕ) (m : Dict ℕ) → Below n m → Below (suc n) (Dict.insert k n m)
unfolding Dict.insert
insert-Below k n [] h = (omega arith, tt)
insert-Below k n ((j, w) ∷ m) h = elim (Bool-cases (str_eq j k)) [
  | inl e ↦ rw e (omega arith, Below-suc n m h.1)
  | inr e ↦ rw e (omega arith, insert-Below k n m h.1)
]

index_names-Below :
    (n k : ℕ) (m : Dict ℕ) (fs : List Flow)
    → Below k m
    → k + length fs ≡ n
    → Below n (index_names k m fs)
unfolding index_names
index_names-Below n k m [] h e = let e' : k ≡ n = omega arith in rw (← e') h
index_names-Below n k m (f ∷ fs) h e =
    index_names-Below n (suc k) (Dict.insert f.name k m) fs (insert-Below f.name k m h)
      (omega arith)

get-Below : (k : String) (n v : ℕ) (m : Dict ℕ) → Below n m → Dict.get k m ≡ some v → v < n
unfolding Dict.get
get-Below k n v [] h e = cc
get-Below k n v ((j, w) ∷ m) h e = elim (Bool-cases (str_eq j k)) [
  | inl f ↦ ground (arith, h)
  | inr f ↦ get-Below k n v m h.1 (ground arith)
]

abbrev Known : Dict ℕ → String → Type 0
Known m k = (v : ℕ) × (Dict.get k m ≡ some v)

Known-insert : (m : Dict ℕ) (k j : String) (n : ℕ) → Known m k → Known (Dict.insert j n m) k
Known-insert m k j n h = elim (Bool-cases (str_eq j k)) [
  | inl e ↦ (n, ground (arith, get-insert j k n m))
  | inr e ↦ (h.0, ground (arith, get-insert j k n m, h.1))
]

index_names-keeps :
    (k : ℕ) (m : Dict ℕ) (fs : List Flow) (name : String)
    → Known m name
    → Known (index_names k m fs) name
unfolding index_names
index_names-keeps k m [] name h = h
index_names-keeps k m (f ∷ fs) name h =
    index_names-keeps (suc k) (Dict.insert f.name k m) fs name (Known-insert m name f.name k h)

index_names-Known :
    (k : ℕ) (m : Dict ℕ) (fs : List Flow) → All (λ f. Known (index_names k m fs) f.name) fs
unfolding index_names
index_names-Known k m [] = tt
index_names-Known k m (f ∷ fs) = (
  index_names-keeps (suc k) (Dict.insert f.name k m) fs f.name
      (k, ground (arith, get-insert f.name f.name k m, eq_iff f.name f.name)),
  index_names-Known (suc k) (Dict.insert f.name k m) fs,
)

leads-append : (es fs : Edges) (a b : ℕ) → leads (es ++ fs) a b ≡ (leads es a b || leads fs a b)
leads-append [] fs a b = refl
leads-append (e ∷ es) fs a b = ground (arith, leads-append es fs a b)

module _ (names : Dict ℕ) (n : ℕ) (below : Below n names) where
  -- What one flow's edges are: from known nodes, one for each dependency.
  abbrev LinksTo : ℕ → List String → Edges → Type 0
  LinksTo to deps es =
      SourcesBelow n es
      × All (λ dep. (a : ℕ) × (Dict.get dep names ≡ some a) × (leads es a to ≡ true)) deps

  later :
      (to : ℕ) (e : ℕ × ℕ) (es : Edges) (deps : List String)
      → All (λ dep. (a : ℕ) × (Dict.get dep names ≡ some a) × (leads es a to ≡ true)) deps
      → All (λ dep. (a : ℕ) × (Dict.get dep names ≡ some a) × (leads (e ∷ es) a to ≡ true)) deps
  later to e es [] h = tt
  later to e es (dep ∷ deps) h =
      let (a, g, l) = h.0 in ((a, g, ground arith), later to e es deps h.1)

  edges_to-LinksTo :
      (to : ℕ) (deps : List String) (es : Edges)
      → edges_to names to deps ≡ inl es
      → LinksTo to deps es
  unfolding edges_to
  edges_to-LinksTo to [] es h = ground arith
  edges_to-LinksTo to (dep ∷ deps) es h =
      go (Dict.get dep names) (edges_to names to deps) refl
        (λ rest e. edges_to-LinksTo to deps rest e) h
    where
      go :
          (m : Option ℕ) (r : SpecResult Edges)
          → Dict.get dep names ≡ m
          → ((rest : Edges) → r ≡ inl rest → LinksTo to deps rest)
          → elim m [
            | none ↦ inr (SpecError.unknown_flow dep)
            | some from ↦ elim r [ inl es' ↦ inl ((from, to) ∷ es') | inr x ↦ inr x ]
          ]
            ≡ inl es
          → LinksTo to (dep ∷ deps) es
      go none r g ih k = cc
      go (some from) (inr x) g ih k = cc
      go (some from) (inl rest) g ih k =
          let (sources, links) = ih rest refl in
          let same : (from, to) ∷ rest ≡ es = cc in
          subst (LinksTo to (dep ∷ deps)) same (
            (get-Below dep n from names below g, sources),
            ((from, g, ground arith), later to (from, to) rest deps links),
          )

  -- Links stay when edges are added on either side.
  wider :
      (to : ℕ) (name : String) (es rest : Edges) (deps : List String)
      → Dict.get name names ≡ some to
      → All (λ dep. (a : ℕ) × (Dict.get dep names ≡ some a) × (leads es a to ≡ true)) deps
      → All (λ dep. Linked names (es ++ rest) dep name) deps
  wider to name es rest [] g h = tt
  wider to name es rest (dep ∷ deps) g h =
      let (a, found, l) = h.0 in
      (
        (a, to, found, g, ground (arith, leads-append es rest a to)),
        wider to name es rest deps g h.1,
      )

  Linked-append :
      (es rest : Edges) (dep name : String)
      → Linked names rest dep name
      → Linked names (es ++ rest) dep name
  Linked-append es rest dep name h =
      let (a, b, found, g, l) = h in (a, b, found, g, ground (arith, leads-append es rest a b))

  deps-append :
      (es rest : Edges) (name : String) (deps : List String)
      → All (λ dep. Linked names rest dep name) deps
      → All (λ dep. Linked names (es ++ rest) dep name) deps
  deps-append es rest name [] h = tt
  deps-append es rest name (dep ∷ deps) h =
      (Linked-append es rest dep name h.0, deps-append es rest name deps h.1)

  AllLinked-append :
      (es rest : Edges) (fs : List Flow) → AllLinked names rest fs → AllLinked names (es ++ rest) fs
  AllLinked-append es rest [] h = tt
  AllLinked-append es rest (f ∷ fs) h =
      (deps-append es rest f.name f.depends_on h.0, AllLinked-append es rest fs h.1)

  all_edges-AllLinked :
      (fs : List Flow) (es : Edges)
      → All (λ f. Known names f.name) fs
      → all_edges names fs ≡ inl es
      → SourcesBelow n es × AllLinked names es fs
  unfolding all_edges
  all_edges-AllLinked [] es k h = ground arith
  all_edges-AllLinked (f ∷ fs) es k h =
      go (edges_to names k.0.0 f.depends_on) (all_edges names fs)
        (λ own e. edges_to-LinksTo k.0.0 f.depends_on own e)
        (λ rest e. all_edges-AllLinked fs rest k.1 e) (rw (k.0.1, all_edges) at h)
    where
      go :
          (m r : SpecResult Edges)
          → ((own : Edges) → m ≡ inl own → LinksTo k.0.0 f.depends_on own)
          → ((rest : Edges) → r ≡ inl rest → SourcesBelow n rest × AllLinked names rest fs)
          → append_edges m r ≡ inl es
          → SourcesBelow n es × AllLinked names es (f ∷ fs)
      go (inr x) r own ih e = cc
      go (inl es') (inr x) own ih e = cc
      go (inl es') (inl rest) own ih e =
          let mine = own es' refl in
          let others = ih rest refl in
          let same : es' ++ rest ≡ es = cc in
          subst (λ q. SourcesBelow n q × AllLinked names q (f ∷ fs)) same
            (
              All-append (λ e'. e'.0 < n) es' rest mine.0 others.0,
              (
                wider k.0.0 f.name es' rest f.depends_on k.0.1 mine.1,
                AllLinked-append es' rest fs others.1,
              ),
            )

-- A graph that `from_pipeline` returns has a node for each flow, edges that lead from its nodes, one
-- from each flow that a flow depends on; and `toposort` found no cycle in it.
pub from_pipeline-Linked :
    (toposort : Graph → Option ℕ) (p : Pipeline) (dag : PipelineDag)
    → from_pipeline toposort p ≡ inl dag
    → (dag.graph.nodes ≡ map (λ (f : Flow). f.name) p.flows)
      × SourcesBelow (length dag.graph.nodes) dag.graph.edges
      × AllLinked dag.name_index dag.graph.edges p.flows
      × (toposort dag.graph ≡ none)
unfolding from_pipeline checked_dag
from_pipeline-Linked toposort p dag h = go (all_edges names p.flows) refl h
  where
    names : Dict ℕ
    names = index_names 0 [] p.flows

    nodes : List String
    nodes = map (λ f. f.name) p.flows

    Good : PipelineDag → Type 0
    Good d =
        (d.graph.nodes ≡ map (λ (f : Flow). f.name) p.flows)
        × SourcesBelow (length d.graph.nodes) d.graph.edges
        × AllLinked d.name_index d.graph.edges p.flows
        × (toposort d.graph ≡ none)

    checked :
        (es : Edges) (t : Option ℕ)
        → toposort (record { nodes = nodes; edges = es }) ≡ t
        → all_edges names p.flows ≡ inl es
        → elim t [
          | none ↦ inl (record { graph = record { nodes = nodes; edges = es }; name_index = names })
          | some node ↦ inr (SpecError.cycle (name_of (get_elem? nodes node)))
        ]
          ≡ inl dag
        → Good dag
    checked es (some node) et e k = cc
    checked es none et e k =
        let same : record { graph = record { nodes = nodes; edges = es }; name_index = names }
            ≡ dag =
          cc in
        let found =
          all_edges-AllLinked names (length nodes)
            (index_names-Below (length nodes) 0 [] p.flows tt
              (omega (arith, length-map (λ (f : Flow). f.name) p.flows)))
            p.flows es (index_names-Known 0 [] p.flows) e in
        subst Good same (refl, found.0, found.1, et)

    go :
        (m : SpecResult Edges)
        → all_edges names p.flows ≡ m
        → elim m [
          | inl es ↦ checked_dag toposort names (record { nodes = nodes; edges = es })
          | inr e ↦ inr e
        ]
          ≡ inl dag
        → Good dag
    go (inr x) e k = cc
    go (inl es) e k = checked es (toposort (record { nodes = nodes; edges = es })) refl e k
