-- ===== src/Pipelines/Dag.antt =====
-- crates/rspark-pipelines/src/dag.rs: the graph of a pipeline and its layers. `petgraph` is modelled as
-- far as the source reads it: nodes are numbered from 0 in the order they are added, and the edges
-- are listed, repeated ones included. `toposort` is a parameter.
pub mod Counting
pub mod Links
pub mod Order
pub mod Rounds
use rust_spark.Common.{
  ℕ, zero, suc, ◌+◌, ◌-◌, ◌==◌, Bool, true, false, not, Option, none, some, String, List, [], ◌∷◌,
  ◌++◌, map, keep, any, find, length, get_elem?, is_empty, str_eq, if◌then◌else◌, ◌⊎◌, inl, inr,
}
use rust_spark.Common.Dict
use rust_spark.Common.Dict.{Dict}
use rust_spark.Pipelines.Spec.{Flow, Pipeline, SpecError}

-- `DiGraph<String, ()>`; an edge is its source and its target.
pub record Graph : Type 0 where
  pub nodes : List String
  pub edges : List (ℕ × ℕ)

pub record PipelineDag : Type 0 where
  pub graph : Graph
  pub name_index : Dict ℕ

-- `Result<A, SpecError>`
abbrev pub SpecResult : Type 0 → Type 0
SpecResult A = A ⊎ SpecError

-- The first loop of `from_pipeline`; the first argument is the index of the next node.
unfoldable pub index_names : ℕ → Dict ℕ → List Flow → Dict ℕ
index_names next m [] = m
index_names next m (f ∷ fs) = index_names (suc next) (Dict.insert f.name next m) fs

-- The edges from the flows that one flow depends on.
unfoldable pub edges_to : Dict ℕ → ℕ → List String → SpecResult (List (ℕ × ℕ))
edges_to names to [] = inl []
edges_to names to (dep ∷ deps) =
    let rest = edges_to names to deps in
    elim (Dict.get dep names) [
      | none ↦ inr (SpecError.unknown_flow dep)
      | some from ↦ elim rest [ inl es ↦ inl ((from, to) ∷ es) | inr e ↦ inr e ]
    ]

abbrev pub append_edges :
    SpecResult (List (ℕ × ℕ)) → SpecResult (List (ℕ × ℕ)) → SpecResult (List (ℕ × ℕ))
append_edges (inl es) (inl rest) = inl (es ++ rest)
append_edges (inl es) (inr e) = inr e
append_edges (inr e) _ = inr e

-- The second loop. Every name was put in before, so the `expect` of the source does not fail; the
-- model leaves such a flow out.
unfoldable pub all_edges : Dict ℕ → List Flow → SpecResult (List (ℕ × ℕ))
unfolding edges_to
all_edges names [] = inl []
all_edges names (f ∷ fs) =
    let rest = all_edges names fs in
    elim (Dict.get f.name names) [
      | none ↦ rest
      | some to ↦ append_edges (edges_to names to f.depends_on) rest
    ]

abbrev name_of : Option String → String
name_of none = ""
name_of (some s) = s

-- `toposort` gives a node of a cycle, if there is one.
unfoldable pub checked_dag : (Graph → Option ℕ) → Dict ℕ → Graph → SpecResult PipelineDag
checked_dag toposort names g = elim (toposort g) [
  | none ↦ inl (record { graph = g; name_index = names })
  | some node ↦ inr (SpecError.cycle (name_of (get_elem? g.nodes node)))
]

unfoldable pub from_pipeline : (Graph → Option ℕ) → Pipeline → SpecResult PipelineDag
unfolding index_names all_edges checked_dag
from_pipeline toposort p =
    let names = index_names 0 [] p.flows in
    elim (all_edges names p.flows) [
      | inl es ↦
          checked_dag toposort names (record { nodes = map (λ f. f.name) p.flows; edges = es })
      | inr e ↦ inr e
    ]

-- `remaining`: the nodes that stand in no layer yet, with their in-degrees.
abbrev pub Degrees : Type 0
Degrees = List (ℕ × ℕ)

-- How many edges lead to a node.
unfoldable pub in_degree : List (ℕ × ℕ) → ℕ → ℕ
in_degree [] n = 0
in_degree ((a, b) ∷ es) n = (if b == n then 1 else 0) + in_degree es n

unfoldable pub degrees_from : List (ℕ × ℕ) → ℕ → List String → Degrees
unfolding in_degree
degrees_from es next [] = []
degrees_from es next (name ∷ names) = (next, in_degree es next) ∷ degrees_from es (suc next) names

-- The nodes of degree zero, and `remaining` without them.
unfoldable pub ready : Degrees → List ℕ
ready [] = []
ready ((n, d) ∷ rest) = let others = ready rest in if d == 0 then n ∷ others else others

unfoldable pub waiting : Degrees → Degrees
waiting [] = []
waiting ((n, d) ∷ rest) = let others = waiting rest in if d == 0 then others else (n, d) ∷ others

-- `graph.neighbors(n)`: the targets of the edges from `n`.
unfoldable pub neighbors : List (ℕ × ℕ) → ℕ → List ℕ
neighbors [] n = []
neighbors ((a, b) ∷ es) n = let others = neighbors es n in if a == n then b ∷ others else others

-- `if let Some(d) = remaining.get_mut(&succ) { *d = d.saturating_sub(1) }`
unfoldable pub decrement : ℕ → Degrees → Degrees
decrement succ [] = []
decrement succ ((n, d) ∷ rest) =
    let others = decrement succ rest in if n == succ then (n, d - 1) ∷ others else (n, d) ∷ others

unfoldable pub decrement_all : List ℕ → Degrees → Degrees
unfolding decrement
decrement_all [] r = r
decrement_all (s ∷ ss) r = decrement_all ss (decrement s r)

unfoldable pub release : List (ℕ × ℕ) → List ℕ → Degrees → Degrees
unfolding neighbors decrement_all
release es [] r = r
release es (n ∷ ns) r = release es ns (decrement_all (neighbors es n) r)

-- The loop of `layers`, on fuel. `arrange` is the order in which the hash map gives the nodes of a
-- layer. The result is the layers and what remains when the loop ends; `none` is the end of the fuel.
unfoldable pub layers_loop :
    (List ℕ → List ℕ) → List (ℕ × ℕ) → ℕ → Degrees → Option (List (List ℕ) × Degrees)
unfolding ready waiting release
layers_loop arrange es zero r = none
layers_loop arrange es (suc fuel) r =
    let layer = arrange (ready r) in
    let rest = layers_loop arrange es fuel (release es layer (waiting r)) in
    if is_empty r
    then some ([], r)
    else if is_empty layer
    then some ([], r)
    else elim rest [ none ↦ none | some (ls, left) ↦ some (layer ∷ ls, left) ]

-- `PipelineDag::layers`: one round for each node, and one to see that none is left.
unfoldable pub layers : (List ℕ → List ℕ) → PipelineDag → Option (List (List ℕ) × Degrees)
unfolding degrees_from layers_loop
layers arrange dag =
    layers_loop arrange dag.graph.edges (suc (length dag.graph.nodes))
      (degrees_from dag.graph.edges 0 dag.graph.nodes)

unfoldable pub node_count : PipelineDag → ℕ
node_count dag = length dag.graph.nodes

unfoldable pub flow : PipelineDag → ℕ → Option String
flow dag id = get_elem? dag.graph.nodes id

-- `lookup`
unfoldable pub lookup_flow : Pipeline → String → SpecResult Flow
lookup_flow p name = elim (find (λ f. str_eq f.name name) p.flows) [
  | none ↦ inr (SpecError.unknown_flow name)
  | some f ↦ inl f
]
