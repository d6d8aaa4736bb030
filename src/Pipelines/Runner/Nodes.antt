-- ===== src/Pipelines/Runner/Nodes.antt =====
-- The flow that the runner finds for each node of the graph.
use mathlib.Core.Path.{subst}
use rust_spark.Common.{
  ℕ, zero, suc, ◌+◌, ◌==◌, ◌<◌, ◌≡◌, refl, sym, ◌∙◌, Bool, true, false, Option, some, String,
  str_eq, eq_iff, List, [], ◌∷◌, find, any, length, All, inl, get_elem?, arith,
}
use rust_spark.Common.Dict
use rust_spark.Common.Dict.{Dict, get-insert}
use rust_spark.Pipelines.Spec.{Flow, Pipeline}
use rust_spark.Pipelines.Dag.{Graph, PipelineDag, index_names, checked_dag, from_pipeline}
use rust_spark.Pipelines.Runner.{is_live, is_node, flow_at}
use rust_spark.Pipelines.Runner.Entries.{DistinctFlows}

abbrev pub NoneLive : List Flow → Type 0
NoneLive fs = All (λ f. is_live f.refresh ≡ false) fs

get-index_names :
    (k : ℕ) (m : Dict ℕ) (fs : List Flow) (name : String)
    → any (λ g. str_eq g.name name) fs ≡ false
    → Dict.get name (index_names k m fs) ≡ Dict.get name m
unfolding index_names
get-index_names k m [] name h = refl
get-index_names k m (f ∷ fs) name h =
    get-index_names (suc k) (Dict.insert f.name k m) fs name (ground arith)
    ∙ ground (arith, get-insert f.name name k m)

-- The search finds the flow at the place, which is not live.
abbrev Found : (Flow → Bool) → List Flow → ℕ → Type 0
Found test fs n =
    (f : Flow) × (find test fs ≡ some f) × (is_live f.refresh ≡ false) × (get_elem? fs n ≡ some f)

Found-cons :
    (test : Flow → Bool) (f : Flow) (fs : List Flow) (n : ℕ)
    → test f ≡ false
    → Found test fs n
    → Found test (f ∷ fs) (suc n)
Found-cons test f fs n e h = (h.0, rw e h.1, h.2, h.3)

own_index :
    (k : ℕ) (m : Dict ℕ) (f : Flow) (fs : List Flow)
    → any (λ g. str_eq g.name f.name) fs ≡ false
    → Dict.get f.name (index_names (suc k) (Dict.insert f.name k m) fs) ≡ some k
own_index k m f fs d =
    get-index_names (suc k) (Dict.insert f.name k m) fs f.name d
    ∙ ground (arith, get-insert f.name f.name k m, eq_iff f.name f.name)

index_names-Found :
    (id k n : ℕ) (m : Dict ℕ) (fs : List Flow)
    → id ≡ k + n
    → n < length fs
    → DistinctFlows fs
    → NoneLive fs
    → Found (λ f. is_node id (Dict.get f.name (index_names k m fs))) fs n
unfolding index_names
index_names-Found id k n m [] e lt d h = absurd (omega arith)
index_names-Found id k zero m (f ∷ fs) e lt d h =
    let here : (k == id) ≡ true = ground arith in
    (f, rw (own_index k m f fs d.0, here) refl, h.0, refl)
index_names-Found id k (suc n) m (f ∷ fs) e lt d h =
    let later : (k == id) ≡ false = ground arith in
    Found-cons _ f fs n (rw (own_index k m f fs d.0) later) (
      index_names-Found id (suc k) n (Dict.insert f.name k m) fs (omega arith) (omega arith) d.1
        h.1)

pub from_pipeline-index :
    (toposort : Graph → Option ℕ) (p : Pipeline) (dag : PipelineDag)
    → from_pipeline toposort p ≡ inl dag
    → dag.name_index ≡ index_names 0 [] p.flows
unfolding from_pipeline checked_dag
from_pipeline-index toposort p dag h = ground (arith, h)

-- Every node of the list is the node of the flow at that place, which is not live.
abbrev pub AllFound : PipelineDag → List Flow → List ℕ → Type 0
AllFound dag flows ids =
    All
      (λ id.
        (f : Flow) × (flow_at dag flows id ≡ some f)
        × (is_live f.refresh ≡ false)
        × (get_elem? flows id ≡ some f))
      ids

pub nodes-Found :
    (dag : PipelineDag) (flows : List Flow) (ids : List ℕ)
    → dag.name_index ≡ index_names 0 [] flows
    → DistinctFlows flows
    → NoneLive flows
    → All (λ id. id < length flows) ids
    → AllFound dag flows ids
unfolding flow_at
nodes-Found dag flows [] e d h below = tt
nodes-Found dag flows (id ∷ ids) e d h below = (
  subst
      (λ (names : Dict ℕ).
        (f : Flow) × (find (λ (g : Flow). is_node id (Dict.get g.name names)) flows ≡ some f)
        × (is_live f.refresh ≡ false)
        × (get_elem? flows id ≡ some f))
      (sym e) (index_names-Found id 0 id [] flows (omega arith) below.0 d h),
  nodes-Found dag flows ids e d h below.1,
)
