-- ===== src/Pipelines/Runner/Laws.antt =====
-- A run accounts for every flow.
use mathlib.Core.List.{map-append}
use rust_spark.Common.{
  ℕ, map, if◌then◌else◌, ◌+◌, ◌<◌, ◌≡◌, refl, ap, ◌∙◌, false, Option, none, some, String, str_eq,
  List, [], ◌∷◌, length, length-map, length-append, All, inl, Error, Result, ok, err, panic, arith,
}
use rust_spark.Core.Platform.{Platform}
use rust_spark.Core.Record.{RecordBatch}
use rust_spark.Sql.Session.{SessionState}
use rust_spark.Pipelines.Spec.{Flow, Pipeline}
use rust_spark.Pipelines.Dag.{Graph, PipelineDag, from_pipeline, node_count}
use rust_spark.Pipelines.Dag.Counting.{occ}
use rust_spark.Pipelines.Dag.Rounds.{Arranges, all_nodes}
use rust_spark.Pipelines.Dag.Links.{from_pipeline-Linked}
use rust_spark.Pipelines.Dag.Order.{FindsCycles, EachOnce, layers_total, layers-length}
use rust_spark.Pipelines.Runner.Nodes.{NoneLive, AllFound, from_pipeline-index, nodes-Found}
use rust_spark.Pipelines.Runner.Entries.{
  DistinctFlows, entries, Accounts, named, hits, hits_once, times-append,
}
use rust_spark.Pipelines.Runner.{
  Runner, RunState, RunStats, PipelineRunReport, is_live, run_once, run_one, record_result,
  run_nodes, run, finish_flow, stats_of, write_output, flow_output,
}

-- Nodes that are counted only below a number lie below it.
nodes_below : (n : ℕ) (ids : List ℕ) → ((a : ℕ) → 0 < occ a ids → a < n) → All (λ id. id < n) ids
nodes_below n [] h = tt
nodes_below n (id ∷ ids) h = (h id (ground arith), nodes_below n ids (λ a k. h a (ground arith)))

below_count :
    (n m a : ℕ) (ls : List (List ℕ)) → EachOnce n ls → n ≡ m → 0 < occ a (all_nodes ls) → a < m
below_count n m a ls h e k = ground (arith, h a)

once_each :
    (n m a : ℕ) (ls : List (List ℕ)) → EachOnce n ls → n ≡ m → a < m → occ a (all_nodes ls) ≡ 1
once_each n m a ls h e k = ground (arith, h a)

nodes-flows :
    (toposort : Graph → Option ℕ) (p : Pipeline) (dag : PipelineDag)
    → from_pipeline toposort p ≡ inl dag
    → node_count dag ≡ length p.flows
unfolding node_count
nodes-flows toposort p dag h =
    ap length (from_pipeline-Linked toposort p dag h).0 ∙ length-map (λ (f : Flow). f.name) p.flows

module _ {p : Platform} {W : Type 0} (runner : Runner p W) (fuel : ℕ) where
  -- A run that comes to an end, with a report that accounts for the flows.
  abbrev pub Ends : List Flow → Option (RunState W × Result PipelineRunReport) → Type 0
  Ends flows none = ⊥
  Ends flows (some (s, r)) = Accounts flows r

  -- The rest of a run comes to an end, with so many entries in all and for each name.
  abbrev Tallied : ℕ → (String → ℕ) → Option (RunState W × Result PipelineRunReport) → Type 0
  Tallied n target none = ⊥
  Tallied n target (some (s, ok r)) =
      (length r.flows + length r.errors ≡ n) × ((k : String) → entries k r ≡ target k)
  Tallied n target (some (s, err e)) = ⊥
  Tallied n target (some (s, panic)) = Unit

  once :
      (s : RunState W) (f : Flow)
      → is_live f.refresh ≡ false
      → run_one runner fuel s f ≡ some (run_once runner s f)
  unfolding run_one
  once s f h = rw h refl

  -- A result carries the name of its flow.
  abbrev IsOfFlow : Flow → Result RunStats → Type 0
  IsOfFlow f (ok stats) = stats.flow ≡ f.name
  IsOfFlow f _ = Unit

  finish_flow-IsOfFlow :
      (f : Flow) (output : RecordBatch p) (session : SessionState) (written : W × Result ℕ)
      → IsOfFlow f (finish_flow runner f output session written).1
  unfolding finish_flow stats_of
  finish_flow-IsOfFlow f output session (w, ok bytes) = refl
  finish_flow-IsOfFlow f output session (w, err e) = tt
  finish_flow-IsOfFlow f output session (w, panic) = tt

  write_output-IsOfFlow :
      (s : RunState W) (f : Flow) (output : Result (RecordBatch p))
      → IsOfFlow f (write_output runner s f output).1
  unfolding write_output
  write_output-IsOfFlow s f (ok output) = finish_flow-IsOfFlow f output s.session _
  write_output-IsOfFlow s f (err e) = tt
  write_output-IsOfFlow s f panic = tt

  run_once-IsOfFlow : (s : RunState W) (f : Flow) → IsOfFlow f (run_once runner s f).1
  unfolding run_once
  run_once-IsOfFlow s f = write_output-IsOfFlow s f (flow_output runner s f)

  -- What a recorded outcome adds to the entries.
  abbrev Adds : Flow → PipelineRunReport → PipelineRunReport → Type 0
  Adds f r r' =
      (length r'.flows + length r'.errors ≡ length r.flows + length r.errors + 1)
      × ((k : String) → entries k r' ≡ entries k r + (if str_eq f.name k then 1 else 0))

  ok-Adds :
      (f : Flow) (stats : RunStats) (r : PipelineRunReport)
      → stats.flow ≡ f.name
      → Adds f r (record_result runner f (ok stats) r)
  unfolding record_result
  ok-Adds f stats r e = (
    omega (arith, length-append r.flows (stats ∷ [])),
    λ k.
        rw (map-append (λ s. s.flow) r.flows (stats ∷ []))
          (ground (arith, e, times-append k (map (λ s. s.flow) r.flows) stats.flow)),
  )

  err-Adds :
      (f : Flow) (e : Error) (r : PipelineRunReport) → Adds f r (record_result runner f (err e) r)
  unfolding record_result
  err-Adds f e r = (
    omega (arith, length-append r.errors ((f.name, e) ∷ [])),
    λ k.
        rw (map-append (λ (x : String × Error). x.0) r.errors ((f.name, e) ∷ []))
          (omega (arith, times-append k (map (λ (x : String × Error). x.0) r.errors) f.name)),
  )

  run_nodes-Tallied :
      (dag : PipelineDag) (flows : List Flow) (ids : List ℕ) (s : RunState W)
      (r : PipelineRunReport) (n : ℕ) (target : String → ℕ)
      → AllFound dag flows ids
      → length r.flows + length r.errors + length ids ≡ n
      → ((k : String) → entries k r + hits k flows ids ≡ target k)
      → Tallied n target (run_nodes runner fuel dag flows ids s r)
  unfolding run_nodes hits named
  run_nodes-Tallied dag flows [] s r n target h e t = (omega arith, λ k. omega (arith, t k))
  run_nodes-Tallied dag flows (id ∷ ids) s r n target h e t =
      let (f, found, quiet, place) = h.0 in
      rw (found, once s f quiet, run_nodes)
        (go f (run_once runner s f).0 (run_once runner s f).1 (run_once-IsOfFlow s f) (λ s' r' a.
          run_nodes-Tallied dag flows ids s' r' n target h.1 (omega (arith, a.0))
            (λ k. omega (arith, a.1 k, rw place at (t k)))))
    where
      go :
          (f : Flow) (s' : RunState W) (m : Result RunStats)
          → IsOfFlow f m
          → ((s'' : RunState W) (r' : PipelineRunReport)
              → Adds f r r'
              → Tallied n target (run_nodes runner fuel dag flows ids s'' r'))
          → Tallied n target (elim m [
            | panic ↦ some (s', panic)
            | ok stats ↦
                run_nodes runner fuel dag flows ids s' (record_result runner f (ok stats) r)
            | err x ↦ run_nodes runner fuel dag flows ids s' (record_result runner f (err x) r)
          ])
      go f s' panic own ih = tt
      go f s' (ok stats) own ih = ih s' _ (ok-Adds f stats r own)
      go f s' (err x) own ih = ih s' _ (err-Adds f x r)

  All-entries :
      (r : PipelineRunReport) (target : String → ℕ) (fs : List Flow)
      → ((k : String) → entries k r ≡ target k)
      → All (λ f. target f.name ≡ 1) fs
      → All (λ f. entries f.name r ≡ 1) fs
  All-entries r target [] e h = tt
  All-entries r target (f ∷ fs) e h = (e f.name ∙ h.0, All-entries r target fs e h.1)

  Tallied-Ends :
      (flows : List Flow) (target : String → ℕ) (o : Option (RunState W × Result PipelineRunReport))
      → All (λ f. target f.name ≡ 1) flows
      → Tallied (length flows) target o
      → Ends flows o
  Tallied-Ends flows target none h t = t
  Tallied-Ends flows target (some (s, ok r)) h t = (t.0, All-entries r target flows t.1 h)
  Tallied-Ends flows target (some (s, err e)) h t = t
  Tallied-Ends flows target (some (s, panic)) h t = tt

  -- A run of a pipeline that `from_pipeline` accepts comes to an end, with a report that has exactly one
  -- entry under the name of each flow, a result or a failure, and no other entry, whatever fails in
  -- them, unless a flow panics; if no flow is live, no two flows have one name, and `toposort` finds
  -- the cycles.
  pub run-Ends :
      (toposort : Graph → Option ℕ) (arrange : List ℕ → List ℕ) (pipeline : Pipeline)
      (dag : PipelineDag) (s : RunState W)
      → FindsCycles toposort
      → Arranges arrange
      → from_pipeline toposort pipeline ≡ inl dag
      → DistinctFlows pipeline.flows
      → NoneLive pipeline.flows
      → Ends pipeline.flows (run runner fuel toposort arrange pipeline s)
  unfolding run
  run-Ends toposort arrange pipeline dag s cycles law built distinct quiet =
      let (ls, made, each) = layers_total toposort arrange law cycles pipeline dag built in
      let counted = layers-length toposort arrange law cycles pipeline dag ls [] built made in
      let flows = pipeline.flows in
      let nodes = all_nodes ls in
      let nodes_flows = nodes-flows toposort pipeline dag built in
      rw (built, made, run)
        (Tallied-Ends flows (λ k. hits k flows nodes) _
          (hits_once flows [] flows nodes refl distinct
            (λ a lt. once_each (node_count dag) (length flows) a ls each nodes_flows lt))
          (run_nodes-Tallied dag flows nodes s _ (length flows) (λ k. hits k flows nodes)
            (nodes-Found dag flows nodes (from_pipeline-index toposort pipeline dag built) distinct
              quiet
              (nodes_below (length flows) nodes
                (λ a k. below_count (node_count dag) (length flows) a ls each nodes_flows k)))
            (omega (arith, counted)) (λ k. omega arith)))
