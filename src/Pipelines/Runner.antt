-- ===== src/Pipelines/Runner.antt =====
-- crates/rspark-pipelines/src/runner.rs: a run of a pipeline, flow by flow. The clock, the log and the
-- progress callback are left out. What a flow writes and what others change in the meantime is the
-- world `W`: `host` is what can be read in it, `write` and `append` are the two kinds of output of
-- sink.rs, and `wait` is the sleep between two polls of a live flow.
pub mod Entries
pub mod Laws
pub mod Nodes
use rust_spark.Common.{
  ℕ, zero, suc, ◌+◌, ◌==◌, Bool, true, false, Option, none, some, String, ◌<>◌, List, [], ◌∷◌, ◌++◌,
  find, length, ◌⊎◌, inl, inr, Error, Result, ok, err, panic, ◌>>=◌, if◌then◌else◌,
}
use rust_spark.Common.Dict
use rust_spark.Common.Dict.{Dict}
use rust_spark.Core.Platform.{Platform}
use rust_spark.Core.Record.{RecordBatch, batch_is_empty}
use rust_spark.Sql.Ast.{Statement}
use rust_spark.Sql.Plan.{LogicalPlan}
use rust_spark.Sql.Parser.{plan_sql}
use rust_spark.Sql.Session.{SessionState, TableKind, session_catalog, register_with_kind}
use rust_spark.Exec.Executor.{ExecutionContext, execute}
use rust_spark.Exec.Seeded.{execute_with_input}
use rust_spark.Pipelines.Spec.{
  Flow, FlowKind, Refresh, SourceSpec, Destination, Pipeline, SpecError,
}
use rust_spark.Pipelines.Dag.{Graph, PipelineDag, from_pipeline, layers}
use rust_spark.Pipelines.Dag.Rounds.{all_nodes}
use rust_spark.Pipelines.Source.{Host, StreamingSource, poll_batch, build_source}

pub record RunStats : Type 0 where
  pub flow : String
  pub kind : FlowKind
  pub refresh : Refresh
  pub row_count : ℕ
  pub destination : String

-- An error is kept with the name of its flow, which the message of the source starts with.
pub record PipelineRunReport : Type 0 where
  pub pipeline : String
  pub flows : List RunStats
  pub errors : List (String × Error)

abbrev or_no_bucket : Option String → Option String → String
or_no_bucket (some b) _ = b
or_no_bucket none (some b) = b
or_no_bucket none none = "<no-bucket>"

-- `describe` of sink.rs; the second argument is the environment's bucket.
unfoldable pub describe : Option String → Destination → String
describe env (Destination.file path) = "file://" <> path
describe env (Destination.s3 key bucket) = "s3://" <> or_no_bucket bucket env <> "/" <> key

-- The place and the source name under which an output is registered.
unfoldable pub output_location : Option String → Destination → String × String
output_location env (Destination.file path) = (path, "csv")
output_location env (Destination.s3 key bucket) =
    ("s3://" <> or_no_bucket bucket env <> "/" <> key, "s3_csv")

unfoldable pub table_kind_of : FlowKind → TableKind
table_kind_of FlowKind.streaming_table = TableKind.streaming_table
table_kind_of FlowKind.materialized_view = TableKind.materialized_view

unfoldable pub register_flow_output :
    {p : Platform} → Option String → Flow → RecordBatch p → SessionState → SessionState
unfolding output_location table_kind_of
register_flow_output env flow output s =
    let location = output_location env flow.destination in
    register_with_kind flow.name location.0 location.1 output.schema (table_kind_of flow.kind) s

abbrev pub is_live : Refresh → Bool
is_live (Refresh.live _) = true
is_live _ = false

abbrev is_node : ℕ → Option ℕ → Bool
is_node id none = false
is_node id (some n) = n == id

-- The first flow whose name has the node in the index.
unfoldable pub flow_at : PipelineDag → List Flow → ℕ → Option Flow
flow_at dag flows id = find (λ (f : Flow). is_node id (Dict.get f.name dag.name_index)) flows

-- What the runner changes.
pub record RunState (W : Type 0) : Type 0 where
  pub world : W
  pub session : SessionState

-- The runner's surroundings.
pub record Runner (p : Platform) (W : Type 0) : Type 0 where
  pub parser : String → Option (List Statement)
  pub debug : LogicalPlan p → String
  pub context : W → ExecutionContext p
  pub host : W → Host p
  pub write : Destination → RecordBatch p → W → W × Result ℕ
  pub append : Destination → RecordBatch p → W → W × Result ℕ
  pub wait : W → W

module _ {p : Platform} {W : Type 0} (runner : Runner p W) where
  -- A flow that is not live.
  unfoldable pub execute_query : RunState W → Flow → RecordBatch p → Result (RecordBatch p)
  execute_query s flow input = do
    plan ← plan_sql runner.parser runner.debug (session_catalog s.session) flow.query
    elim flow.kind [
      | FlowKind.streaming_table ↦ execute_with_input (runner.context s.world) plan input
      | FlowKind.materialized_view ↦ execute (runner.context s.world) plan
    ]

  unfoldable pub execute_flow : RunState W → Flow → RecordBatch p → Result (RecordBatch p)
  unfolding execute_query
  execute_flow s flow input = if is_live flow.refresh then ok input else execute_query s flow input

  unfoldable pub stats_of : RunState W → Flow → ℕ → RunStats
  unfolding describe
  stats_of s flow rows = record {
    flow = flow.name;
    kind = flow.kind;
    refresh = flow.refresh;
    row_count = rows;
    destination = describe (runner.host s.world).default_bucket flow.destination;
  }

  -- Source, poll and query of one run.
  unfoldable pub flow_output : RunState W → Flow → Result (RecordBatch p)
  unfolding execute_flow
  flow_output s flow = do
    source ← build_source (runner.host s.world) flow.source
    polled ← poll_batch (runner.host s.world) source
    execute_flow s flow polled.0

  -- After the write: the output is registered, and a failure of that is only logged.
  unfoldable pub finish_flow :
      Flow → RecordBatch p → SessionState → W × Result ℕ → RunState W × Result RunStats
  unfolding stats_of register_flow_output
  finish_flow flow output session (w, ok bytes) =
      let s : RunState W = record {
        world = w;
        session = register_flow_output (runner.host w).default_bucket flow output session;
      } in
      (s, ok (stats_of s flow (length output.records)))
  finish_flow flow output session (w, err e) = (record { world = w; session = session }, err e)
  finish_flow flow output session (w, panic) = (record { world = w; session = session }, panic)

  write_output : RunState W → Flow → Result (RecordBatch p) → RunState W × Result RunStats
  unfolding finish_flow
  write_output s flow (ok output) =
      finish_flow flow output s.session (runner.write flow.destination output s.world)
  write_output s flow (err e) = (s, err e)
  write_output s flow panic = (s, panic)

  -- `run_one` of a flow that is not live.
  unfoldable pub run_once : RunState W → Flow → RunState W × Result RunStats
  unfolding flow_output write_output
  run_once s flow = write_output s flow (flow_output s flow)

  -- The state of the loop of `run_live_streaming`.
  pub record LiveState : Type 0 where
    pub run : RunState W
    pub source : StreamingSource p
    pub registered : Bool
    pub total_rows : ℕ

  -- After an append that went well.
  live_appended : Flow → RecordBatch p → LiveState → W → LiveState
  unfolding register_flow_output
  live_appended flow output s w = record s {
    run = record {
      world = w;
      session =
          if s.registered
          then s.run.session
          else register_flow_output (runner.host w).default_bucket flow output s.run.session;
    };
    registered = true;
    total_rows = s.total_rows + length output.records;
  }

  live_after : Flow → RecordBatch p → LiveState → W × Result ℕ → LiveState × Result (Unit {0})
  unfolding live_appended
  live_after flow output s (w, ok appended) = (live_appended flow output s w, ok tt)
  live_after flow output s (w, err e) = (record s { run = record s.run { world = w } }, err e)
  live_after flow output s (w, panic) = (record s { run = record s.run { world = w } }, panic)

  live_write : Flow → LiveState → Result (RecordBatch p) → LiveState × Result (Unit {0})
  unfolding live_after
  live_write flow s (err e) = (s, err e)
  live_write flow s panic = (s, panic)
  live_write flow s (ok output) =
      live_after flow output s (runner.append flow.destination output s.run.world)

  live_batch :
      Flow → LiveState → Result (RecordBatch p × StreamingSource p) → LiveState × Result (Unit {0})
  unfolding live_write execute_flow
  live_batch flow s (err e) = (s, err e)
  live_batch flow s panic = (s, panic)
  live_batch flow s (ok (batch, source)) =
      let polled = record s { source = source } in
      if batch_is_empty batch
      then (polled, ok tt)
      else live_write flow polled (execute_flow s.run flow batch)

  -- One round: poll, and append what is not empty. An error ends the loop.
  unfoldable pub live_round : Flow → LiveState → LiveState × Result (Unit {0})
  unfolding live_batch
  live_round flow s = live_batch flow s (poll_batch (runner.host s.run.world) s.source)

  live_end : RunState W → Result (Unit {0}) → RunState W × Result RunStats
  live_end s (ok u) = (s, panic)
  live_end s (err e) = (s, err e)
  live_end s panic = (s, panic)

  abbrev is_ok {ℓ} : {A : Type ℓ} → Result A → Bool
  is_ok (ok a) = true
  is_ok (err e) = false
  is_ok panic = false

  -- The loop, on fuel: `none` is a flow that still runs.
  unfoldable pub live_loop : ℕ → Flow → LiveState → Option (RunState W × Result RunStats)
  unfolding live_round live_end
  live_loop zero flow s = none
  live_loop (suc fuel) flow s =
      let done = live_round flow s in
      let waited = record done.0 {
        run = record done.0.run { world = runner.wait done.0.run.world };
      } in
      let rest = live_loop fuel flow waited in
      if is_ok done.1 then rest else some (live_end done.0.run done.1)

  live_start :
      RunState W → Flow → ℕ → Result (StreamingSource p) → Option (RunState W × Result RunStats)
  unfolding live_loop
  live_start s flow fuel (err e) = some (s, err e)
  live_start s flow fuel panic = some (s, panic)
  live_start s flow fuel (ok source) =
      live_loop fuel flow (record { run = s; source = source; registered = false; total_rows = 0 })

  -- `run_one`; the fuel is only for live flows.
  unfoldable pub run_one : ℕ → RunState W → Flow → Option (RunState W × Result RunStats)
  unfolding run_once live_start
  run_one fuel s flow =
      if is_live flow.refresh
      then live_start s flow fuel (build_source (runner.host s.world) flow.source)
      else some (run_once s flow)

  -- A failure of one flow is recorded, and the run goes on.
  unfoldable pub record_result : Flow → Result RunStats → PipelineRunReport → PipelineRunReport
  record_result flow (ok stats) r = record r { flows = r.flows ++ stats ∷ [] }
  record_result flow (err e) r = record r { errors = r.errors ++ (flow.name, e) ∷ [] }
  record_result flow panic r = r

  -- The loops over the layers and their nodes. A panic ends the run.
  unfoldable pub run_nodes :
      ℕ
      → PipelineDag
      → List Flow
      → List ℕ
      → RunState W
      → PipelineRunReport
      → Option (RunState W × Result PipelineRunReport)
  unfolding run_one record_result
  run_nodes fuel dag flows [] s r = some (s, ok r)
  run_nodes fuel dag flows (id ∷ ids) s r = elim (flow_at dag flows id) [
    | none ↦ run_nodes fuel dag flows ids s r
    | some flow ↦ elim (run_one fuel s flow) [
      | none ↦ none
      | some (s', done) ↦ elim done [
        | panic ↦ some (s', panic)
        | ok stats ↦ run_nodes fuel dag flows ids s' (record_result flow (ok stats) r)
        | err e ↦ run_nodes fuel dag flows ids s' (record_result flow (err e) r)
      ]
    ]
  ]

  -- `PipelineRunner::run`. The nodes run one after the other, layer by layer.
  unfoldable pub run :
      ℕ
      → (Graph → Option ℕ)
      → (List ℕ → List ℕ)
      → Pipeline
      → RunState W
      → Option (RunState W × Result PipelineRunReport)
  unfolding run_nodes
  run fuel toposort arrange pipeline s = elim (from_pipeline toposort pipeline) [
    | inr e ↦ some (s, err Error.parse)
    | inl dag ↦ elim (layers arrange dag) [
      | none ↦ none
      | some (ls, left) ↦
          run_nodes fuel dag pipeline.flows (all_nodes ls) s
            (record { pipeline = pipeline.pipeline; flows = []; errors = [] })
    ]
  ]
