-- ===== src/Tests/Pipelines.antt =====
-- Pipelines and the JSON source at concrete inputs.
use rust_spark.Common.{
  IsI64, arith, ℕ, ◌≡◌, refl, true, false, Bool, ltb, Bool-cases, inl, inr, some, none, Option,
  String, List, [], ◌∷◌, ℤ, if◌then◌else◌, Error, ok, err, arith, all, All,
}
use rust_spark.Common.Dict
use rust_spark.Exec.Executor.Typed.{SourcesTyped}
use rust_spark.Storage.Json.{
  JsonNumber, Json, JsonNumbers, Stream, Item, json_context, read_rows, write_rows,
}
use rust_spark.Storage.Json.Laws.{KeepsIntegers, json_context-SourcesTyped, read_rows-write_rows}
use rust_spark.Pipelines.Spec.{Flow, FlowKind, Refresh, SourceSpec, Destination, Pipeline}
use rust_spark.Pipelines.Dag.{Graph, PipelineDag, from_pipeline, layers, node_count}
use rust_spark.Pipelines.Dag.Counting.{Edges}
use rust_spark.Pipelines.Dag.Rounds.{Arranges}
use rust_spark.Pipelines.Dag.Order.{
  Ranked, FindsCycles, EachOnce, FollowsIn, layers_total, layers_order,
}
use rust_spark.Pipelines.Source.{Host}
use rust_spark.Pipelines.Runner.{Runner, RunState, run}
use rust_spark.Pipelines.Runner.Laws.{Ends, run-Ends}
use rust_spark.Tests.Samples.{whole, people, ann, cid, shop}

-- A search that accepts the graphs whose edges lead to higher nodes.
abbrev upward : Edges → Bool
upward es = all (λ e. ltb e.0 e.1) es

abbrev search_upward : Graph → Option ℕ
search_upward g = if upward g.edges then none else some 0

upward-Ranked : (es : Edges) → upward es ≡ true → Ranked es (λ n. n)
upward-Ranked [] h = tt
upward-Ranked (e ∷ es) h = (ground arith, upward-Ranked es (ground arith))

upward-FindsCycles : FindsCycles search_upward
upward-FindsCycles g h = elim (Bool-cases (upward g.edges)) [
  | inl e ↦ (λ n. n, upward-Ranked g.edges e)
  | inr e ↦ absurd (ground (arith, h))
]

abbrev as_listed : List ℕ → List ℕ
as_listed ns = ns

as_listed-Arranges : Arranges as_listed
as_listed-Arranges = record { same_nodes = λ a xs. refl; same_length = λ xs. refl }

abbrev view : String → List String → Flow
view name deps = record {
  name = name;
  kind = FlowKind.materialized_view;
  depends_on = deps;
  source = SourceSpec.sql;
  query = "";
  refresh = Refresh.full;
  destination = Destination.file name;
}

-- `c` depends on `a` and `b`, and `b` on `a`.
abbrev three_flows : Pipeline
three_flows = record {
  pipeline = "p";
  flows = view "a" [] ∷ view "b" ("a" ∷ []) ∷ view "c" ("a" ∷ "b" ∷ []) ∷ [];
}

abbrev three_nodes : PipelineDag
three_nodes = record {
  graph = record { nodes = "a" ∷ "b" ∷ "c" ∷ []; edges = (0, 1) ∷ (0, 2) ∷ (1, 2) ∷ [] };
  name_index = ("a", 0) ∷ ("b", 1) ∷ ("c", 2) ∷ [];
}

builds : from_pipeline search_upward three_flows ≡ inl three_nodes
unfolding from_pipeline Dict.get Dict.insert
builds = refl

abbrev rounds : List (List ℕ)
rounds = (0 ∷ []) ∷ (1 ∷ []) ∷ (2 ∷ []) ∷ []

ends : layers as_listed three_nodes ≡ some (rounds, [])
unfolding layers
ends = refl

layers_total_example :
    (ls : List (List ℕ)) × (layers as_listed three_nodes ≡ some (ls, []))
    × EachOnce (node_count three_nodes) ls
layers_total_example =
    layers_total search_upward as_listed as_listed-Arranges upward-FindsCycles three_flows
      three_nodes builds

layers_order_example :
    All
      (λ f. All (λ dep. FollowsIn three_nodes.name_index rounds dep f.name) f.depends_on)
      three_flows.flows
layers_order_example =
    layers_order search_upward as_listed as_listed-Arranges three_flows three_nodes rounds [] builds
      ends

-- A host with no files, whose writes all fail.
abbrev bare : Host whole
bare = record {
  list_files = λ dir. err Error.io;
  file_name = λ path. path;
  read_objects = λ path. err Error.io;
  csv_files = λ path. err Error.io;
  json_files = λ path. err Error.io;
  kafka_connect = λ topic brokers group_id. err Error.storage;
  messages = λ topic. [];
  default_bucket = none;
}

abbrev bare_runner : Runner whole ℕ
bare_runner = record {
  parser = λ sql. none;
  debug = λ plan. "";
  context = λ w. shop;
  host = λ w. bare;
  write = λ dest batch w. (w, err Error.io);
  append = λ dest batch w. (w, err Error.io);
  wait = λ w. w;
}

abbrev start : RunState ℕ
start = record { world = 0; session = record { tables = [] } }

run-Ends_example :
    Ends bare_runner 0 three_flows.flows
      (run bare_runner 0 search_upward as_listed three_flows start)
run-Ends_example =
    run-Ends bare_runner 0 search_upward as_listed three_flows three_nodes start upward-FindsCycles
      as_listed-Arranges builds (refl, (refl, (refl, tt))) (refl, (refl, (refl, tt)))

-- Numbers that keep an integer, and know no float.
abbrev plain_number : ℤ → JsonNumber whole
plain_number i = record { as_i64 = some i; is_u64 = false; as_f64 = some i }

abbrev plain : JsonNumbers whole
plain = record {
  of_int = λ i. Json.number (plain_number i);
  of32 = λ f. Json.null;
  of64 = λ f. Json.null;
}

plain-KeepsIntegers : KeepsIntegers plain
plain-KeepsIntegers = record { keeps_int = λ i h. (plain_number i, refl, refl) }

read_rows-write_rows_example :
    read_rows people (write_rows plain people (ann ∷ cid ∷ [])) ≡ ok (ann ∷ cid ∷ [])
unfolding rust_spark.Storage.Json.has_field IsI64
read_rows-write_rows_example =
    read_rows-write_rows plain plain-KeepsIntegers people (ann ∷ cid ∷ []) (refl, (refl, tt))
      (
        (refl, ((refl, (omega arith, omega arith)), tt)),
        ((refl, ((refl, (omega arith, omega arith)), tt)), tt),
      )

json_context-SourcesTyped_example : SourcesTyped (json_context {p = whole} (λ path. ok []))
json_context-SourcesTyped_example = json_context-SourcesTyped (λ path. ok [])
