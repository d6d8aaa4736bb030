-- ===== src/Pipelines/Spec.antt =====
-- crates/rspark-pipelines/src/spec.rs: pipelines and their flows. The YAML reader is not modelled.
use rust_spark.Common.{ℕ, Option, String, List, [], ◌∷◌}
use rust_spark.Common.Dict
use rust_spark.Common.Dict.{Dict}

pub data FlowKind : Type 0 where
  materialized_view streaming_table : FlowKind

pub data Refresh : Type 0 where
  full incremental : Refresh
  live : (poll_ms : ℕ) → Refresh

abbrev pub default_refresh : Refresh
default_refresh = Refresh.full

pub data SourceSpec : Type 0 where
  tail_dir csv json : String → SourceSpec
  s3 : (key : String) → (bucket : Option String) → SourceSpec
  kafka : (topic brokers group_id : String) → SourceSpec
  sql : SourceSpec

pub data Destination : Type 0 where
  s3 : (key : String) → (bucket : Option String) → Destination
  file : (path : String) → Destination

pub record Flow : Type 0 where
  pub name : String
  pub kind : FlowKind
  pub depends_on : List String
  pub source : SourceSpec
  pub query : String
  pub refresh : Refresh
  pub destination : Destination

pub record Pipeline : Type 0 where
  pub pipeline : String
  pub flows : List Flow

-- `Pipeline::index`: of two flows with one name, the later stands in the map.
index_from : Dict Flow → List Flow → Dict Flow
index_from m [] = m
index_from m (f ∷ fs) = index_from (Dict.insert f.name f m) fs

unfoldable pub index : Pipeline → Dict Flow
unfolding index_from
index p = index_from [] p.flows

-- The two errors of the graph; the other two come from reading the file.
pub data SpecError : Type 0 where
  unknown_flow : String → SpecError
  cycle : String → SpecError
