-- ===== src/Lib.antt =====
-- The verification library of rspark, a small Spark-like query engine with a cluster master.
--
-- The program. A SQL text becomes a logical plan (crates/rspark-sql), the executor runs the plan over
-- batches of rows (crates/rspark-exec, on the values, schemas and expressions of crates/rspark-core),
-- and a master cuts submitted jobs into tasks, hands these to workers and takes their results
-- (crates/rspark-cluster). Tables are read by the sources of crates/rspark-storage. A pipeline is a
-- graph of such queries, which crates/rspark-pipelines runs in the order of their dependencies.
--
-- The files.
--   Common            shared names, lists, integers, texts, results and association lists
--   Core.Platform     floats and the regex crate, which the program takes from outside
--   Core.Value        crates/rspark-core/src/value.rs: Value, its casts, try_cmp
--   Core.Schema       crates/rspark-core/src/schema.rs: DataType, Field, Schema
--   Core.Record       crates/rspark-core/src/record.rs: Record, RecordBatch, validate
--   Core.Expr         crates/rspark-core/src/expr.rs: Expr; Eval holds Expr::eval and apply_binary,
--                     Columns holds references and contains_aggregate
--   Sql.Plan          crates/rspark-sql/src/plan.rs: LogicalPlan and the schemas of plans
--   Sql.ShowCreate    crates/rspark-sql/src/show_create.rs: the text of SHOW CREATE TABLE
--   Sql.Session       crates/rspark-sql/src/session.rs and table_kind.rs: the catalog
--   Sql.Ast           the syntax tree of the sqlparser crate, as far as crates/rspark-sql reads it
--   Sql.Build         crates/rspark-sql/src/expr_builder.rs: build_expr; Calls holds functions, and
--                     Clauses the parts of a SELECT
--   Sql.Planner       crates/rspark-sql/src/planner.rs: plan_statement down to build_table_scan; Having
--                     holds rewrite_having
--   Sql.Parser        crates/rspark-sql/src/parser.rs: parse_sql, and plan_sql of planner.rs
--   Exec.Predicate, Exec.Project, Exec.Aggregate, Exec.Sort, Exec.Join, Exec.Physical
--                     crates/rspark-exec/src/operators.rs, one operator each
--   Exec.Distinct, Exec.Executor, Exec.Seeded, Exec.Partitioned
--                     crates/rspark-exec/src/executor.rs and partition.rs: execute in one recursion, cut
--                     into materialize_input and apply_tree, and the partitioned path
--   Storage.Csv       crates/rspark-storage/src/csv_source.rs
--   Storage.Json      crates/rspark-storage/src/json_source.rs, and the JSON rows of writer.rs
--   Storage.Writer    OutputWriter of crates/rspark-storage/src/writer.rs
--   Pipelines.Spec, Pipelines.Dag, Pipelines.Source, Pipelines.Runner
--                     spec.rs, dag.rs, source.rs and runner.rs of crates/rspark-pipelines/src
--   Cluster.Task, Cluster.Stage, Cluster.Job, Cluster.Partitioner, Cluster.State, Cluster.Master,
--   Cluster.Worker
--                     the files of the same names in crates/rspark-cluster/src
--   Tests             sample data and the theorems at concrete inputs
-- The child modules of each of these hold the proofs, and are named for what they prove. Functions keep
-- the names of the source in antt's spelling; where the source inlines a step, it has a name of its own.
--
-- How the source is rendered.
--   An error keeps its kind (Common.Res) and loses its text; a panic is a third outcome of Result.
--   A method that changes its receiver takes the old value and returns the new one.
--   The arms of apply_tree are functions of the batch they start with, and execute applies them; the
--   physical operator that the source passes along there is never read, and is left out.
--   An i64 is an integer and its arithmetic wraps at 64 bits, as in a release build; numeric_mod panics
--   where Rust's remainder does. usize counters are natural numbers, and a row count never wraps.
--   Decimal texts are written with twenty digits of fuel, which holds every 64-bit number.
--   A HashMap is an association list in insertion order. The source leaves the order of iteration open:
--   it decides which failed task's text a failed job reports, and no theorem says which one.
--   The BTreeMap of groups is a list that is kept in the order of its keys. A hash set of keys is the
--   list of its members.
--   slice::sort_by is a stable insertion sort. The standard library promises its result for a total
--   order only; keys that cannot be compared (NaN, or values of two kinds) count as equal in the source,
--   and there its result may differ from the model's, or it may panic. What is stated of the order of
--   rows assumes that the comparison is transitive on them.
--   Recursion is structural, on a plan, a syntax tree, an expression or a list, but for two loops on
--   fuel: the rounds of PipelineDag::layers, which get one for each node and one more, and the polls
--   of a live flow, which run until one fails.
--   Recursive types that hold lists of themselves are blocks of types. A statement's Debug text, which
--   EXPLAIN prints, is a parameter.
--   petgraph is rendered as far as it is read: numbered nodes and a list of edges. The order in which
--   the map of a layer's nodes is iterated is a parameter.
--   The ids that Uuid::new_v4 draws and the clock are arguments; a theorem that needs new ids says so.
--   A method of the cluster state is one step, and so is an operation of the master, though the source
--   has a lock for each table only and none for an operation: interleavings within operations are not
--   modelled. In the source submit_job queues the tasks before it inserts their job, so a worker can
--   take and complete a task whose job is not yet in the table.
--
-- What is outside. Floats and regex are the fields of Core.Platform, the contract of PartialOrd is
-- OrdersFloats, and the data sources are the field of ExecutionContext, with the contract SourcesTyped,
-- which the CSV source meets over a parameter for the csv crate and the file system. For what is written
-- as CSV, the contract of that crate is ReadsBack, and that of the floats' texts is FloatTexts.
-- The parser of the sqlparser crate is a parameter of Sql.Parser, toposort one of Pipelines.Dag, with the
-- contract FindsCycles, and what serde_json reads is the data of Storage.Json, with the contract
-- KeepsIntegers. Files, Kafka and the writes of a pipeline's destinations are the records Host and
-- Runner, over a world that each write may change.
-- Not modelled: the bridge to arrow, the S3 sources and writers, the text table of the
-- writer, the YAML reader, and the HTTP API, command line, dashboard, ingest service and Kubernetes
-- operator, which are mostly input and output.
pub mod Common
pub mod Core
pub mod Sql
pub mod Exec
pub mod Cluster
pub mod Storage
pub mod Pipelines
pub mod Tests
