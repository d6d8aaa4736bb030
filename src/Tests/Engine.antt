-- ===== src/Tests/Engine.antt =====
-- The executor, its operators and batches at concrete inputs.
use mathlib.Core.List.{Perm, filter_map}
use rust_spark.Common.{
  reverse_ordering, ℕ, ◌≤◌, ◌≡◌, refl, ◌↔◌, true, false, ◌||◌, some, none, List, [], ◌∷◌, ◌++◌, pos,
  String, ok, err, Error, Result, length, All,
}
use rust_spark.Core.Value.{Value, is_null}
use rust_spark.Core.Schema.{DataType}
use rust_spark.Core.Record.{Record, RecordBatch, from_records, push, extend, validate}
use rust_spark.Core.Record.Valid.{IsTyped, IsWellFormed}
use rust_spark.Core.Expr.{Expr, Literal, BinaryOp, AggregateFn}
use rust_spark.Core.Expr.Eval.{eval}
use rust_spark.Sql.Plan.{JoinType}
use rust_spark.Exec.Executor.{execute}
use rust_spark.Exec.Executor.Typed.{execute-IsTyped}
use rust_spark.Exec.Sort.{sort_batch, index_rows, keys_cmp}
use rust_spark.Exec.Sort.Laws.{sort_batch-perm}
use rust_spark.Exec.Aggregate.{Accumulator, Groups, group_rows, find_group}
use rust_spark.Exec.Aggregate.Groups.{group_only, group_rows-only}
use rust_spark.Exec.Join.{Pairs, join_batches, join_schema}
use rust_spark.Exec.Join.Meaning.{concat_map, left_rows, join_batches-total}
use rust_spark.Exec.Distinct.{distinct_rows, seen_before}
use rust_spark.Exec.Distinct.Laws.{keys, IsSublist, FreshKeys, distinct_rows_lem}
use rust_spark.Exec.Partitioned.{execute_plan}
use rust_spark.Exec.Partitioned.Laws.{execute_plan-rejects}
use rust_spark.Sql.Plan.{collect_table_refs}
use rust_spark.Sql.Plan.Refs.{NoRepeat, listed, scans, collect_table_refs_lem}
use rust_spark.Sql.Plan.{LogicalPlan, output_schema}
use rust_spark.Cluster.Task.{Task, TaskStatus}
use rust_spark.Cluster.State.{WorkerStatus}
use rust_spark.Cluster.Worker.{Worker, execute_task}
use rust_spark.Tests.Samples.{
  whole, people, ann, bob, cid, age, by_age, table, shop, shop-SourcesTyped, query,
}

abbrev answer : RecordBatch whole
answer = record { schema = people; records = cid ∷ ann ∷ [] }

run : execute shop query ≡ ok answer
unfolding execute from_records rust_spark.Exec.Executor.apply_scan
    rust_spark.Exec.Executor.apply_filter rust_spark.Exec.Executor.apply_sort
    rust_spark.Exec.Executor.apply_limit rust_spark.Exec.Predicate.eval_predicate
    rust_spark.Exec.Predicate.contains_aggregate eval rust_spark.Core.Expr.Eval.eval_column
    rust_spark.Core.Schema.index_of rust_spark.Core.Record.get_or_null rust_spark.Core.Expr.to_value
    rust_spark.Core.Expr.Eval.apply_binary rust_spark.Core.Value.try_cmp sort_batch index_rows
    filter_map rust_spark.Exec.Sort.sort_by rust_spark.Exec.Sort.insert_by
    rust_spark.Exec.Sort.keys_cmp rust_spark.Exec.Sort.limit_batch
run = refl

execute-IsTyped_example : IsTyped people answer
unfolding rust_spark.Sql.Plan.output_schema
execute-IsTyped_example = execute-IsTyped shop shop-SourcesTyped query answer run

abbrev in_order : RecordBatch whole
in_order = record { schema = people; records = bob ∷ cid ∷ ann ∷ [] }

sorts : sort_batch table by_age ≡ ok in_order
unfolding sort_batch index_rows eval rust_spark.Core.Expr.Eval.eval_column
    rust_spark.Core.Schema.index_of from_records filter_map rust_spark.Exec.Sort.sort_by
    rust_spark.Exec.Sort.insert_by keys_cmp rust_spark.Core.Value.try_cmp
    rust_spark.Core.Record.get_or_null
sorts = refl

sort_batch-perm_example : Perm in_order.records table.records × (in_order.schema ≡ table.schema)
sort_batch-perm_example = sort_batch-perm by_age table {sorted = in_order} sorts

-- The rows by their place, with their keys.
abbrev by_place : List (ℕ × List (Value whole))
by_place =
    (0, Value.int64 (pos 41) ∷ []) ∷ (1, Value.null ∷ []) ∷ (2, Value.int64 (pos 7) ∷ []) ∷ []

abbrev name : Expr whole
name = Expr.column "name"

abbrev counts : List (Expr whole)
counts = Expr.aggregate AggregateFn.count age false ∷ []

abbrev three : List (Record whole)
three = ann ∷ bob ∷ ann ∷ []

-- COUNT(age) grouped by name.
abbrev grouped : Groups whole
grouped =
    (
      "ann" ∷ [],
      record {
        group_values = Value.string "ann" ∷ [];
        accumulators = Accumulator.count (pos 2) ∷ [];
      },
    )
    ∷ (
      "bob" ∷ [],
      record {
        group_values = Value.string "bob" ∷ [];
        accumulators = Accumulator.count (pos 0) ∷ [];
      },
    )
    ∷ []

groups : group_rows (name ∷ []) counts table [] three ≡ ok grouped
unfolding group_rows rust_spark.Exec.Aggregate.group_row rust_spark.Exec.Aggregate.eval_all eval
    rust_spark.Core.Expr.Eval.eval_column rust_spark.Core.Schema.index_of
    rust_spark.Exec.Aggregate.grow rust_spark.Exec.Aggregate.update_all find_group
    rust_spark.Exec.Aggregate.put_group rust_spark.Core.Value.cast_to_string
    rust_spark.Core.Record.get_or_null rust_spark.Exec.Aggregate.update
    rust_spark.Exec.Aggregate.accumulator_for rust_spark.Common.add_i64
groups = refl

group_rows-only_example :
    group_only (name ∷ []) counts table ("ann" ∷ []) (find_group ("ann" ∷ []) []) three
    ≡ ok (find_group ("ann" ∷ []) grouped)
group_rows-only_example =
    group_rows-only (name ∷ []) counts table ("ann" ∷ []) [] three grouped groups

-- Ages with a city, which the join keeps.
abbrev cities : RecordBatch whole
cities = record {
  schema = record {
    fields =
        record { name = "age"; data_type = DataType.int64; nullable = true }
        ∷ record { name = "city"; data_type = DataType.string; nullable = true }
        ∷ [];
  };
  records = record { values = Value.int64 (pos 7) ∷ Value.string "Ulm" ∷ [] } ∷ [];
}

abbrev on_age : Pairs
on_age = ("age", "age") ∷ []

table_fits : IsWellFormed table
unfolding is_null
table_fits =
    ((λ h. h, (λ h. refl, tt)), ((λ h. h, (λ h. refl, tt)), ((λ h. h, (λ h. refl, tt)), tt)))

join_batches-total_example :
    join_batches table cities on_age JoinType.left
    ≡ ok (record {
      schema = join_schema people cities.schema on_age;
      records =
          concat_map
            (left_rows people cities.schema on_age JoinType.left cities.records)
            table.records;
    })
unfolding rust_spark.Sql.Plan.fields_not_joined
join_batches-total_example =
    join_batches-total table cities on_age JoinType.left table_fits (refl, tt) refl

-- Only the age of cid has a city.
joined :
    concat_map (left_rows people cities.schema on_age JoinType.left cities.records) table.records
    ≡ record { values = Value.string "ann" ∷ Value.int64 (pos 41) ∷ Value.null ∷ [] }
      ∷ record { values = Value.string "bob" ∷ Value.null ∷ Value.null ∷ [] }
      ∷ record { values = Value.string "cid" ∷ Value.int64 (pos 7) ∷ Value.string "Ulm" ∷ [] }
      ∷ []
unfolding rust_spark.Sql.Plan.fields_not_joined rust_spark.Core.Schema.index_of
    rust_spark.Core.Record.get_or_null rust_spark.Core.Value.eq_value
joined = refl

distinct_rows_lem_example :
    IsSublist (distinct_rows [] three) three
    × FreshKeys [] (distinct_rows [] three)
    × ((seen_before "bob|null" [] || seen_before "bob|null" (keys (distinct_rows [] three)))
        ≡ (seen_before "bob|null" [] || seen_before "bob|null" (keys three)))
distinct_rows_lem_example = distinct_rows_lem [] three "bob|null"

execute_plan-rejects_example : execute_plan shop query ≡ err Error.execution
execute_plan-rejects_example = execute_plan-rejects shop query refl

scanned : shop.scan_source "csv" "people.csv" people ≡ ok table
unfolding from_records
scanned = refl

collect_table_refs_lem_example :
    NoRepeat (collect_table_refs query)
    × ((name : String) → listed name (collect_table_refs query) ≡ scans name query)
collect_table_refs_lem_example = collect_table_refs_lem query

abbrev hired : Worker whole
hired = record {
  info = record {
    id = "w";
    address = "localhost";
    last_heartbeat = 0;
    cores = 4;
    memory_mb = 512;
    status = WorkerStatus.alive;
    running_tasks = [];
  };
  context = shop;
}

abbrev chore : Task
chore = record {
  id = "t";
  stage_id = "s";
  job_id = "j";
  partition_label = "scan[people.csv]:p0";
  sql = "SELECT 1";
  status = TaskStatus.assigned;
  assigned_worker = some "w";
  started_at = none;
  completed_at = none;
  result_rows = none;
  error = none;
}

worked : execute_task (λ sql. ok query) hired chore ≡ ok answer
unfolding execute_task
worked = run
