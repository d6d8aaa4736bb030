-- ===== src/Pipelines/Source.antt =====
-- crates/rspark-pipelines/src/source.rs and the `OneShotSource` of runner.rs: where a flow's rows come
-- from. Files, directories and the Kafka consumer are the record `Host`.
use rust_spark.Common.{
  ℕ, zero, suc, not, Option, none, some, String, str_eq, List, [], ◌∷◌, ◌++◌, map, any, find,
  is_empty, Error, Result, ok, err, panic, ◌>>=◌, if◌then◌else◌,
}
use rust_spark.Common.Dict
use rust_spark.Common.Dict.{Dict}
use rust_spark.Core.Platform.{Platform}
use rust_spark.Core.Value.{Value}
use rust_spark.Core.Schema.{DataType, new_field, empty_schema}
use rust_spark.Core.Record.{RecordBatch, new_batch, from_records}
use rust_spark.Storage.Csv.{CsvText}
use rust_spark.Storage.Csv
use rust_spark.Storage.Json.{Json, JsonNumber, Stream, scan_json}
use rust_spark.Pipelines.Spec.{SourceSpec}

-- What one `recv` of the consumer comes to: the time is up, an error, a message without a readable
-- object, or an object.
pub data Message (p : Platform) : Type 0 where
  timeout failed skipped : Message p
  object : Dict (Json p) → Message p

pub record Host (p : Platform) : Type 0 where
  -- The regular files of a directory, sorted, and the name of a file.
  pub list_files : String → Result (List String)
  pub file_name : String → String
  -- The objects on the lines of a file.
  pub read_objects : String → Result (List (Dict (Json p)))
  pub csv_files : String → Result CsvText
  pub json_files : String → Result (Stream p)
  pub kafka_connect : (topic brokers group_id : String) → Result (Unit {0})
  pub messages : (topic : String) → List (Message p)
  pub default_bucket : Option String

pub data StreamingSource (p : Platform) : Type 0 where
  file_tail : (dir : String) → (seen : List String) → StreamingSource p
  one_shot : (inner : Option (RecordBatch p)) → StreamingSource p
  kafka : (topic : String) → StreamingSource p
  null : StreamingSource p

module _ {p : Platform} where
  number_value : JsonNumber p → Value p
  number_value n = elim n.as_i64 [
    | some i ↦ Value.int64 i
    | none ↦ elim n.as_f64 [ some f ↦ Value.float64 f | none ↦ Value.null ]
  ]

  unfoldable pub json_value_to_rspark : Json p → Value p
  unfolding number_value
  json_value_to_rspark Json.null = Value.null
  json_value_to_rspark (Json.bool b) = Value.boolean b
  json_value_to_rspark (Json.number n) = number_value n
  json_value_to_rspark (Json.string s) = Value.string s
  json_value_to_rspark (Json.compound text) = Value.string text

  add_keys : Dict (Json p) → List String → List String
  add_keys [] keys = keys
  add_keys ((k, v) ∷ m) keys =
      add_keys m (if any (λ j. str_eq j k) keys then keys else keys ++ k ∷ [])

  unfoldable pub key_order : List (Dict (Json p)) → List String → List String
  unfolding add_keys
  key_order [] keys = keys
  key_order (row ∷ rows) keys = key_order rows (add_keys row keys)

  value_or_null : Option (Json p) → Value p
  unfolding json_value_to_rspark
  value_or_null none = Value.null
  value_or_null (some v) = json_value_to_rspark v

  -- Every column is a text column, whatever its values are.
  unfoldable pub ndjson_rows_to_batch : List (Dict (Json p)) → Result (RecordBatch p)
  unfolding key_order value_or_null
  ndjson_rows_to_batch rows =
      let keys = key_order rows [] in
      from_records (record { fields = map (λ k. new_field k DataType.string) keys })
        (map
          (λ (row : Dict (Json p)). record {
            values = map (λ k. value_or_null (Dict.get k row)) keys;
          })
          rows)

  unfoldable pub empty_batch : RecordBatch p
  empty_batch = new_batch empty_schema

  unfoldable pub next_unseen : Host p → String → List String → Result (Option String)
  next_unseen host dir seen = do
    paths ← host.list_files dir
    ok (find (λ path. not (any (λ s. str_eq s (host.file_name path)) seen)) paths)

  -- A file that is read is seen; one that cannot be read is not.
  poll_path : Host p → List String → Option String → Result (RecordBatch p × List String)
  unfolding ndjson_rows_to_batch empty_batch
  poll_path host seen none = ok (empty_batch, seen)
  poll_path host seen (some path) = do
    rows ← host.read_objects path
    batch ← ndjson_rows_to_batch rows
    ok (batch, host.file_name path ∷ seen)

  -- `FileTailSource::poll_batch`: the batch, and the names seen from then on.
  unfoldable pub poll_tail : Host p → String → List String → Result (RecordBatch p × List String)
  unfolding next_unseen poll_path
  poll_tail host dir seen = do path ← next_unseen host dir seen; poll_path host seen path

  -- `KafkaSource::poll_batch`: at most so many messages, until one fails or is late.
  unfoldable pub drain : ℕ → List (Message p) → List (Dict (Json p))
  drain zero ms = []
  drain (suc n) [] = []
  drain (suc n) (Message.timeout ∷ ms) = []
  drain (suc n) (Message.failed ∷ ms) = []
  drain (suc n) (Message.skipped ∷ ms) = drain n ms
  drain (suc n) (Message.object row ∷ ms) = row ∷ drain n ms

  unfoldable pub poll_kafka : List (Message p) → Result (RecordBatch p)
  unfolding drain ndjson_rows_to_batch empty_batch
  poll_kafka ms =
      let rows = drain 100 ms in if is_empty rows then ok empty_batch else ndjson_rows_to_batch rows

  -- `self.inner.take().unwrap_or_else(…)`
  unfoldable pub take_batch : Option (RecordBatch p) → RecordBatch p
  unfolding empty_batch
  take_batch none = empty_batch
  take_batch (some batch) = batch

  -- `poll_batch`: the batch, and the source as it is from then on.
  unfoldable pub poll_batch :
      Host p → StreamingSource p → Result (RecordBatch p × StreamingSource p)
  unfolding poll_tail poll_kafka take_batch empty_batch
  poll_batch host (StreamingSource.file_tail dir seen) = do
    polled ← poll_tail host dir seen
    ok (polled.0, StreamingSource.file_tail dir polled.1)
  poll_batch host (StreamingSource.one_shot inner) =
      ok (take_batch inner, StreamingSource.one_shot none)
  poll_batch host (StreamingSource.kafka topic) = do
    batch ← poll_kafka (host.messages topic)
    ok (batch, StreamingSource.kafka topic)
  poll_batch host StreamingSource.null = ok (empty_batch, StreamingSource.null)

  -- `.ok()`, which lets a panic through.
  unfoldable pub ok_of : Result (RecordBatch p) → Result (Option (RecordBatch p))
  ok_of (ok batch) = ok (some batch)
  ok_of (err e) = ok none
  ok_of panic = panic

  -- `build_source` of runner.rs, with `OneShotSource::csv` and `OneShotSource::json`.
  unfoldable pub build_source : Host p → SourceSpec → Result (StreamingSource p)
  unfolding ok_of
  build_source host (SourceSpec.tail_dir dir) = ok (StreamingSource.file_tail dir [])
  build_source host (SourceSpec.csv path) = do
    batch ← ok_of (Csv.scan host.csv_files path none)
    ok (StreamingSource.one_shot batch)
  build_source host (SourceSpec.json path) = do
    batch ← ok_of (host.json_files path >>= λ stream. scan_json none stream)
    ok (StreamingSource.one_shot batch)
  build_source host (SourceSpec.s3 key bucket) = err Error.execution
  build_source host (SourceSpec.kafka topic brokers group_id) = do
    connected ← host.kafka_connect topic brokers group_id
    ok (StreamingSource.kafka topic)
  build_source host SourceSpec.sql = ok StreamingSource.null
