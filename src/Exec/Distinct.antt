-- ===== src/Exec/Distinct.antt =====
-- crates/rspark-exec/src/executor.rs: the Distinct arm of `apply_tree`, with its hash set of keys.
pub mod Laws
use rust_spark.Common.{
  Bool, true, false, String, List, [], ◌∷◌, any, str_eq, map, Result, if◌then◌else◌, ◌<>◌,
}
use rust_spark.Core.Platform.{Platform}
use rust_spark.Core.Value.{Value, cast_to_string}
use rust_spark.Core.Schema.{Schema}
use rust_spark.Core.Record.{Record, RecordBatch, from_records}

-- `join("|")`
unfoldable pub join_bars : List String → String
join_bars [] = ""
join_bars (s ∷ []) = s
join_bars (s ∷ (t ∷ ts)) = s <> "|" <> join_bars (t ∷ ts)

abbrev pub seen_before : String → List String → Bool
seen_before k seen = any (λ s. str_eq s k) seen

module _ {p : Platform} where
  unfoldable pub row_key : Record p → String
  row_key r = join_bars (map cast_to_string r.values)

  -- `if seen.insert(key) { new_records.push(record.clone()) }`
  unfoldable pub distinct_rows : List String → List (Record p) → List (Record p)
  distinct_rows seen [] = []
  distinct_rows seen (r ∷ rs) =
      let skipped = distinct_rows seen rs in
      let kept = distinct_rows (row_key r ∷ seen) rs in
      if seen_before (row_key r) seen then skipped else r ∷ kept

  unfoldable pub apply_distinct : Schema → RecordBatch p → Result (RecordBatch p)
  apply_distinct schema batch = from_records schema (distinct_rows [] batch.records)
