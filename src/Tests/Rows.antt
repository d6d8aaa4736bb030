-- ===== src/Tests/Rows.antt =====
-- Rows, batches, values and expressions at concrete inputs.
use rust_spark.Sql.ShowCreate.{quote_ident}
use rust_spark.Sql.ShowCreate.Quoting.{read_ident, read_ident-quote_ident}
use rust_spark.Common.{some, ◌<>◌, ◌≡◌, refl, ◌↔◌, [], ◌∷◌, ◌++◌, pos, ok, All}
use rust_spark.Core.Value.{Value, is_null}
use rust_spark.Core.Record.{Record, RecordBatch, from_records, push, extend, validate, new_batch}
use rust_spark.Core.Record.Valid.{
  IsTyped, IsWellFormed, Fits, validate_iff, from_records-IsTyped, extend-IsTyped,
}
use rust_spark.Core.Expr.{Expr, Literal, BinaryOp}
use rust_spark.Core.Expr.Eval.{eval, apply_binary, numeric_op}
use rust_spark.Core.Expr.Columns.{references}
use rust_spark.Core.Expr.Frame.{SameColumn, eval-references}
use rust_spark.Core.Schema.{DataType, type_of_name}
use rust_spark.Sql.Session.{SessionState, TableKind, new_session, register_with_kind}
use rust_spark.Sql.Session.Lookup.{answers, answers-register_with_kind}
use rust_spark.Tests.Samples.{whole, people, person, ann, bob, cid, age, table}

validate_iff_example : (validate bob people ≡ ok tt) ↔ Fits people bob
validate_iff_example = validate_iff bob people

from_table : from_records people table.records ≡ ok table
unfolding from_records
from_table = refl

table-IsTyped : IsTyped people table
table-IsTyped = (from_records-IsTyped people table.records {b = table} from_table).0

abbrev dan : Record whole
dan = person "dan" (Value.int64 (pos 19))

abbrev four : RecordBatch whole
four = record { schema = people; records = ann ∷ bob ∷ cid ∷ dan ∷ [] }

pushed : push table dan ≡ ok four
unfolding push
pushed = refl

abbrev only_dan : RecordBatch whole
only_dan = record { schema = people; records = dan ∷ [] }

dan_fits : IsWellFormed only_dan
unfolding is_null
dan_fits = ((λ h. h, (λ h. refl, tt)), tt)

extended : extend table only_dan ≡ ok four
unfolding extend rust_spark.Core.Schema.eq_schema
extended = refl

extend-IsTyped_example : IsTyped people four × (four.records ≡ table.records ++ only_dan.records)
extend-IsTyped_example = extend-IsTyped people table only_dan four table-IsTyped dan_fits extended

abbrev older : Expr whole
older = Expr.binary BinaryOp.gt age (Expr.literal (Literal.int (pos 40)))

same_age : All (SameColumn ann (person "eve" (Value.int64 (pos 41))) table) (references older)
unfolding references rust_spark.Core.Expr.Columns.collect_columns
    rust_spark.Core.Expr.Eval.eval_column rust_spark.Core.Record.get_or_null
    rust_spark.Core.Schema.index_of
same_age = (refl, tt)

eval-references_example :
    eval older ann table ≡ eval older (person "eve" (Value.int64 (pos 41))) table
eval-references_example =
    eval-references ann (person "eve" (Value.int64 (pos 41))) table older same_age

abbrev listed_people : SessionState
listed_people = register_with_kind "people" "people.csv" "csv" people TableKind.batch new_session

answers-register_with_kind_example :
    answers listed_people "people" ≡ (ok people, (ok ("people.csv", "csv"), ok TableKind.batch))
answers-register_with_kind_example =
    answers-register_with_kind "people" "people.csv" "csv" people TableKind.batch new_session
      "people"

read_ident-quote_ident_example :
    read_ident (quote_ident "with \"quote" <> " BIGINT") ≡ some ("with \"quote", " BIGINT")
read_ident-quote_ident_example = read_ident-quote_ident "with \"quote" "BIGINT"
