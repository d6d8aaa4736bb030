-- ===== src/Tests/Samples.antt =====
-- Sample data for the tests: a platform whose floats are integers, and a table of three rows.
use rust_spark.Common.{
  false, true, ◌/◌, ap, true, none, some, String, List, [], ◌∷◌, ℤ, pos, pos_part, eq_ℤ, compare_ℤ,
  compare_ℤ_swap, add_i64, sub_i64, mul_i64, parse_i64, show_ℤ, str_eq,
}
use rust_spark.Core.Platform.{Platform, OrdersFloats}
use rust_spark.Core.Value.{Value}
use rust_spark.Core.Schema.{Schema, DataType}
use rust_spark.Core.Record.{Record, RecordBatch, from_records}
use rust_spark.Core.Expr.{Expr, Literal, BinaryOp}
use rust_spark.Sql.Plan.{LogicalPlan, SortExpr}
use rust_spark.Exec.Executor.{ExecutionContext}
use rust_spark.Exec.Executor.Typed.{SourcesTyped, Gives-from_records}

abbrev pub whole : Platform
whole = record {
  F32 = ℤ;
  F64 = ℤ;
  eq32 = eq_ℤ;
  eq64 = eq_ℤ;
  partial_cmp32 = λ a b. some (compare_ℤ a b);
  partial_cmp64 = λ a b. some (compare_ℤ a b);
  widen = λ a. a;
  of_int = λ a. a;
  to_i64_of_32 = λ a. a;
  to_i64_of_64 = λ a. a;
  zero32 = pos 0;
  zero64 = pos 0;
  one64 = pos 1;
  add64 = add_i64;
  sub64 = sub_i64;
  mul64 = mul_i64;
  div64 = λ a b. pos (pos_part a / pos_part b);
  parse32 = parse_i64;
  parse64 = parse_i64;
  show32 = show_ℤ;
  show64 = show_ℤ;
  escape = λ c. c;
  is_match = λ pattern text. some (str_eq pattern text);
}

pub whole-OrdersFloats : OrdersFloats whole
whole-OrdersFloats = record {
  swap32 = λ a b. ap some (compare_ℤ_swap a b);
  swap64 = λ a b. ap some (compare_ℤ_swap a b);
}

abbrev pub people : Schema
people = record {
  fields =
      record { name = "name"; data_type = DataType.string; nullable = false }
      ∷ record { name = "age"; data_type = DataType.int64; nullable = true }
      ∷ [];
}

abbrev pub person : String → Value whole → Record whole
person name age = record { values = Value.string name ∷ age ∷ [] }

abbrev pub ann : Record whole
ann = person "ann" (Value.int64 (pos 41))

abbrev pub bob : Record whole
bob = person "bob" Value.null

abbrev pub cid : Record whole
cid = person "cid" (Value.int64 (pos 7))

abbrev pub table : RecordBatch whole
table = record { schema = people; records = ann ∷ bob ∷ cid ∷ [] }

-- A source that reads its rows under the schema it is asked for.
abbrev pub shop : ExecutionContext whole
shop = record { scan_source = λ source path s. from_records s table.records }

pub shop-SourcesTyped : SourcesTyped shop
shop-SourcesTyped source path s = Gives-from_records s table.records

abbrev pub age : Expr whole
age = Expr.column "age"

abbrev pub by_age : List (SortExpr whole)
by_age = record { expr = age; ascending = true } ∷ []

abbrev pub scan_people : LogicalPlan whole
scan_people = LogicalPlan.scan "people" "people.csv" "csv" none none people

-- SELECT * FROM people WHERE age < 50 ORDER BY age LIMIT 5
abbrev pub query : LogicalPlan whole
query =
    LogicalPlan.limit
      (LogicalPlan.sort
        (LogicalPlan.filter scan_people
          (Expr.binary BinaryOp.lt age (Expr.literal (Literal.int (pos 50)))) people)
        by_age people)
      5 people
