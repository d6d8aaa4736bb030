-- ===== src/Sql/Parser.antt =====
-- crates/rspark-sql/src/parser.rs, and `plan_sql` of planner.rs. `Parser::parse_sql` of the `sqlparser`
-- crate is a parameter: `none` is a syntax error.
use Prim.Native.Char.{code}
use rust_spark.Common.{
  Option, none, some, String, List, [], ◌∷◌, str_eq, trim, ◌==◌, Error, Result, ok, err, ◌>>=◌,
  if◌then◌else◌,
}
use rust_spark.Core.Platform.{Platform}
use rust_spark.Sql.Ast.{Statement}
use rust_spark.Sql.Plan.{LogicalPlan}
use rust_spark.Sql.ShowCreate.{Catalog}
use rust_spark.Sql.Planner.{plan_last}

-- `strip_suffix(';')`, or the text as it is: one semicolon at the end is taken off.
unfoldable pub normalize_trailing_semicolon : String → String
normalize_trailing_semicolon String.[] = ""
normalize_trailing_semicolon (String.◌∷◌ c String.[]) =
    if code c == b';' then "" else String.◌∷◌ c ""
normalize_trailing_semicolon (String.◌∷◌ c (String.◌∷◌ d s)) =
    String.◌∷◌ c (normalize_trailing_semicolon (String.◌∷◌ d s))

some_parsed : Option (List Statement) → Result (List Statement)
some_parsed none = err Error.sql
some_parsed (some []) = err Error.sql
some_parsed (some (s ∷ ss)) = ok (s ∷ ss)

unfoldable pub parse_sql : (String → Option (List Statement)) → String → Result (List Statement)
unfolding normalize_trailing_semicolon some_parsed
parse_sql parser sql =
    let trimmed = trim sql in
    if str_eq trimmed ""
    then err Error.sql
    else some_parsed (parser (normalize_trailing_semicolon trimmed))

unfoldable pub plan_sql :
    {p : Platform}
    → (String → Option (List Statement))
    → (LogicalPlan p → String)
    → Catalog
    → String
    → Result (LogicalPlan p)
unfolding parse_sql
plan_sql parser debug catalog sql = do
  statements ← parse_sql parser sql
  plan_last catalog debug none statements
