-- ===== src/Exec/Join.antt =====
-- crates/rspark-exec/src/operators.rs: `join_batches`, a nested loop over two batches.
pub mod Laws
pub mod Meaning
use rust_spark.Common.{
  ℕ, Bool, true, false, not, ◌&&◌, Option, none, some, String, List, [], ◌∷◌, ◌++◌, any, str_eq,
  Error, Result, ok, err, if◌then◌else◌,
}
use rust_spark.Core.Platform.{Platform}
use rust_spark.Core.Value.{Value, eq_value}
use rust_spark.Core.Schema.{Field, Schema, index_of}
use rust_spark.Core.Record.{Record, RecordBatch, get_or_null, from_records}
use rust_spark.Sql.Plan.{JoinType, fields_not_joined}

abbrev pub Pairs : Type 0
Pairs = List (String × String)

-- `pairs.iter().any(|(ln, _)| ln == &f.name)`
abbrev pub is_joined : Pairs → Field → Bool
is_joined pairs f = any (λ pair. str_eq pair.0 f.name) pairs

unfoldable pub join_schema : Schema → Schema → Pairs → Schema
join_schema l r pairs = record { fields = l.fields ++ fields_not_joined pairs r.fields }

abbrev pub is_outer : JoinType → Bool
is_outer JoinType.left = true
is_outer _ = false

abbrev pub is_rejected : JoinType → Bool
is_rejected JoinType.right = true
is_rejected JoinType.full = true
is_rejected _ = false

module _ {p : Platform} where
  both_columns : Option ℕ → Option ℕ → Record p → Record p → Bool
  both_columns (some li) (some ri) l r = eq_value (get_or_null l li) (get_or_null r ri)
  both_columns _ _ l r = true

  -- One pair of columns; a name that does not resolve is passed over.
  unfoldable pub pair_matches : Schema → Schema → String × String → Record p → Record p → Bool
  unfolding both_columns
  pair_matches ls rs (l_name, r_name) l r =
      both_columns (index_of ls l_name) (index_of rs r_name) l r

  unfoldable pub rows_match : Schema → Schema → Pairs → Record p → Record p → Bool
  rows_match ls rs [] l r = true
  rows_match ls rs (pair ∷ pairs) l r = pair_matches ls rs pair l r && rows_match ls rs pairs l r

  pub column_value : Schema → Record p → Field → List (Value p)
  column_value rs r f = elim (index_of rs f.name) [ none ↦ [] | some idx ↦ get_or_null r idx ∷ [] ]

  -- The values of the right row under the fields that the join keeps.
  unfoldable pub kept_values : Schema → Pairs → List Field → Record p → List (Value p)
  unfolding column_value
  kept_values rs pairs [] r = []
  kept_values rs pairs (f ∷ fs) r =
      let rest = kept_values rs pairs fs r in
      if is_joined pairs f then rest else column_value rs r f ++ rest

  unfoldable pub padding : Pairs → List Field → List (Value p)
  padding pairs [] = []
  padding pairs (f ∷ fs) =
      let rest = padding pairs fs in if is_joined pairs f then rest else Value.null ∷ rest

  unfoldable pub joined_row : Schema → Pairs → Record p → Record p → Record p
  joined_row rs pairs l r = record { values = l.values ++ kept_values rs pairs rs.fields r }

  -- A left row with no right match: the right-hand fields are null.
  unfoldable pub padded_row : Schema → Pairs → Record p → Record p
  padded_row rs pairs l = record { values = l.values ++ padding pairs rs.fields }

  module _ (ls rs : Schema) (pairs : Pairs) where
    -- The inner loop: the joined rows of the matching right rows.
    unfoldable pub join_matches : Record p → List (Record p) → List (Record p)
    join_matches l [] = []
    join_matches l (r ∷ rights) =
        let rest = join_matches l rights in
        if rows_match ls rs pairs l r then joined_row rs pairs l r ∷ rest else rest

    -- The flag `matched` after the inner loop.
    unfoldable pub has_match : Record p → List (Record p) → Bool
    has_match l rights = any (λ r. rows_match ls rs pairs l r) rights

    unfoldable pub join_one : JoinType → List (Record p) → Record p → List (Record p)
    unfolding join_matches has_match
    join_one how rights l =
        if not (has_match l rights) && is_outer how
        then join_matches l rights ++ padded_row rs pairs l ∷ []
        else join_matches l rights

    unfoldable pub join_rows : JoinType → List (Record p) → List (Record p) → List (Record p)
    unfolding join_one
    join_rows how rights [] = []
    join_rows how rights (l ∷ lefts) = join_one how rights l ++ join_rows how rights lefts

  unfoldable pub join_batches :
      RecordBatch p → RecordBatch p → Pairs → JoinType → Result (RecordBatch p)
  unfolding join_rows join_schema
  join_batches left' right' pairs how =
      if is_rejected how
      then err Error.execution
      else from_records (join_schema left'.schema right'.schema pairs)
          (join_rows left'.schema right'.schema pairs how right'.records left'.records)
