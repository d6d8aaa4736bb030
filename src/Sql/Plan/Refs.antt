-- ===== src/Sql/Plan/Refs.antt =====
-- The tables that `collect_table_refs` reports.
use rust_spark.Common.{
  ◌≡◌, refl, true, false, Bool, ◌||◌, String, List, [], ◌∷◌, ◌++◌, any, str_eq, eq_iff, arith,
  Bool-cases, inl, inr,
}
use rust_spark.Core.Platform.{Platform}
use rust_spark.Sql.Plan.{
  LogicalPlan, LogicalPlans, push_new, collect_table_refs_into, collect_all_refs,
  collect_table_refs,
}

abbrev pub listed : String → List String → Bool
listed name names = any (λ t. str_eq t name) names

-- The plan scans a table of that name.
unfoldable mutual
  pub scans : {p : Platform} → String → LogicalPlan p → Bool
  scans name (LogicalPlan.scan table _ _ _ _ _) = str_eq table name
  scans name (LogicalPlan.project x _ _) = scans name x
  scans name (LogicalPlan.filter x _ _) = scans name x
  scans name (LogicalPlan.aggregate x _ _ _) = scans name x
  scans name (LogicalPlan.sort x _ _) = scans name x
  scans name (LogicalPlan.limit x _ _) = scans name x
  scans name (LogicalPlan.distinct x _) = scans name x
  scans name (LogicalPlan.join l r _ _ _) = scans name l || scans name r
  scans name (LogicalPlan.union xs _) = scans_any name xs
  scans name LogicalPlan.empty = false

  pub scans_any : {p : Platform} → String → LogicalPlans p → Bool
  scans_any name LogicalPlans.nil = false
  scans_any name (LogicalPlans.cons x xs) = scans name x || scans_any name xs

listed-snoc :
    (x y : String) (out : List String) → listed x (out ++ y ∷ []) ≡ (listed x out || str_eq y x)
listed-snoc x y [] = ground arith
listed-snoc x y (z ∷ out) = ground (arith, listed-snoc x y out)

listed_same :
    (x y : String) (out : List String)
    → str_eq y x ≡ true
    → listed y out ≡ true
    → listed x out ≡ true
listed_same x y out e h = rw (← (eq_iff y x).0 e) h

listed-push_new :
    (x y : String) (out : List String) → listed x (push_new y out) ≡ (listed x out || str_eq y x)
unfolding push_new
listed-push_new x y out = ground (arith, listed-snoc x y out, listed_same x y out)

mutual
  unfolding collect_table_refs_into scans

  listed-refs_into :
      {p : Platform} (plan : LogicalPlan p) (out : List String) (name : String)
      → listed name (collect_table_refs_into plan out) ≡ (listed name out || scans name plan)
  listed-refs_into (LogicalPlan.scan table _ _ _ _ _) out name = listed-push_new name table out
  listed-refs_into (LogicalPlan.project x _ _) out name = listed-refs_into x out name
  listed-refs_into (LogicalPlan.filter x _ _) out name = listed-refs_into x out name
  listed-refs_into (LogicalPlan.aggregate x _ _ _) out name = listed-refs_into x out name
  listed-refs_into (LogicalPlan.sort x _ _) out name = listed-refs_into x out name
  listed-refs_into (LogicalPlan.limit x _ _) out name = listed-refs_into x out name
  listed-refs_into (LogicalPlan.distinct x _) out name = listed-refs_into x out name
  listed-refs_into (LogicalPlan.join l r _ _ _) out name =
      ground (
        arith,
        listed-refs_into l out name,
        listed-refs_into r (collect_table_refs_into l out) name,
      )
  listed-refs_into (LogicalPlan.union xs _) out name = listed-all_refs xs out name
  listed-refs_into LogicalPlan.empty out name = ground arith

  listed-all_refs :
      {p : Platform} (xs : LogicalPlans p) (out : List String) (name : String)
      → listed name (collect_all_refs xs out) ≡ (listed name out || scans_any name xs)
  listed-all_refs LogicalPlans.nil out name = ground arith
  listed-all_refs (LogicalPlans.cons x xs) out name =
      ground (
        arith,
        listed-refs_into x out name,
        listed-all_refs xs (collect_table_refs_into x out) name,
      )

abbrev pub NoRepeat : List String → Type 0
NoRepeat [] = Unit
NoRepeat (x ∷ xs) = (listed x xs ≡ false) × NoRepeat xs

NoRepeat-snoc :
    (y : String) (out : List String)
    → NoRepeat out
    → listed y out ≡ false
    → NoRepeat (out ++ y ∷ [])
NoRepeat-snoc y [] h e = (refl, tt)
NoRepeat-snoc y (z ∷ out) h e = (
  ground (arith, listed-snoc z y out, eq_iff y z, eq_iff z y),
  NoRepeat-snoc y out h.1 (ground arith),
)

push_new-NoRepeat : (y : String) (out : List String) → NoRepeat out → NoRepeat (push_new y out)
unfolding push_new
push_new-NoRepeat y out h = elim (Bool-cases (listed y out)) [
  | inl e ↦ rw e h
  | inr e ↦ rw e (NoRepeat-snoc y out h e)
]

mutual
  unfolding collect_table_refs_into

  refs_into-NoRepeat :
      {p : Platform} (plan : LogicalPlan p) (out : List String)
      → NoRepeat out
      → NoRepeat (collect_table_refs_into plan out)
  refs_into-NoRepeat (LogicalPlan.scan table _ _ _ _ _) out h = push_new-NoRepeat table out h
  refs_into-NoRepeat (LogicalPlan.project x _ _) out h = refs_into-NoRepeat x out h
  refs_into-NoRepeat (LogicalPlan.filter x _ _) out h = refs_into-NoRepeat x out h
  refs_into-NoRepeat (LogicalPlan.aggregate x _ _ _) out h = refs_into-NoRepeat x out h
  refs_into-NoRepeat (LogicalPlan.sort x _ _) out h = refs_into-NoRepeat x out h
  refs_into-NoRepeat (LogicalPlan.limit x _ _) out h = refs_into-NoRepeat x out h
  refs_into-NoRepeat (LogicalPlan.distinct x _) out h = refs_into-NoRepeat x out h
  refs_into-NoRepeat (LogicalPlan.join l r _ _ _) out h =
      refs_into-NoRepeat r (collect_table_refs_into l out) (refs_into-NoRepeat l out h)
  refs_into-NoRepeat (LogicalPlan.union xs _) out h = all_refs-NoRepeat xs out h
  refs_into-NoRepeat LogicalPlan.empty out h = h

  all_refs-NoRepeat :
      {p : Platform} (xs : LogicalPlans p) (out : List String)
      → NoRepeat out
      → NoRepeat (collect_all_refs xs out)
  all_refs-NoRepeat LogicalPlans.nil out h = h
  all_refs-NoRepeat (LogicalPlans.cons x xs) out h =
      all_refs-NoRepeat xs (collect_table_refs_into x out) (refs_into-NoRepeat x out h)

-- `collect_table_refs` reports no table twice, and exactly the tables that the plan scans.
pub collect_table_refs_lem :
    {p : Platform} (plan : LogicalPlan p)
    → NoRepeat (collect_table_refs plan)
      × ((name : String) → listed name (collect_table_refs plan) ≡ scans name plan)
unfolding collect_table_refs
collect_table_refs_lem plan = (refs_into-NoRepeat plan [] tt, λ name. listed-refs_into plan [] name)
