-- ===== src/Cluster/Partitioner/Laws.antt =====
-- How many partitions a plan has, and how they are numbered.
use rust_spark.Common.{
  refl, ℕ, zero, suc, ◌+◌, ◌*◌, ◌≡◌, String, List, [], ◌∷◌, ◌++◌, length, length-append, is_empty,
  ok, ok-injective, if◌then◌else◌, arith,
}
use mathlib.Core.Path.{subst}
use rust_spark.Core.Platform.{Platform}
use rust_spark.Sql.Plan.{LogicalPlan, LogicalPlans}
use rust_spark.Cluster.Partitioner.{
  PartitionSpec, scan_label, push_scan, collect_scans, collect_all_scans, plan_partitions,
}

-- The number of scans in a plan, counted independently.
mutual
  pub scan_count : {p : Platform} → LogicalPlan p → ℕ
  scan_count (LogicalPlan.scan _ _ _ _ _ _) = 1
  scan_count (LogicalPlan.project x _ _) = scan_count x
  scan_count (LogicalPlan.filter x _ _) = scan_count x
  scan_count (LogicalPlan.aggregate x _ _ _) = scan_count x
  scan_count (LogicalPlan.sort x _ _) = scan_count x
  scan_count (LogicalPlan.limit x _ _) = scan_count x
  scan_count (LogicalPlan.distinct x _) = scan_count x
  scan_count (LogicalPlan.join l r _ _ _) = scan_count l + scan_count r
  scan_count (LogicalPlan.union xs _) = scan_count_all xs
  scan_count LogicalPlan.empty = 0

  pub scan_count_all : {p : Platform} → LogicalPlans p → ℕ
  scan_count_all LogicalPlans.nil = 0
  scan_count_all (LogicalPlans.cons x xs) = scan_count x + scan_count_all xs

length-push_scan :
    (path : String) (k n : ℕ) (out : List PartitionSpec)
    → length (push_scan path k n out) ≡ length out + n
unfolding push_scan
length-push_scan path k zero out = omega arith
length-push_scan path k (suc n) out =
    let spec : PartitionSpec = record { index = length out; label = scan_label path k } in
    omega (arith, length-push_scan path (suc k) n (out ++ spec ∷ []), length-append out (spec ∷ []))

mutual
  unfolding collect_scans scan_count

  length-collect :
      {p : Platform} (plan : LogicalPlan p) (out : List PartitionSpec) (n : ℕ)
      → length (collect_scans plan out n) ≡ length out + scan_count plan * n
  length-collect (LogicalPlan.scan _ path _ _ _ _) out n =
      omega (arith, length-push_scan path 0 n out)
  length-collect (LogicalPlan.project x _ _) out n = length-collect x out n
  length-collect (LogicalPlan.filter x _ _) out n = length-collect x out n
  length-collect (LogicalPlan.aggregate x _ _ _) out n = length-collect x out n
  length-collect (LogicalPlan.sort x _ _) out n = length-collect x out n
  length-collect (LogicalPlan.limit x _ _) out n = length-collect x out n
  length-collect (LogicalPlan.distinct x _) out n = length-collect x out n
  length-collect (LogicalPlan.join l r _ _ _) out n =
      omega (arith, length-collect l out n, length-collect r (collect_scans l out n) n)
  length-collect (LogicalPlan.union xs _) out n = length-collect_all xs out n
  length-collect LogicalPlan.empty out n = omega arith

  length-collect_all :
      {p : Platform} (xs : LogicalPlans p) (out : List PartitionSpec) (n : ℕ)
      → length (collect_all_scans xs out n) ≡ length out + scan_count_all xs * n
  length-collect_all LogicalPlans.nil out n = omega arith
  length-collect_all (LogicalPlans.cons x xs) out n =
      omega (arith, length-collect x out n, length-collect_all xs (collect_scans x out n) n)

-- The specs from `i` on are numbered by their places.
abbrev pub NumberedFrom : ℕ → List PartitionSpec → Type 0
NumberedFrom i [] = Unit
NumberedFrom i (s ∷ ss) = (s.index ≡ i) × NumberedFrom (suc i) ss

numbered_snoc :
    (i : ℕ) (xs : List PartitionSpec) (s : PartitionSpec)
    → NumberedFrom i xs
    → s.index ≡ i + length xs
    → NumberedFrom i (xs ++ s ∷ [])
numbered_snoc i [] s h e = (omega arith, tt)
numbered_snoc i (x ∷ xs) s h e = (h.0, numbered_snoc (suc i) xs s h.1 (omega arith))

push_scan_numbered :
    (path : String) (k n : ℕ) (out : List PartitionSpec)
    → NumberedFrom 0 out
    → NumberedFrom 0 (push_scan path k n out)
unfolding push_scan
push_scan_numbered path k zero out h = h
push_scan_numbered path k (suc n) out h =
    push_scan_numbered path (suc k) n _ (numbered_snoc 0 out _ h (omega arith))

mutual
  unfolding collect_scans

  collect_numbered :
      {p : Platform} (plan : LogicalPlan p) (out : List PartitionSpec) (n : ℕ)
      → NumberedFrom 0 out
      → NumberedFrom 0 (collect_scans plan out n)
  collect_numbered (LogicalPlan.scan _ path _ _ _ _) out n h = push_scan_numbered path 0 n out h
  collect_numbered (LogicalPlan.project x _ _) out n h = collect_numbered x out n h
  collect_numbered (LogicalPlan.filter x _ _) out n h = collect_numbered x out n h
  collect_numbered (LogicalPlan.aggregate x _ _ _) out n h = collect_numbered x out n h
  collect_numbered (LogicalPlan.sort x _ _) out n h = collect_numbered x out n h
  collect_numbered (LogicalPlan.limit x _ _) out n h = collect_numbered x out n h
  collect_numbered (LogicalPlan.distinct x _) out n h = collect_numbered x out n h
  collect_numbered (LogicalPlan.join l r _ _ _) out n h =
      collect_numbered r (collect_scans l out n) n (collect_numbered l out n h)
  collect_numbered (LogicalPlan.union xs _) out n h = collect_all_numbered xs out n h
  collect_numbered LogicalPlan.empty out n h = h

  collect_all_numbered :
      {p : Platform} (xs : LogicalPlans p) (out : List PartitionSpec) (n : ℕ)
      → NumberedFrom 0 out
      → NumberedFrom 0 (collect_all_scans xs out n)
  collect_all_numbered LogicalPlans.nil out n h = h
  collect_all_numbered (LogicalPlans.cons x xs) out n h =
      collect_all_numbered xs (collect_scans x out n) n (collect_numbered x out n h)

or_default_numbered :
    (xs : List PartitionSpec) (s : PartitionSpec)
    → s.index ≡ 0
    → NumberedFrom 0 xs
    → NumberedFrom 0 (if is_empty xs then s ∷ [] else xs)
or_default_numbered [] s e h = (e, tt)
or_default_numbered (x ∷ xs) s e h = h

-- The partitions of a plan are numbered 0, 1, 2, … in order, across all of its scans.
pub plan_partitions-numbered :
    {p : Platform} (plan : LogicalPlan p) (n : ℕ) {parts : List PartitionSpec}
    → plan_partitions plan n ≡ ok parts
    → NumberedFrom 0 parts
unfolding plan_partitions
plan_partitions-numbered plan n h =
    subst (NumberedFrom 0) (ok-injective h)
      (or_default_numbered (collect_scans plan [] n) _ refl (collect_numbered plan [] n tt))
