-- ===== src/Pipelines/Runner/Entries.antt =====
-- The entries that a run's report has under the names of the flows.
use mathlib.Core.Path.{subst}
use mathlib.Core.List.{append_assoc}
use rust_spark.Common.{
  ℕ, zero, suc, map, ◌++◌, get_elem?, get_elem?-append, ==_iff, Option-cases, if◌then◌else◌, ◌+◌,
  ◌==◌, ◌<◌, ◌≡◌, refl, ap, sym, ◌∙◌, Bool, false, Bool-cases, Option, none, some, String, str_eq,
  eq_iff, List, [], ◌∷◌, any, length, length-append, All, inl, inr, Result, ok, err, panic, arith,
}
use rust_spark.Pipelines.Spec.{Flow}
use rust_spark.Pipelines.Dag.Counting.{occ}
use rust_spark.Pipelines.Runner.{PipelineRunReport}

-- No two flows have one name.
abbrev pub DistinctFlows : List Flow → Type 0
DistinctFlows [] = Unit
DistinctFlows (f ∷ fs) = (any (λ g. str_eq g.name f.name) fs ≡ false) × DistinctFlows fs

-- How often a name stands in a list.
abbrev pub times : String → List String → ℕ
times k [] = 0
times k (x ∷ xs) = let rest = times k xs in if str_eq x k then suc rest else rest

-- The results and the failures that a report has for a name.
abbrev pub entries : String → PipelineRunReport → ℕ
entries k r = times k (map (λ s. s.flow) r.flows) + times k (map (λ e. e.0) r.errors)

-- A report with one entry for each of the flows, a result or a failure, and with no other entry. A
-- panic ends the run before that.
abbrev pub Accounts : List Flow → Result PipelineRunReport → Type 0
Accounts flows (ok r) =
    (length r.flows + length r.errors ≡ length flows) × All (λ f. entries f.name r ≡ 1) flows
Accounts flows (err e) = ⊥
Accounts flows panic = Unit

unfoldable pub named : String → Option Flow → ℕ
named k none = 0
named k (some f) = if str_eq f.name k then 1 else 0

-- How many of the nodes have a flow of the name.
unfoldable pub hits : String → List Flow → List ℕ → ℕ
unfolding named
hits k flows [] = 0
hits k flows (id ∷ ids) = named k (get_elem? flows id) + hits k flows ids

any_at :
    (test : Flow → Bool) (fs : List Flow) (n : ℕ) {f : Flow}
    → any test fs ≡ false
    → get_elem? fs n ≡ some f
    → test f ≡ false
any_at test [] n h e = cc
any_at test (g ∷ fs) zero {f = f} h e = let same : g ≡ f = cc in ap test (sym same) ∙ ground arith
any_at test (g ∷ fs) (suc n) h e = any_at test fs n (ground arith) e

other_name :
    (fs : List Flow) (i j : ℕ) {f g : Flow}
    → DistinctFlows fs
    → get_elem? fs i ≡ some g
    → get_elem? fs j ≡ some f
    → (i == j) ≡ false
    → str_eq g.name f.name ≡ false
other_name [] i j d a b e = cc
other_name (h ∷ fs) zero zero d a b e = ground arith
other_name (h ∷ fs) zero (suc j) {f = f} {g = g} d a b e =
    let same : h ≡ g = cc in
    let apart : str_eq f.name h.name ≡ false = any_at (λ x. str_eq x.name h.name) fs j d.0 b in
    subst (λ (x : Flow). str_eq x.name f.name ≡ false) same
      (ground (arith, eq_iff f.name h.name, eq_iff h.name f.name))
other_name (h ∷ fs) (suc i) zero {f = f} {g = g} d a b e =
    let same : h ≡ f = cc in
    let apart : str_eq g.name h.name ≡ false = any_at (λ x. str_eq x.name h.name) fs i d.0 a in
    subst (λ (x : Flow). str_eq g.name x.name ≡ false) same apart
other_name (h ∷ fs) (suc i) (suc j) d a b e = other_name fs i j d.1 a b (ground arith)

named_here :
    (id : ℕ) (fs : List Flow) (j : ℕ) {f : Flow}
    → DistinctFlows fs
    → get_elem? fs j ≡ some f
    → named f.name (get_elem? fs id) ≡ (if id == j then 1 else 0)
unfolding named
named_here id fs j {f = f} d e = elim (Bool-cases (id == j)) [
  | inl same ↦
      let there : get_elem? fs id ≡ some f = ap (get_elem? fs) ((==_iff id j).0 same) ∙ e in
      rw (same, there) (ground (arith, eq_iff f.name f.name))
  | inr apart ↦ elim (Option-cases (get_elem? fs id)) [
    | inl none' ↦ rw (apart, none') refl
    | inr (g, there) ↦ rw (apart, there, other_name fs id j d there e apart) refl
  ]
]

hits-occ :
    (fs : List Flow) (j : ℕ) {f : Flow} (ids : List ℕ)
    → DistinctFlows fs
    → get_elem? fs j ≡ some f
    → hits f.name fs ids ≡ occ j ids
unfolding hits
hits-occ fs j [] d e = refl
hits-occ fs j {f = f} (id ∷ ids) d e =
    ground (arith, named_here id fs j {f = f} d e, hits-occ fs j {f = f} ids d e)

-- In lists that have each node once, each flow has one hit.
pub hits_once :
    (all' pre fs : List Flow) (ids : List ℕ)
    → all' ≡ pre ++ fs
    → DistinctFlows all'
    → ((a : ℕ) → a < length all' → occ a ids ≡ 1)
    → All (λ f. hits f.name all' ids ≡ 1) fs
hits_once all' pre [] ids e d each = tt
hits_once all' pre (f ∷ fs) ids e d each = (
  hits-occ all' (length pre) {f = f} ids d (rw e (get_elem?-append pre f fs))
      ∙ each (length pre) (rw e (omega (arith, length-append pre (f ∷ fs)))),
  hits_once all' (pre ++ f ∷ []) fs ids (e ∙ sym (append_assoc pre (f ∷ []) fs)) d each,
)

pub times-append :
    (k : String) (xs : List String) (x : String)
    → times k (xs ++ x ∷ []) ≡ times k xs + (if str_eq x k then 1 else 0)
times-append k [] x = ground arith
times-append k (y ∷ xs) x = ground (arith, times-append k xs x)
