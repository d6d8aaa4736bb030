-- ===== src/Cluster/Master/Verdict.antt =====
-- How a result decides the job: by its tasks as they stand once the result is recorded.
use rust_spark.Common.{
  ℕ, ◌+◌, ◌≢◌, ◌⊎◌, inl, inr, true, false, [], ◌∷◌, none, all, any, All, Bool-cases, is_empty, not,
  ◌&&◌, ◌≡◌, refl, ◌∙◌, ap, Bool, Option, none, some, String, List, eq_iff, arith,
}
use rust_spark.Common.Dict
use rust_spark.Common.Dict.{get-insert}
use rust_spark.Cluster.Task.{Task, TaskStatus, is_succeeded, is_failed}
use rust_spark.Cluster.Stage.{Stage}
use rust_spark.Cluster.Job.{Job, JobStatus}
use rust_spark.Cluster.State.{
  ClusterState, task, job, stage, update_task, insert_stage, insert_job, tasks_for_job,
}
use rust_spark.Cluster.State.Queue.{jobs-update_task}
use rust_spark.Cluster.Master.{
  total_rows, first_failure, rows_or_zero, finished_task, finish_in_stage, judge, judge_job,
  complete, complete_task,
}

jobs-finish_in_stage :
    (t : Task) (st : Option Stage) (s : ClusterState) → (finish_in_stage t st s).jobs ≡ s.jobs
unfolding finish_in_stage insert_stage
jobs-finish_in_stage t none s = refl
jobs-finish_in_stage t (some st) s = refl

id-judge_job : (now : ℕ) (ts : List Task) (j : Job) → (judge_job now ts j).id ≡ j.id
unfolding judge_job
id-judge_job now ts j = ground arith

get_own :
    (id : String) (j : Job) (m : Dict.Dict Job)
    → j.id ≡ id
    → Dict.get id (Dict.insert j.id j m) ≡ some j
get_own id j m own = get-insert j.id id j m ∙ rw ((eq_iff j.id id).1 own) refl

job-judge :
    (now : ℕ) (id : String) (j : Job) (o : Option Job) (s : ClusterState)
    → o ≡ some j
    → j.id ≡ id
    → job id (judge now (tasks_for_job id s) o s).0
      ≡ some (judge_job now (tasks_for_job id (judge now (tasks_for_job id s) o s).0) j)
unfolding judge insert_job tasks_for_job
job-judge now id j none s e own = cc
job-judge now id j (some k) s e own =
    let ts = tasks_for_job id s in
    let same : k ≡ j = cc in
    get_own id (judge_job now ts k) s.jobs (id-judge_job now ts k ∙ ap (λ x. x.id) same ∙ own)
    ∙ ap (λ x. some (judge_job now ts x)) same

-- The rows that the tasks report, summed up.
abbrev pub RowsOf : List Task → ℕ → Type 0
RowsOf [] n = n ≡ 0
RowsOf (t ∷ ts) n =
    (m : ℕ) × RowsOf ts m
    × (((t.result_rows ≡ none) × (n ≡ m)) ⊎ ((k : ℕ) × (t.result_rows ≡ some k) × (n ≡ k + m)))

-- One of the tasks has failed with the message.
abbrev pub SomeFailure : List Task → String → Type 0
SomeFailure [] msg = ⊥
SomeFailure (t ∷ ts) msg = (t.status ≡ TaskStatus.failed msg) ⊎ SomeFailure ts msg

abbrev pub Unfinished : List Task → Type 0
Unfinished [] = Unit
Unfinished (t ∷ ts) = (t.status ≢ TaskStatus.succeeded) ⊎ Unfinished ts

abbrev pub AllSucceeded : List Task → Type 0
AllSucceeded ts = (ts ≢ []) × All (λ t. t.status ≡ TaskStatus.succeeded) ts

abbrev pub NoneFailed : List Task → Type 0
NoneFailed ts = All (λ t. is_failed t.status ≡ false) ts

-- What the tasks make of the job `j`.
abbrev pub Decides : ℕ → List Task → Job → Job → Type 0
Decides now ts j j' =
    (AllSucceeded ts
      × (n : ℕ) × RowsOf ts n
      × (j' ≡ record j {
        status = JobStatus.succeeded;
        completed_at = some now;
        result_rows = some n;
      }))
    ⊎ ((msg : String) × SomeFailure ts msg
        × (j' ≡ record j { status = JobStatus.failed msg; completed_at = some now }))
    ⊎ (NoneFailed ts × ((ts ≡ []) ⊎ Unfinished ts) × (j' ≡ j))

rows_or_zero-cases :
    (o : Option ℕ) (m : ℕ)
    → ((o ≡ none) × (rows_or_zero o + m ≡ m))
      ⊎ ((k : ℕ) × (o ≡ some k) × (rows_or_zero o + m ≡ k + m))
unfolding rows_or_zero
rows_or_zero-cases none m = inl (refl, omega arith)
rows_or_zero-cases (some k) m = inr (k, refl, refl)

total_rows-RowsOf : (ts : List Task) → RowsOf ts (total_rows ts)
unfolding total_rows
total_rows-RowsOf [] = refl
total_rows-RowsOf (t ∷ ts) =
    (total_rows ts, total_rows-RowsOf ts, rows_or_zero-cases t.result_rows (total_rows ts))

succeeded_status : (st : TaskStatus) → is_succeeded st ≡ true → st ≡ TaskStatus.succeeded
succeeded_status st h = ground arith

not_succeeded : (st : TaskStatus) → is_succeeded st ≡ false → st ≢ TaskStatus.succeeded
not_succeeded st h e = ground arith

all_succeeded :
    (ts : List Task)
    → all (λ t. is_succeeded t.status) ts ≡ true
    → All (λ t. t.status ≡ TaskStatus.succeeded) ts
all_succeeded [] h = tt
all_succeeded (t ∷ ts) h =
    (succeeded_status t.status (ground arith), all_succeeded ts (ground arith))

any_failed :
    (ts : List Task) → any (λ t. is_failed t.status) ts ≡ true → SomeFailure ts (first_failure ts)
unfolding first_failure
any_failed [] h = cc
any_failed (t ∷ ts) h = ground (arith, any_failed ts)

none_failed : (ts : List Task) → any (λ t. is_failed t.status) ts ≡ false → NoneFailed ts
none_failed [] h = tt
none_failed (t ∷ ts) h = (ground arith, none_failed ts (ground arith))

unfinished : (ts : List Task) → all (λ t. is_succeeded t.status) ts ≡ false → Unfinished ts
unfinished [] h = cc
unfinished (t ∷ ts) h = elim (Bool-cases (is_succeeded t.status)) [
  | inl e ↦ inr (unfinished ts (ground arith))
  | inr e ↦ inl (not_succeeded t.status e)
]

undecided :
    (ts : List Task)
    → (not (is_empty ts) && all (λ t. is_succeeded t.status) ts) ≡ false
    → (ts ≡ []) ⊎ Unfinished ts
undecided [] h = inl refl
undecided (t ∷ ts) h = inr (unfinished (t ∷ ts) (ground arith))

decided :
    (ts : List Task)
    → (not (is_empty ts) && all (λ t. is_succeeded t.status) ts) ≡ true
    → AllSucceeded ts
decided [] h = cc
decided (t ∷ ts) h = (λ e. cc, all_succeeded (t ∷ ts) (ground arith))

judge_job-Decides : (now : ℕ) (ts : List Task) (j : Job) → Decides now ts j (judge_job now ts j)
unfolding judge_job
judge_job-Decides now ts j =
    elim (Bool-cases (not (is_empty ts) && all (λ t. is_succeeded t.status) ts)) [
      | inl e ↦ rw e (inl (decided ts e, total_rows ts, total_rows-RowsOf ts, refl))
      | inr e ↦ elim (Bool-cases (any (λ t. is_failed t.status) ts)) [
        | inl f ↦ rw (e, f) (inr (inl (first_failure ts, any_failed ts f, refl)))
        | inr f ↦ rw (e, f) (inr (inr (none_failed ts f, undecided ts e, refl)))
      ]
    ]

module _ (rows : ℕ) (success : Bool) (error : Option String) (now : ℕ) where
  job-complete :
      (t : Task) (j : Job) (s : ClusterState)
      → job t.job_id s ≡ some j
      → j.id ≡ t.job_id
      → job t.job_id (complete rows success error now (some t) s).0
        ≡ some (
            judge_job now (tasks_for_job t.job_id (complete rows success error now (some t) s).0) j)
  unfolding complete
  job-complete t j s e own =
      let t' = finished_task rows success error now t in
      let s1 = update_task t' s in
      let st = stage t'.stage_id s1 in
      let s2 = finish_in_stage t' st s1 in
      job-judge now t.job_id j (job t'.job_id s2) s2
        (ap (Dict.get t.job_id) (jobs-finish_in_stage t' st s1 ∙ jobs-update_task t' s) ∙ e) own

  -- After a result for a known task its job stands in the table as the tasks of the job, as they then
  -- are, decide it. If there are tasks and all have succeeded, it has succeeded now, with the sum of
  -- their rows; or it has failed now, with the message of a task that has failed; or it is as before,
  -- no task has failed, and there is none or one that has not succeeded. The job is in the table under
  -- its own id.
  pub complete_task_verdict :
      (id : String) (t : Task) (j : Job) (s : ClusterState)
      → task id s ≡ some t
      → job t.job_id s ≡ some j
      → j.id ≡ t.job_id
      → (j' : Job) × (job t.job_id (complete_task id rows success error now s).0 ≡ some j')
        × Decides now (tasks_for_job t.job_id (complete_task id rows success error now s).0) j j'
  unfolding complete_task
  complete_task_verdict id t j s known e own =
      let s' = (complete_task id rows success error now s).0 in
      (
        judge_job now (tasks_for_job t.job_id s') j,
        rw known (job-complete t j s e own),
        judge_job-Decides now (tasks_for_job t.job_id s') j,
      )
