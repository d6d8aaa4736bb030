-- ===== src/Cluster/Master/Jobs.antt =====
-- Every task in the table belongs to a job in the table, so taking a result never panics.
use rust_spark.Common.{
  ℕ, ◌≡◌, refl, Bool, true, false, ◌||◌, Option, none, some, String, List, [], ◌∷◌, str_eq, eq_iff,
  arith,
}
use rust_spark.Common.Dict
use rust_spark.Common.Dict.{get-insert}
use rust_spark.Cluster.Task.{Task}
use rust_spark.Cluster.Stage.{Stage}
use rust_spark.Cluster.Job.{Job}
use rust_spark.Cluster.State.{
  ClusterState, task, job, stage, update_task, insert_stage, insert_job, pop_from, pop_pending_task,
  tasks_for_job,
}
use rust_spark.Cluster.State.Queue.{task-update_task, jobs-update_task}
use rust_spark.Cluster.Master.{
  assign_in_stage, assign, assigned_to, try_assign_task, finished_task, finish_in_stage, judge,
  complete, complete_task,
}

abbrev pub is_some {ℓ} : {A : Type ℓ} → Option A → Bool
is_some none = false
is_some (some _) = true

abbrev pub has_job : String → ClusterState → Bool
has_job id s = is_some (job id s)

-- The job of every task is in the table.
pub record HasJobs (s : ClusterState) : Type 0 where
  pub known : (id : String) (t : Task) → task id s ≡ some t → has_job t.job_id s ≡ true

update_task-HasJobs :
    (t : Task) (s : ClusterState)
    → HasJobs s
    → has_job t.job_id s ≡ true
    → HasJobs (update_task t s)
update_task-HasJobs t s inv own = record {
  known =
      λ id u e. rw (jobs-update_task t s) (ground (arith, task-update_task t s id, inv.known id u));
}

insert_stage-HasJobs : (st : Stage) (s : ClusterState) → HasJobs s → HasJobs (insert_stage st s)
unfolding insert_stage
insert_stage-HasJobs st s inv = record { known = inv.known }

pub has_job-insert_job :
    (j : Job) (s : ClusterState) (id : String)
    → has_job id (insert_job j s) ≡ (has_job id s || str_eq id j.id)
unfolding insert_job
has_job-insert_job j s id =
    ground (arith, get-insert j.id id j s.jobs, eq_iff j.id id, eq_iff id j.id)

pub insert_job-HasJobs : (j : Job) (s : ClusterState) → HasJobs s → HasJobs (insert_job j s)
insert_job-HasJobs j s inv = record {
  known = λ id t e.
      let old : task id s ≡ some t = (unfold insert_job in e) in
      ground (arith, has_job-insert_job j s t.job_id, inv.known id t old);
}

pop_from-HasJobs : (ids : List String) (s : ClusterState) → HasJobs s → HasJobs (pop_from ids s).0
unfolding pop_from
pop_from-HasJobs [] s inv = inv
pop_from-HasJobs (i ∷ ids) s inv = record { known = inv.known }

pop_from_job :
    (ids : List String) (s : ClusterState) (t : Task)
    → HasJobs s
    → (pop_from ids s).1 ≡ some t
    → has_job t.job_id (pop_from ids s).0 ≡ true
unfolding pop_from
pop_from_job [] s t inv e = cc
pop_from_job (i ∷ ids) s t inv e = inv.known i t e

assign-HasJobs :
    (worker : String) (o : Option Task) (s : ClusterState)
    → HasJobs s
    → ((t : Task) → o ≡ some t → has_job t.job_id s ≡ true)
    → HasJobs (assign worker o s).0
unfolding assign
assign-HasJobs worker none s inv own = inv
assign-HasJobs worker (some t) s inv own =
    let t' = assigned_to worker t in
    let s1 = update_task t' s in
    in_stage t' (stage t'.stage_id s1) s1 (update_task-HasJobs t' s inv (own t refl))
  where
    in_stage :
        (u : Task) (st : Option Stage) (r : ClusterState)
        → HasJobs r
        → HasJobs (assign_in_stage u st r)
    in_stage u none r h = h
    in_stage u (some st) r h = insert_stage-HasJobs _ r h

-- Handing out a task leaves every task with its job.
pub try_assign_task-HasJobs :
    (worker : String) (s : ClusterState) → HasJobs s → HasJobs (try_assign_task worker s).0
unfolding try_assign_task pop_pending_task
try_assign_task-HasJobs worker s inv =
    assign-HasJobs worker (pop_from s.pending s).1 (pop_from s.pending s).0
      (pop_from-HasJobs s.pending s inv) (λ t e. pop_from_job s.pending s t inv e)

finish_in_stage-HasJobs :
    (t : Task) (st : Option Stage) (s : ClusterState) → HasJobs s → HasJobs (finish_in_stage t st s)
unfolding finish_in_stage
finish_in_stage-HasJobs t none s h = h
finish_in_stage-HasJobs t (some st) s h = insert_stage-HasJobs _ s h

judge-HasJobs :
    (now : ℕ) (ts : List Task) (o : Option Job) (s : ClusterState)
    → HasJobs s
    → HasJobs (judge now ts o s).0
unfolding judge
judge-HasJobs now ts none s h = h
judge-HasJobs now ts (some j) s h = insert_job-HasJobs _ s h

module _ (rows : ℕ) (success : Bool) (error : Option String) (now : ℕ) where
  abbrev done : Task → Task
  done t = finished_task rows success error now t

  job_id-finished : (t : Task) → (done t).job_id ≡ t.job_id
  unfolding finished_task
  job_id-finished t = refl

  complete-HasJobs :
      (o : Option Task) (s : ClusterState)
      → HasJobs s
      → ((t : Task) → o ≡ some t → has_job t.job_id s ≡ true)
      → HasJobs (complete rows success error now o s).0
  unfolding complete
  complete-HasJobs none s inv own = inv
  complete-HasJobs (some t) s inv own =
      let t' = done t in
      let s1 = update_task t' s in
      let s2 = finish_in_stage t' (stage t'.stage_id s1) s1 in
      judge-HasJobs now (tasks_for_job t'.job_id s2) (job t'.job_id s2) s2 (
        finish_in_stage-HasJobs t' (stage t'.stage_id s1) s1
          (update_task-HasJobs t' s inv (own t refl)))

  -- Taking a result leaves every task with its job.
  pub complete_task-HasJobs :
      (id : String) (s : ClusterState)
      → HasJobs s
      → HasJobs (complete_task id rows success error now s).0
  unfolding complete_task
  complete_task-HasJobs id s inv = complete-HasJobs (task id s) s inv (inv.known id)
