-- ===== src/Cluster/State/Queue.antt =====
-- The queue of pending tasks: what the operations of the state keep true of it.
use rust_spark.Common.{
  if◌then◌else◌, ◌≡◌, refl, sym, Bool, true, false, not, ◌&&◌, ◌||◌, Option, none, some, String,
  List, [], ◌∷◌, ◌++◌, any, str_eq, eq_iff, arith, Bool-cases, inl, inr,
}
use mathlib.Core.Path.{subst}
use rust_spark.Common.Dict
use rust_spark.Common.Dict.{get-insert}
use rust_spark.Cluster.Task.{Task, TaskStatus, is_done}
use rust_spark.Cluster.Stage.{Stage}
use rust_spark.Cluster.Job.{Job}
use rust_spark.Cluster.State.{
  ClusterState, task, without, done_before, update_task, insert_task, insert_stage, insert_job,
  pop_from, pop_pending_task,
}

abbrev pub queued : String → List String → Bool
queued id ids = any (λ i. str_eq i id) ids

abbrev pub NoDup : List String → Type 0
NoDup [] = Unit
NoDup (x ∷ xs) = (queued x xs ≡ false) × NoDup xs

-- The task is there, and nobody has taken it yet.
abbrev pub is_waiting : Option Task → Bool
is_waiting none = false
is_waiting (some t) = elim t.status [ TaskStatus.pending ↦ true | _ ↦ false ]

-- Every queued id names a task that waits, none is queued twice, and tasks stand under their ids.
pub record IsQueued (s : ClusterState) : Type 0 where
  pub waiting : (id : String) → queued id s.pending ≡ true → is_waiting (task id s) ≡ true
  pub once : NoDup s.pending
  pub keyed : (id : String) (t : Task) → task id s ≡ some t → t.id ≡ id

queued-without :
    (x y : String) (ids : List String)
    → queued x (without y ids) ≡ (queued x ids && not (str_eq x y))
queued-without x y [] = refl
queued-without x y (i ∷ ids) =
    ground (arith, eq_iff i x, eq_iff i y, eq_iff x y, queued-without x y ids)

NoDup-without : (y : String) (ids : List String) → NoDup ids → NoDup (without y ids)
NoDup-without y [] h = tt
NoDup-without y (i ∷ ids) h = elim (Bool-cases (str_eq i y)) [
  | inl e ↦ rw e (NoDup-without y ids h.1)
  | inr e ↦ rw e (ground (arith, queued-without i y ids), NoDup-without y ids h.1)
]

queued-snoc :
    (x y : String) (ids : List String) → queued x (ids ++ y ∷ []) ≡ (queued x ids || str_eq y x)
queued-snoc x y [] = ground arith
queued-snoc x y (i ∷ ids) = ground (arith, queued-snoc x y ids)

NoDup-snoc :
    (y : String) (ids : List String) → NoDup ids → queued y ids ≡ false → NoDup (ids ++ y ∷ [])
NoDup-snoc y [] h e = (refl, tt)
NoDup-snoc y (i ∷ ids) h e = (
  ground (arith, queued-snoc i y ids, eq_iff y i, eq_iff i y),
  NoDup-snoc y ids h.1 (ground arith),
)

-- What a write to the task table does to its tasks.
keyed_insert :
    (t : Task) (s : ClusterState)
    → ((id : String) (u : Task) → task id s ≡ some u → u.id ≡ id)
    → (id : String) (u : Task) → Dict.get id (Dict.insert t.id t s.tasks) ≡ some u
    → u.id ≡ id
keyed_insert t s keyed id u e =
    ground (arith, get-insert t.id id t s.tasks, eq_iff t.id id, keyed id u)

pub task-insert_task :
    (t : Task) (s : ClusterState) (id : String)
    → task id (insert_task t s) ≡ (if str_eq t.id id then some t else task id s)
unfolding insert_task
task-insert_task t s id = get-insert t.id id t s.tasks

pub task-update_task :
    (t : Task) (s : ClusterState) (id : String)
    → task id (update_task t s) ≡ (if str_eq t.id id then some t else task id s)
unfolding update_task
task-update_task t s id = elim (Bool-cases (not (done_before (task t.id s)) && is_done t.status)) [
  | inl e ↦ rw e (get-insert t.id id t s.tasks)
  | inr e ↦ rw e (get-insert t.id id t s.tasks)
]

pub jobs-update_task : (t : Task) (s : ClusterState) → (update_task t s).jobs ≡ s.jobs
unfolding update_task
jobs-update_task t s = ground arith

module _ (t : Task) (s : ClusterState) (inv : IsQueued s) where
  -- A task may be rewritten if it is not queued, or if it is done and so leaves the queue.
  pub update_task-IsQueued :
      (queued t.id s.pending ≡ true → is_done t.status ≡ true) → IsQueued (update_task t s)
  unfolding update_task
  update_task-IsQueued free = record {
    waiting = λ id q. ground (
      arith,
      get-insert t.id id t s.tasks,
      eq_iff t.id id,
      queued-without id t.id s.pending,
      inv.waiting id,
    );
    once = elim (Bool-cases (not (done_before (task t.id s)) && is_done t.status)) [
      | inl e ↦ rw e (NoDup-without t.id s.pending inv.once)
      | inr e ↦ rw e inv.once
    ];
    keyed = λ id u e. keyed_insert t s inv.keyed id u (ground arith);
  }

  -- A new task joins the end of the queue.
  pub insert_task-IsQueued :
      is_waiting (some t) ≡ true → task t.id s ≡ none → IsQueued (insert_task t s)
  unfolding insert_task
  insert_task-IsQueued w absent = record {
    waiting = λ id q. ground (
      arith,
      get-insert t.id id t s.tasks,
      eq_iff t.id id,
      queued-snoc id t.id s.pending,
      inv.waiting id,
    );
    once = NoDup-snoc t.id s.pending inv.once (ground (arith, inv.waiting t.id));
    keyed = keyed_insert t s inv.keyed;
  }

module _ (s : ClusterState) (inv : IsQueued s) where
  pop_from-IsQueued : (ids : List String) → s.pending ≡ ids → IsQueued (pop_from ids s).0
  unfolding pop_from
  pop_from-IsQueued [] e = inv
  pop_from-IsQueued (i ∷ ids) e =
      let once : NoDup (i ∷ ids) = subst NoDup e inv.once in
      record {
        waiting = λ id q. inv.waiting id (subst (λ l. queued id l ≡ true) (sym e) (ground arith));
        once = once.1;
        keyed = inv.keyed;
      }

  pub pop-IsQueued : IsQueued (pop_pending_task s).0
  unfolding pop_pending_task
  pop-IsQueued = pop_from-IsQueued s.pending refl

  pop_from_fresh :
      (ids : List String) (t : Task)
      → s.pending ≡ ids
      → (pop_from ids s).1 ≡ some t
      → (queued t.id (pop_from ids s).0.pending ≡ false) × (is_waiting (some t) ≡ true)
  unfolding pop_from
  pop_from_fresh [] t e h = cc
  pop_from_fresh (i ∷ ids) t e h =
      let once : NoDup (i ∷ ids) = subst NoDup e inv.once in
      let first : queued i s.pending ≡ true = rw e (ground (arith, eq_iff i i)) in
      (rw (inv.keyed i t h) once.0, subst (λ o. is_waiting o ≡ true) h (inv.waiting i first))

  -- What `pop_pending_task` returns waits, and is not in the queue that is left.
  pub pop_fresh :
      (t : Task)
      → (pop_pending_task s).1 ≡ some t
      → (queued t.id (pop_pending_task s).0.pending ≡ false) × (is_waiting (some t) ≡ true)
  unfolding pop_pending_task
  pop_fresh t h = pop_from_fresh s.pending t refl h

  pub insert_stage-IsQueued : (st : Stage) → IsQueued (insert_stage st s)
  unfolding insert_stage
  insert_stage-IsQueued st = record { waiting = inv.waiting; once = inv.once; keyed = inv.keyed }

  pub insert_job-IsQueued : (j : Job) → IsQueued (insert_job j s)
  unfolding insert_job
  insert_job-IsQueued j = record { waiting = inv.waiting; once = inv.once; keyed = inv.keyed }
