-- ===== src/Cluster/Master/Drain.antt =====
-- The order in which a series of requests for work empties the queue.
use rust_spark.Common.{
  ◌≡◌, refl, ◌∙◌, ap, true, Option, none, some, String, List, [], ◌∷◌, eq_iff, arith,
}
use rust_spark.Cluster.Task.{Task}
use rust_spark.Cluster.Stage.{Stage}
use rust_spark.Cluster.State.{
  ClusterState, task, stage, update_task, insert_stage, pop_from, pop_pending_task,
}
use rust_spark.Cluster.State.Queue.{is_waiting, IsQueued}
use rust_spark.Cluster.Master.{assign_in_stage, assign, assigned_to, try_assign_task}
use rust_spark.Cluster.Master.Queue.{try_assign_task-IsQueued}

abbrev log : String → Option Task → List (String × String) → List (String × String)
log worker none rest = rest
log worker (some t) rest = (worker, t.id) ∷ rest

abbrev pub pair_up : {A B : Type 0} → List A → List B → List (A × B)
pair_up [] ys = []
pair_up (_ ∷ _) [] = []
pair_up (x ∷ xs) (y ∷ ys) = (x, y) ∷ pair_up xs ys

-- One request of each worker of the list, and who got which task.
pub hand_out : List String → ClusterState → ClusterState × List (String × String)
hand_out [] s = (s, [])
hand_out (w ∷ ws) s =
    let (s', t) = try_assign_task w s in let (s'', rest) = hand_out ws s' in (s'', log w t rest)

abbrev pub drop_as : {A B : Type 0} → List A → List B → List B
drop_as [] ys = ys
drop_as (_ ∷ xs) [] = []
drop_as (_ ∷ xs) (_ ∷ ys) = drop_as xs ys

pending-assign_in_stage :
    (t : Task) (st : Option Stage) (s : ClusterState) → (assign_in_stage t st s).pending ≡ s.pending
unfolding assign_in_stage insert_stage
pending-assign_in_stage t none s = refl
pending-assign_in_stage t (some st) s = refl

pending-update_assigned :
    (w : String) (t : Task) (s : ClusterState)
    → (update_task (assigned_to w t) s).pending ≡ s.pending
unfolding update_task
pending-update_assigned w t s = ground arith

pending-assign :
    (w : String) (o : Option Task) (s : ClusterState) → (assign w o s).0.pending ≡ s.pending
unfolding assign
pending-assign w none s = refl
pending-assign w (some t) s =
    let t' = assigned_to w t in
    let s1 = update_task t' s in
    pending-assign_in_stage t' (stage t'.stage_id s1) s1 ∙ pending-update_assigned w t s

log-assign :
    (w : String) (o : Option Task) (s : ClusterState) (rest : List (String × String))
    → log w (assign w o s).1 rest ≡ log w o rest
unfolding assign
log-assign w none s rest = refl
log-assign w (some t) s rest = refl

log-waiting :
    (w i : String) (o : Option Task) (rest : List (String × String))
    → is_waiting o ≡ true
    → ((t : Task) → o ≡ some t → t.id ≡ i)
    → log w o rest ≡ (w, i) ∷ rest
log-waiting w i none rest h named = cc
log-waiting w i (some t) rest h named = rw (named t refl) refl

first-waiting :
    (i : String) (ids : List String) (s : ClusterState)
    → s.pending ≡ i ∷ ids
    → IsQueued s
    → is_waiting (task i s) ≡ true
first-waiting i ids s e inv = inv.waiting i (rw e (ground (arith, eq_iff i i)))

assign_empty : (w : String) (s : ClusterState) → s.pending ≡ [] → try_assign_task w s ≡ (s, none)
unfolding try_assign_task pop_pending_task pop_from assign
assign_empty w s e = rw e refl

assign_first :
    (w i : String) (ids : List String) (s : ClusterState) (rest : List (String × String))
    → s.pending ≡ i ∷ ids
    → IsQueued s
    → (log w (try_assign_task w s).1 rest ≡ (w, i) ∷ rest) × ((try_assign_task w s).0.pending ≡ ids)
unfolding try_assign_task pop_pending_task pop_from
assign_first w i ids s rest e inv = rw e (
  log-assign w (task i s) _ rest
      ∙ log-waiting w i (task i s) rest (first-waiting i ids s e inv) (inv.keyed i),
  pending-assign w (task i s) _,
)

pair_up-nil : (ws : List String) → pair_up {A = String} {B = String} ws [] ≡ []
pair_up-nil [] = refl
pair_up-nil (_ ∷ _) = refl

drop_as-nil : (ws : List String) → drop_as {A = String} {B = String} ws [] ≡ []
drop_as-nil [] = refl
drop_as-nil (_ ∷ _) = refl

drained :
    (ws ids : List String) (s : ClusterState)
    → s.pending ≡ ids
    → IsQueued s
    → ((hand_out ws s).1 ≡ pair_up ws ids) × ((hand_out ws s).0.pending ≡ drop_as ws ids)
unfolding hand_out
drained [] ids s e inv = (refl, e)
drained (w ∷ ws) [] s e inv =
    let rest = drained ws [] s e inv in
    rw (assign_empty w s e) (rest.0 ∙ pair_up-nil ws, rest.1 ∙ drop_as-nil ws)
drained (w ∷ ws) (i ∷ ids) s e inv =
    let s' = (try_assign_task w s).0 in
    let (first, left) = assign_first w i ids s (hand_out ws s').1 e inv in
    let rest = drained ws ids s' left (try_assign_task-IsQueued w s inv) in
    (first ∙ ap (λ l. (w, i) ∷ l) rest.0, rest.1)

-- Tasks leave the queue in its order: of any series of requests for work the first gets the task
-- that heads the queue, the second the next one, and so on until the queue is empty, and what is
-- then still queued is the rest of the queue in its old order. The state to begin with keeps the
-- queue in order (`IsQueued`).
pub hand_out_fifo :
    (ws : List String) (s : ClusterState)
    → IsQueued s
    → ((hand_out ws s).1 ≡ pair_up ws s.pending)
      × ((hand_out ws s).0.pending ≡ drop_as ws s.pending)
hand_out_fifo ws s inv = drained ws s.pending s refl inv
