-- ===== src/AppFramework/Pipeline/Pods.antt =====
-- The managers' visits leave each worker on its pod: they add workers, and change no worker's
-- ordinal.
pub mod Visits
pub mod Installs
use splunk_operator_mirror_d.AppFramework.Pipeline.Managers.{visit_download, hand_over}
use splunk_operator_mirror_d.AppFramework.Queue.{delete_worker}
use splunk_operator_mirror_d.AppFramework.Phases.{is_fan_out_kind, is_download, new_context}
use splunk_operator_mirror_d.AppFramework.Pipeline.Transition.{
  fan_out_fresh, fan_out_again, fan_out_step, simple_step, transition_worker, fan_out_workers,
  again_rounds, zero_info, places,
}
use splunk_operator_mirror_d.Api.{found}
use splunk_operator_mirror_d.AppFramework.Pipeline.{
  main_info, aux_info, with_queue, add_workers, remove_worker, List, Worker, AppPhase, ℕ, Config,
  get_elem?, Pipeline, AppDeploymentInfo, PhaseRef, set, queue_of, length, is_fan_out_kind,
  read_info, set_app, look_up, delete_worker, replicate, PhaseInfo, set_worker, Option, inactive,
  Bool,
}
use splunk_operator_mirror_d.AppFramework.Types.{
  other_phase, download, install, pod_copy, Worker, AppPhase, Config, Pipeline, AppDeploymentInfo,
  PhaseInfo,
}
use splunk_operator_mirror_d.Prelude.{
  ◌>>=◌, inl, ◌∷◌, [], some, inr, refl, List, ℕ, get_elem?, ◌∙◌, ◌++◌, ◌≡◌, set,
  get_elem?-append_left, >>=-eq-some, Bool-cases, if◌then◌else◌, ◌==◌, length, get_elem?-set_if,
  arith, replicate, Option, true, false, Bool,
}

-- The workers that are in the first list are in the second one, at the same places and on the same
-- pods.
abbrev pub KeepsPods : List Worker → List Worker → Type 0
KeepsPods ws ws' =
    (j : ℕ) (w : Worker)
    → get_elem? ws j ≡ some w
    → (w' : Worker) × (get_elem? ws' j ≡ some w') × (w'.ordinal ≡ w.ordinal)

pub KeepsPods-refl : (ws : List Worker) → KeepsPods ws ws
KeepsPods-refl ws j w h = (w, h, refl)

pub KeepsPods-trans : (ws vs us : List Worker) → KeepsPods ws vs → KeepsPods vs us → KeepsPods ws us
KeepsPods-trans ws vs us first second j w h =
    let (v, hv, ev) = first j w h in let (u, hu, eu) = second j v hv in (u, hu, eu ∙ ev)

pub KeepsPods-set :
    (ws : List Worker) (id : ℕ) (w w' : Worker)
    → get_elem? ws id ≡ some w
    → w'.ordinal ≡ w.ordinal
    → KeepsPods ws (set ws id w')
KeepsPods-set ws id w w' h same j v hv = elim (Bool-cases (id == j)) [
  | inl e ↦ (w', rw (get_elem?-set_if ws id j w' w h) (rw e refl), ground arith)
  | inr e ↦ (v, rw (get_elem?-set_if ws id j w' w h) (rw e hv), refl)
]

pub KeepsPods-append : (ws vs : List Worker) → KeepsPods ws (ws ++ vs)
KeepsPods-append ws vs j w h = (w, get_elem?-append_left ws vs j w h, refl)

pub KeepsPods-eq : (ws vs : List Worker) → vs ≡ ws → KeepsPods ws vs
KeepsPods-eq ws vs e = rw e (KeepsPods-refl ws)

with_queue-workers :
    (phase : AppPhase) (q : List ℕ) (p : Pipeline) → (with_queue phase q p).workers ≡ p.workers
unfolding with_queue
with_queue-workers download q p = refl
with_queue-workers pod_copy q p = refl
with_queue-workers install q p = refl
with_queue-workers (other_phase t) q p = refl

pub add_workers-workers :
    (phase : AppPhase) (ids : List ℕ) (p p' : Pipeline)
    → add_workers phase ids p ≡ some p'
    → p'.workers ≡ p.workers
unfolding add_workers
add_workers-workers phase ids p p' h =
    let (q, was, rest) = >>=-eq-some (queue_of phase p) _ p' h in
    ground (arith, with_queue-workers phase (q ++ ids) p)

pub remove_worker-workers :
    (phase : AppPhase) (id : ℕ) (p p' : Pipeline)
    → remove_worker phase id p ≡ some p'
    → p'.workers ≡ p.workers
unfolding remove_worker
remove_worker-workers phase id p p' h =
    let (q, was, rest) = >>=-eq-some (queue_of phase p) _ p' h in
    ground (arith, with_queue-workers phase (delete_worker id q).0 p)

fan_out_fresh-KeepsPods :
    (replicas app : ℕ) (info : AppDeploymentInfo) (seed : Worker) (p p' : Pipeline)
    → fan_out_fresh replicas app info seed p ≡ some p'
    → KeepsPods p.workers p'.workers
unfolding fan_out_fresh
fan_out_fresh-KeepsPods replicas app info seed p p' h =
    let (ws, filled, rest) = >>=-eq-some (fan_out_workers replicas seed 0 replicas) _ p' h in
    let aux = replicate replicas (new_context pod_copy zero_info) in
    let made : Pipeline = record (set_app app (record info { aux_phase_info = aux }) p) {
      workers = p.workers ++ ws;
    } in
    let same = add_workers-workers pod_copy (places (length p.workers) replicas) made p' rest in
    rw same (KeepsPods-append p.workers ws)

fan_out_again-KeepsPods :
    (cfg : Config) (replicas app : ℕ) (info : AppDeploymentInfo) (seed : Worker) (p p' : Pipeline)
    → fan_out_again cfg replicas app info seed p ≡ some p'
    → KeepsPods p.workers p'.workers
unfolding fan_out_again
fan_out_again-KeepsPods cfg replicas app info seed p p' h =
    let (g, filled, rest) =
      >>=-eq-some (again_rounds cfg replicas seed 0 (length p.workers) info.aux_phase_info) _ p'
        h in
    let made : Pipeline = record (set_app app (record info { aux_phase_info = g.aux }) p) {
      workers = p.workers ++ g.made;
    } in
    let (copied, added, last) =
      >>=-eq-some (add_workers pod_copy g.copies made) (λ q. add_workers install g.installs q) p'
        rest in
    let same =
      add_workers-workers install g.installs copied p' last
      ∙ add_workers-workers pod_copy g.copies made copied added in
    rw same (KeepsPods-append p.workers g.made)

fan_out-KeepsPods :
    (cfg : Config) (replicas app : ℕ) (info : AppDeploymentInfo) (seed : Worker)
    (is : List PhaseInfo) (p p' : Pipeline)
    → (elim is as (λ (l : List PhaseInfo). Option Pipeline) [
      | [] ↦ fan_out_fresh replicas app info seed p
      | i ∷ rest ↦ fan_out_again cfg replicas app info seed p
    ])
      ≡ some p'
    → KeepsPods p.workers p'.workers
fan_out-KeepsPods cfg replicas app info seed [] p p' h =
    fan_out_fresh-KeepsPods replicas app info seed p p' h
fan_out-KeepsPods cfg replicas app info seed (i ∷ is) p p' h =
    fan_out_again-KeepsPods cfg replicas app info seed p p' h

fan_out_step-KeepsPods :
    (cfg : Config) (current : AppPhase) (info : AppDeploymentInfo) (seed : Worker) (p p' : Pipeline)
    → fan_out_step cfg current info seed p ≡ some p'
    → KeepsPods p.workers p'.workers
unfolding fan_out_step
fan_out_step-KeepsPods cfg current info seed p p' h = elim (Bool-cases (is_download current)) [
  | inr other ↦ KeepsPods-eq p.workers p'.workers (ground arith)
  | inl first ↦
      let (replicas, counted, rest) = >>=-eq-some cfg.replicas _ p' (rw first at h) in
      fan_out-KeepsPods cfg replicas seed.app info seed info.aux_phase_info p p' rest
]

simple_step-workers :
    (cfg : Config) (id : ℕ) (next : AppPhase) (info : AppDeploymentInfo) (w : Worker)
    (p p' : Pipeline)
    → simple_step cfg id next info w p ≡ some p'
    → p'.workers ≡ p.workers
unfolding simple_step
simple_step-workers cfg id next info w p p' h =
    let ref : PhaseRef = if is_fan_out_kind cfg.kind then aux_info w.ordinal else main_info in
    let (i, was, rest) = >>=-eq-some (read_info ref info) _ p' h in
    add_workers-workers next (id ∷ []) _ p' rest

step-KeepsPods :
    (cfg : Config) (id : ℕ) (current next : AppPhase) (info : AppDeploymentInfo) (w : Worker)
    (fans : Bool) (p p' : Pipeline)
    → (if fans then fan_out_step cfg current info w p else simple_step cfg id next info w p)
      ≡ some p'
    → KeepsPods p.workers p'.workers
step-KeepsPods cfg id current next info w true p p' h =
    fan_out_step-KeepsPods cfg current info w p p' h
step-KeepsPods cfg id current next info w false p p' h =
    KeepsPods-eq p.workers p'.workers (simple_step-workers cfg id next info w p p' h)

pub look_up-worker :
    (id : ℕ) (w : Worker) (info : AppDeploymentInfo) (p : Pipeline)
    → look_up id p ≡ some (w, info)
    → get_elem? p.workers id ≡ some w
unfolding look_up
look_up-worker id w info p h =
    let (v, seen, rest) = >>=-eq-some (get_elem? p.workers id) _ (w, info) h in
    let (a, known, last) = >>=-eq-some (get_elem? p.apps v.app) _ (w, info) rest in ground arith

pub transition_worker-KeepsPods :
    (cfg : Config) (id : ℕ) (current next : AppPhase) (p p' : Pipeline)
    → transition_worker cfg id current next p ≡ some p'
    → KeepsPods p.workers p'.workers
unfolding transition_worker
transition_worker-KeepsPods cfg id current next p p' h =
    let ((w, info), seen, rest) = >>=-eq-some (look_up id p) _ p' h in
    let stopped = set_worker id (inactive w) p in
    let (moved, stepped, last) =
      >>=-eq-some
        (if w.fan_out
          then fan_out_step cfg current info (inactive w) stopped
          else simple_step cfg id next info (inactive w) stopped)
        _ p' rest in
    let first = KeepsPods-set p.workers id w (inactive w) (look_up-worker id w info p seen) refl in
    let second : KeepsPods stopped.workers moved.workers =
      step-KeepsPods cfg id current next info (inactive w) w.fan_out stopped moved stepped in
    rw (remove_worker-workers current id moved p' last)
      (KeepsPods-trans p.workers stopped.workers moved.workers first second)
