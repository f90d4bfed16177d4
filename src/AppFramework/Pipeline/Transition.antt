-- ===== src/AppFramework/Pipeline/Transition.antt =====
-- `transitionWorkerPhase` of afwscheduler.go: a worker goes to the queue of another phase, or fans
-- out into one worker for each replica.
use splunk_operator_mirror_d.AppFramework.Phases.{
  new_context, set_pending, is_eligible, is_fan_out_kind, is_install, is_download, is_pod_copy,
}
use splunk_operator_mirror_d.Prelude.{
  ◌>>=◌, false, true, zero, none, ◌∷◌, suc, [], some, ℕ, List, Bool, Option, if◌then◌else◌, ◌&&◌,
  leb, not, ◌||◌, replicate, length, ◌++◌,
}
use splunk_operator_mirror_d.AppFramework.Types.{
  other_phase, install, pod_copy, PhaseInfo, Config, Worker, AppDeploymentInfo, AppPhase, Pipeline,
}
use splunk_operator_mirror_d.AppFramework.Pipeline.{
  main_info, aux_info, add_workers, look_up, ℕ, PhaseInfo, new_context, List, Config,
  is_fan_out_kind, read_info, remove_worker, Worker, AppDeploymentInfo, Bool, AppPhase, write_info,
  Option, Pipeline, PhaseRef, leb, not, set_app, inactive, replicate, length, set_worker,
}

-- `createFanOutWorker`; `none` is a nil worker, which panics where it is added to a queue
unfoldable pub fan_out_worker : ℕ → Worker → ℕ → Option Worker
fan_out_worker replicas seed n =
    if leb replicas n then none else some (record seed { fan_out = false; ordinal = n })

-- The copy workers of `k` replicas, from the replica `n` on.
unfoldable pub fan_out_workers : ℕ → Worker → ℕ → ℕ → Option (List Worker)
unfolding fan_out_worker
fan_out_workers replicas seed n zero = some []
fan_out_workers replicas seed n (suc k) = do
  w ← fan_out_worker replicas seed n
  ws ← fan_out_workers replicas seed (suc n) k
  some (w ∷ ws)

-- The places of `k` workers from the place `n` on.
abbrev pub places : ℕ → ℕ → List ℕ
places n zero = []
places n (suc k) = n ∷ places (suc n) k

-- Go's zero value
abbrev pub zero_info : PhaseInfo
zero_info = record { phase = other_phase ""; status = 0; fail_count = 0 }

-- The download has just finished: an aux info and a copy worker for each replica.
unfoldable pub fan_out_fresh : ℕ → ℕ → AppDeploymentInfo → Worker → Pipeline → Option Pipeline
unfolding fan_out_workers new_context add_workers
fan_out_fresh replicas app info seed p = do
  ws ← fan_out_workers replicas seed 0 replicas
  let aux = replicate replicas (new_context pod_copy zero_info)
  let made = record (set_app app (record info { aux_phase_info = aux }) p) {
    workers = p.workers ++ ws;
  }
  add_workers pod_copy (places (length p.workers) replicas) made

-- What the loop over the aux infos of an app package that is on its way gathers: the infos, the
-- new workers, and the places of those for the two queues.
pub record Again : Type 0 where
  pub aux : List PhaseInfo
  pub made : List Worker
  pub copies : List ℕ
  pub installs : List ℕ

-- one round of that loop, with what the later rounds gather
unfoldable pub again_round : Bool → PhaseInfo → ℕ → Option Worker → Again → Option Again
unfolding set_pending
again_round false i id w rest = some (record rest { aux = i ∷ rest.aux })
again_round true i id w rest =
    let rest' = record rest { aux = set_pending i ∷ rest.aux } in
    if is_install i.phase
    then w >>= (λ v. some (record rest' { made = v ∷ rest.made; installs = id ∷ rest.installs }))
    else if is_pod_copy i.phase
    then w >>= (λ v. some (record rest' { made = v ∷ rest.made; copies = id ∷ rest.copies }))
    else some rest'

-- the loop from the replica `n` on; the next new worker has the place `id`
unfoldable pub again_rounds : Config → ℕ → Worker → ℕ → ℕ → List PhaseInfo → Option Again
unfolding again_round fan_out_worker is_eligible
again_rounds cfg replicas seed n id [] =
    some (record { aux = []; made = []; copies = []; installs = [] })
again_rounds cfg replicas seed n id (i ∷ is) =
    let runs = is_eligible cfg seed.app_src i in
    let makes = runs && (is_install i.phase || is_pod_copy i.phase) in
    let rest = again_rounds cfg replicas seed (suc n) (if makes then suc id else id) is in
    rest >>= again_round runs i id (fan_out_worker replicas seed n)

-- The replicas already have aux infos: a worker for each one that still has work.
unfoldable pub fan_out_again :
    Config → ℕ → ℕ → AppDeploymentInfo → Worker → Pipeline → Option Pipeline
unfolding again_rounds add_workers
fan_out_again cfg replicas app info seed p = do
  g ← again_rounds cfg replicas seed 0 (length p.workers) info.aux_phase_info
  let made = record (set_app app (record info { aux_phase_info = g.aux }) p) {
    workers = p.workers ++ g.made;
  }
  copied ← add_workers pod_copy g.copies made
  add_workers install g.installs copied

-- The branch for a worker that fans out; a nil `sts` panics in `createFanOutWorker`.
unfoldable pub fan_out_step :
    Config → AppPhase → AppDeploymentInfo → Worker → Pipeline → Option Pipeline
unfolding fan_out_fresh fan_out_again
fan_out_step cfg current info seed p =
    if not (is_download current)
    then some p
    else (cfg.replicas >>= (λ replicas. elim info.aux_phase_info [
      | [] ↦ fan_out_fresh replicas seed.app info seed p
      | i ∷ is ↦ fan_out_again cfg replicas seed.app info seed p
    ]))

-- The branch for any other worker.
unfoldable pub simple_step :
    Config → ℕ → AppPhase → AppDeploymentInfo → Worker → Pipeline → Option Pipeline
unfolding is_fan_out_kind read_info write_info new_context add_workers
simple_step cfg id next info w p = do
  let ref : PhaseRef = if is_fan_out_kind cfg.kind then aux_info w.ordinal else main_info
  i ← read_info ref info
  add_workers next (id ∷ []) (set_app w.app (write_info ref (new_context next i) info) p)

unfoldable pub transition_worker : Config → ℕ → AppPhase → AppPhase → Pipeline → Option Pipeline
unfolding look_up fan_out_step simple_step remove_worker
transition_worker cfg id current next p = do
  (w, info) ← look_up id p
  let idle = inactive w
  let stopped = set_worker id idle p
  moved ←
      (if idle.fan_out
        then fan_out_step cfg current info idle stopped
        else simple_step cfg id next info idle stopped)
  remove_worker current id moved
