-- ===== src/AppFramework/Pipeline.antt =====
-- The pipeline of afwscheduler.go: how workers move between the queues of the three phases.
-- A result of `none` is a run-time panic: a nil pointer, or an index out of range.
pub mod Transition
pub mod Managers
pub mod Running
pub mod FanOut
pub mod Retries
pub mod Downloads
pub mod Installs
pub mod Slots
pub mod Handler
pub mod Pods
pub mod Interleaving
use splunk_operator_mirror_d.AppFramework.Queue.{delete_worker}
use splunk_operator_mirror_d.AppFramework.Phases.{
  is_fan_out_kind, new_context, is_download, retries_reached,
}
use splunk_operator_mirror_d.AppFramework.Types.{
  install, other_phase, download, pod_copy, AppDeploymentInfo, PhaseInfo, AppPhase, Worker, Config,
  Pipeline,
}
use splunk_operator_mirror_d.Prelude.{
  [], ◌∷◌, suc, false, none, zero, some, Option, ℕ, get_elem?, set, List, if◌then◌else◌, not, ◌++◌,
  leb, replicate, length, ◌&&◌, Bool, ◌==◌, ◌>>=◌,
}

-- Which `PhaseInfo` of an app package is meant: its own, or the one of a replica.
pub data PhaseRef : Type 0 where
  main_info : PhaseRef
  aux_info : ℕ → PhaseRef

unfoldable pub read_info : PhaseRef → AppDeploymentInfo → Option PhaseInfo
read_info main_info a = some a.phase_info
read_info (aux_info n) a = get_elem? a.aux_phase_info n

unfoldable pub write_info : PhaseRef → PhaseInfo → AppDeploymentInfo → AppDeploymentInfo
write_info main_info i a = record a { phase_info = i }
write_info (aux_info n) i a = record a { aux_phase_info = set a.aux_phase_info n i }

-- `getPhaseInfoByPhaseType`, with `needToUseAuxPhaseInfo`
unfoldable pub phase_ref : Config → AppPhase → Worker → PhaseRef
unfolding is_fan_out_kind
phase_ref cfg phase w =
    if not (is_download phase) && is_fan_out_kind cfg.kind then aux_info w.ordinal else main_info

-- `pplnPhases[phase].q`: there is no queue for any other text
unfoldable pub queue_of : AppPhase → Pipeline → Option (List ℕ)
queue_of download p = some p.download_q
queue_of pod_copy p = some p.pod_copy_q
queue_of install p = some p.install_q
queue_of (other_phase t) p = none

unfoldable pub with_queue : AppPhase → List ℕ → Pipeline → Pipeline
with_queue download q p = record p { download_q = q }
with_queue pod_copy q p = record p { pod_copy_q = q }
with_queue install q p = record p { install_q = q }
with_queue (other_phase t) q p = p

unfoldable pub add_workers : AppPhase → List ℕ → Pipeline → Option Pipeline
unfolding queue_of with_queue
add_workers phase ids p = do q ← queue_of phase p; some (with_queue phase (q ++ ids) p)

unfoldable pub remove_worker : AppPhase → ℕ → Pipeline → Option Pipeline
unfolding queue_of with_queue
remove_worker phase id p = do q ← queue_of phase p; some (with_queue phase (delete_worker id q).0 p)

-- `makeWorkerInActive`
abbrev pub inactive : Worker → Worker
inactive w = record w { is_active = false; has_waiter = false }

abbrev pub set_worker : ℕ → Worker → Pipeline → Pipeline
set_worker id w p = record p { workers = set p.workers id w }

abbrev pub set_app : ℕ → AppDeploymentInfo → Pipeline → Pipeline
set_app n a p = record p { apps = set p.apps n a }

-- A worker, and the app package that it works on.
unfoldable pub look_up : ℕ → Pipeline → Option (Worker × AppDeploymentInfo)
look_up id p = do w ← get_elem? p.workers id; info ← get_elem? p.apps w.app; some (w, info)

-- `checkIfWorkerIsEligibleForRun`
unfoldable pub eligible_for_run : Config → Worker → PhaseInfo → ℕ → Bool
eligible_for_run cfg w i done =
    not w.is_active && not (retries_reached cfg i) && not (i.status == done)
