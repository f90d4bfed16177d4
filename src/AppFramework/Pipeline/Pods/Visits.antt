-- ===== src/AppFramework/Pipeline/Pods/Visits.antt =====
-- Each visit of the three managers leaves every worker on its pod.
use splunk_operator_mirror_d.AppFramework.Status
use splunk_operator_mirror_d.AppFramework.Phases.{retries_reached, is_complete, scope_of}
use splunk_operator_mirror_d.AppFramework.Pipeline.Transition.{transition_worker}
use splunk_operator_mirror_d.AppFramework.Pipeline.{
  remove_worker, set_app, get_elem?, look_up, read_info, phase_ref, PhaseInfo, retries_reached,
  eligible_for_run, not,
}
use splunk_operator_mirror_d.AppFramework.Pipeline.Pods.{
  KeepsPods-eq, arith, AppDeploymentInfo, remove_worker, transition_worker, Worker, KeepsPods,
  remove_worker-workers, transition_worker-KeepsPods, >>=-eq-some, KeepsPods-set, look_up-worker,
}
use splunk_operator_mirror_d.AppFramework.Pipeline.Managers.{
  visit_download, visit_pod_copy, hand_over, visit_download_on, visit_download_found,
  visit_pod_copy_on, visit_pod_copy_found, set_main_status,
}
use splunk_operator_mirror_d.AppFramework.Types.{
  download, install, pod_copy, Pipeline, AppPhase, Config, AppDeploymentInfo, Worker, PhaseInfo,
}
use splunk_operator_mirror_d.Prelude.{
  false, true, some, refl, Bool, Option, ℕ, ◌≡◌, if◌then◌else◌, arith, get_elem?, >>=-eq-some, not,
  str_eq, ◌==◌,
}

-- Whatever this step gives, if it does not panic.
abbrev pub AllKeep : Pipeline → Option Pipeline → Type 0
AllKeep p o = (p' : Pipeline) → o ≡ some p' → KeepsPods p.workers p'.workers

if-AllKeep :
    (p : Pipeline) (b : Bool) {x y : Option Pipeline}
    → AllKeep p x
    → AllKeep p y
    → AllKeep p (if b then x else y)
if-AllKeep p true hx hy = hx
if-AllKeep p false hx hy = hy

same-AllKeep : (p : Pipeline) → AllKeep p (some p)
same-AllKeep p p' h = KeepsPods-eq p.workers p'.workers (ground arith)

pub removed-AllKeep :
    (p : Pipeline) (phase : AppPhase) (id n : ℕ) (a : AppDeploymentInfo)
    → AllKeep p (remove_worker phase id (set_app n a p))
removed-AllKeep p phase id n a p' h =
    KeepsPods-eq p.workers p'.workers (remove_worker-workers phase id (set_app n a p) p' h)

pub dropped-AllKeep :
    (p : Pipeline) (phase : AppPhase) (id : ℕ) → AllKeep p (remove_worker phase id p)
dropped-AllKeep p phase id p' h =
    KeepsPods-eq p.workers p'.workers (remove_worker-workers phase id p p' h)

pub moved-AllKeep :
    (p : Pipeline) (cfg : Config) (id : ℕ) (current next : AppPhase)
    → AllKeep p (transition_worker cfg id current next p)
moved-AllKeep p cfg id current next p' h = transition_worker-KeepsPods cfg id current next p p' h

-- the worker that is handed over, or that is left without a waiter
pub hand_over-KeepsPods :
    (accepted : Bool) (id : ℕ) (w : Worker) (p : Pipeline)
    → get_elem? p.workers id ≡ some w
    → KeepsPods p.workers (hand_over accepted id w p).workers
hand_over-KeepsPods true id w p hw = KeepsPods-set p.workers id w _ hw refl
hand_over-KeepsPods false id w p hw = KeepsPods-set p.workers id w _ hw refl

handed-AllKeep :
    (p : Pipeline) (accepted : Bool) (id : ℕ) (w : Worker)
    → get_elem? p.workers id ≡ some w
    → AllKeep p (some (hand_over accepted id w p))
handed-AllKeep p accepted id w hw p' h =
    let same : hand_over accepted id w p ≡ p' = ground arith in
    rw (← same) (hand_over-KeepsPods accepted id w p hw)

download_on-AllKeep :
    (cfg : Config) (accepted : Bool) (id : ℕ) (w : Worker) (info : AppDeploymentInfo) (p : Pipeline)
    (i : PhaseInfo)
    → get_elem? p.workers id ≡ some w
    → AllKeep p (visit_download_on cfg accepted id w info p i)
unfolding visit_download_on
download_on-AllKeep cfg accepted id w info p i hw =
    if-AllKeep p (retries_reached cfg i)
      (removed-AllKeep p i.phase id w.app (set_main_status Status.download_error info))
      (if-AllKeep p (is_complete i) (moved-AllKeep p cfg id download pod_copy) (
        if-AllKeep p (eligible_for_run cfg w i Status.download_complete)
          (handed-AllKeep p accepted id w hw) (same-AllKeep p)))

pub visit_download-KeepsPods :
    (cfg : Config) (accepted : Bool) (id : ℕ) (p p' : Pipeline)
    → visit_download cfg accepted id p ≡ some p'
    → KeepsPods p.workers p'.workers
unfolding visit_download
visit_download-KeepsPods cfg accepted id p p' h =
    let ((w, info), seen, rest) =
      >>=-eq-some (look_up id p) (visit_download_found cfg accepted id p) p' h in
    let (i, was, last) =
      >>=-eq-some (read_info (phase_ref cfg download w) info)
        (visit_download_on cfg accepted id w info p) p' rest in
    download_on-AllKeep cfg accepted id w info p i (look_up-worker id w info p seen) p' last

pod_copy_on-AllKeep :
    (cfg : Config) (accepted : Bool) (id : ℕ) (w : Worker) (info : AppDeploymentInfo) (p : Pipeline)
    (i : PhaseInfo)
    → get_elem? p.workers id ≡ some w
    → AllKeep p (visit_pod_copy_on cfg accepted id w info p i)
unfolding visit_pod_copy_on
pod_copy_on-AllKeep cfg accepted id w info p i hw =
    if-AllKeep p (retries_reached cfg i)
      (removed-AllKeep p i.phase id w.app (set_main_status Status.pod_copy_error info))
      (if-AllKeep p (is_complete i)
        (if-AllKeep p (not (str_eq (scope_of cfg w.app_src) "cluster"))
          (moved-AllKeep p cfg id pod_copy install) (dropped-AllKeep p i.phase id))
        (if-AllKeep p (i.status == Status.missing_from_operator)
          (moved-AllKeep p cfg id pod_copy download)
          (if-AllKeep p (eligible_for_run cfg w i Status.pod_copy_complete)
            (handed-AllKeep p accepted id w hw) (same-AllKeep p))))

pub visit_pod_copy-KeepsPods :
    (cfg : Config) (accepted : Bool) (id : ℕ) (p p' : Pipeline)
    → visit_pod_copy cfg accepted id p ≡ some p'
    → KeepsPods p.workers p'.workers
unfolding visit_pod_copy
visit_pod_copy-KeepsPods cfg accepted id p p' h =
    let ((w, info), seen, rest) =
      >>=-eq-some (look_up id p) (visit_pod_copy_found cfg accepted id p) p' h in
    let (i, was, last) =
      >>=-eq-some (read_info (phase_ref cfg pod_copy w) info)
        (visit_pod_copy_on cfg accepted id w info p) p' rest in
    pod_copy_on-AllKeep cfg accepted id w info p i (look_up-worker id w info p seen) p' last
