-- ===== src/AppFramework/Pipeline/Pods/Installs.antt =====
-- Each visit of the install manager leaves every worker on its pod.
use splunk_operator_mirror_d.AppFramework.Pipeline.Transition.{transition_worker}
use splunk_operator_mirror_d.AppFramework.Phases.{
  retries_reached, may_install, scope_of, is_complete,
}
use splunk_operator_mirror_d.AppFramework.Pipeline.{
  PhaseRef, phase_ref, look_up, PhaseInfo, not, retries_reached, remove_worker, set_app, read_info,
  eligible_for_run,
}
use splunk_operator_mirror_d.AppFramework.Pipeline.Pods.Visits.{
  AllKeep, hand_over-KeepsPods, removed-AllKeep, dropped-AllKeep, moved-AllKeep,
}
use splunk_operator_mirror_d.AppFramework.Pipeline.Pods.{
  KeepsPods-eq, KeepsPods, arith, get_elem?, AppDeploymentInfo, PhaseRef, >>=-eq-some,
  look_up-worker, transition_worker,
}
use splunk_operator_mirror_d.AppFramework.Pipeline.Managers.{
  start_install, visit_install_on, visit_install_found, visit_install, get_install_slot,
  free_install_slot, with_slots, hand_over, fail_install, Visited,
}
use splunk_operator_mirror_d.AppFramework.Types.{
  install, pod_copy, Pipeline, Config, Worker, AppDeploymentInfo, PhaseInfo,
}
use splunk_operator_mirror_d.Prelude.{
  true, zero, suc, some, false, none, refl, List, Option, Bool, ℕ, ◌≡◌, if◌then◌else◌, arith,
  get_elem?, >>=-eq-some, not, get_elem?-set, ◌==◌,
}
use splunk_operator_mirror_d.AppFramework.Status

abbrev BothKeep : Pipeline → Option Visited → Type 0
BothKeep p o = (r : Visited) → o ≡ some r → KeepsPods p.workers r.0.workers

if-BothKeep :
    (p : Pipeline) (b : Bool) {x y : Option Visited}
    → BothKeep p x
    → BothKeep p y
    → BothKeep p (if b then x else y)
if-BothKeep p true hx hy = hx
if-BothKeep p false hx hy = hy

same-BothKeep : (p : Pipeline) (slots : List ℕ) → BothKeep p (some (p, slots, false))
same-BothKeep p slots r h = KeepsPods-eq p.workers r.0.workers (ground arith)

with_slots-BothKeep :
    (slots : List ℕ) (p : Pipeline) (o : Option Pipeline)
    → AllKeep p o
    → BothKeep p (with_slots slots o)
with_slots-BothKeep slots p none keep r h = cc
with_slots-BothKeep slots p (some q) keep r h = keep r.0 (ground arith)

start_install-BothKeep :
    (accepted : Bool) (id : ℕ) (w : Worker) (p : Pipeline) (slots : List ℕ) (o : Option ℕ)
    → get_elem? slots w.ordinal ≡ o
    → get_elem? p.workers id ≡ some w
    → BothKeep p (start_install accepted id w p slots)
unfolding start_install get_install_slot free_install_slot
start_install-BothKeep accepted id w p slots none q hw r h = absurd (ground arith)
start_install-BothKeep true id w p slots (some zero) q hw r h =
    let same : r.0 ≡ hand_over true id w p = ground arith in
    rw same (hand_over-KeepsPods true id w p hw)
start_install-BothKeep false id w p slots (some zero) q hw r h =
    let same : r.0 ≡ hand_over false id w p = ground (arith, get_elem?-set slots w.ordinal 1 0 q) in
    rw same (hand_over-KeepsPods false id w p hw)
start_install-BothKeep accepted id w p slots (some (suc n)) q hw r h =
    KeepsPods-eq p.workers r.0.workers (ground arith)

visit_install_on-BothKeep :
    (cfg : Config) (accepted : Bool) (id : ℕ) (w : Worker) (info : AppDeploymentInfo)
    (ref : PhaseRef) (i : PhaseInfo) (p : Pipeline) (slots : List ℕ)
    → get_elem? p.workers id ≡ some w
    → BothKeep p (visit_install_on cfg accepted id w info ref i (p, slots))
unfolding visit_install_on
visit_install_on-BothKeep cfg accepted id w info ref i p slots hw =
    if-BothKeep p (retries_reached cfg i)
      (with_slots-BothKeep slots p
        (remove_worker i.phase id (set_app w.app (fail_install cfg ref i info) p))
        (removed-AllKeep p i.phase id w.app (fail_install cfg ref i info)))
      (if-BothKeep p (is_complete i)
        (with_slots-BothKeep slots p (remove_worker i.phase id p) (dropped-AllKeep p i.phase id))
        (if-BothKeep p (i.status == Status.missing_on_pod)
          (with_slots-BothKeep slots p (transition_worker cfg id install pod_copy p)
            (moved-AllKeep p cfg id install pod_copy))
          (if-BothKeep p (eligible_for_run cfg w i Status.install_complete)
            (start_install-BothKeep accepted id w p slots (get_elem? slots w.ordinal) refl hw)
            (same-BothKeep p slots))))

visit_install_found-BothKeep :
    (cfg : Config) (accepted : Bool) (id : ℕ) (w : Worker) (info : AppDeploymentInfo) (p : Pipeline)
    (slots : List ℕ)
    → get_elem? p.workers id ≡ some w
    → BothKeep p (visit_install_found cfg accepted id (p, slots) (w, info))
unfolding visit_install_found
visit_install_found-BothKeep cfg accepted id w info p slots hw =
    let ref = phase_ref cfg install w in
    if-BothKeep p (not (may_install (scope_of cfg w.app_src))) (same-BothKeep p slots) (λ r h.
      let (i, was, last) =
        >>=-eq-some (read_info ref info)
          (λ i. visit_install_on cfg accepted id w info ref i (p, slots)) r h in
      visit_install_on-BothKeep cfg accepted id w info ref i p slots hw r last)

pub visit_install-KeepsPods :
    (cfg : Config) (accepted : Bool) (id : ℕ) (p p' : Pipeline) (slots slots' : List ℕ)
    (sent : Bool)
    → visit_install cfg accepted id (p, slots) ≡ some (p', slots', sent)
    → KeepsPods p.workers p'.workers
unfolding visit_install
visit_install-KeepsPods cfg accepted id p p' slots slots' sent h =
    let ((w, info), seen, rest) =
      >>=-eq-some (look_up id p) (visit_install_found cfg accepted id (p, slots)) (p', slots', sent)
        h in
    visit_install_found-BothKeep cfg accepted id w info p slots (look_up-worker id w info p seen)
      (p', slots', sent) rest
