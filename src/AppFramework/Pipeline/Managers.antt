-- ===== src/AppFramework/Pipeline/Managers.antt =====
-- The bodies of the loops of the three phase managers of afwscheduler.go, on one worker of the
-- queue. `accepted` tells whether the phase's message channel has room for the worker.
use splunk_operator_mirror_d.AppFramework.Status
use splunk_operator_mirror_d.AppFramework.Pipeline.{not, get_elem?, set}
use splunk_operator_mirror_d.AppFramework.Pipeline.Transition.{transition_worker}
use splunk_operator_mirror_d.AppFramework.Phases.{
  is_fan_out_kind, retries_reached, is_complete, scope_of, may_install,
}
use splunk_operator_mirror_d.AppFramework.Pipeline.{
  look_up, phase_ref, write_info, remove_worker, Worker, PhaseInfo, AppDeploymentInfo, Option,
  read_info, Pipeline, Config, PhaseRef, set_worker, eligible_for_run, set_app,
}
use splunk_operator_mirror_d.AppFramework.Types.{
  deploy_error, pod_copy, install, download, Worker, PhaseInfo, AppDeploymentInfo, Pipeline, Config,
}
use splunk_operator_mirror_d.Prelude.{
  ◌>>=◌, some, true, none, suc, false, ℕ, Bool, List, Option, if◌then◌else◌, ◌==◌, not, get_elem?,
  str_eq, ltb, set, ◌-◌,
}

-- `maxParallelInstallsPerPod`
abbrev pub max_parallel_installs : ℕ
max_parallel_installs = 1

-- the end of each body: the worker is handed over and active, or it is left without a waiter
abbrev pub hand_over : Bool → ℕ → Worker → Pipeline → Pipeline
hand_over accepted id w p =
    if accepted
    then set_worker id (record w { is_active = true; has_waiter = true }) p
    else set_worker id (record w { has_waiter = false }) p

abbrev pub set_status : ℕ → PhaseInfo → PhaseInfo
set_status status i = record i { status = status }

-- the main info's status alone
abbrev pub set_main_status : ℕ → AppDeploymentInfo → AppDeploymentInfo
set_main_status status a = record a { phase_info = set_status status a.phase_info }

-- the body of the download manager's loop, on a phase info
unfoldable pub visit_download_on :
    Config → Bool → ℕ → Worker → AppDeploymentInfo → Pipeline → PhaseInfo → Option Pipeline
unfolding retries_reached remove_worker is_complete transition_worker eligible_for_run
visit_download_on cfg accepted id w info p i =
    if retries_reached cfg i
    then remove_worker i.phase id (set_app w.app (set_main_status Status.download_error info) p)
    else if is_complete i
    then transition_worker cfg id download pod_copy p
    else if eligible_for_run cfg w i Status.download_complete
    then some (hand_over accepted id w p)
    else some p

unfoldable pub visit_download_found :
    Config → Bool → ℕ → Pipeline → Worker × AppDeploymentInfo → Option Pipeline
unfolding phase_ref read_info visit_download_on
visit_download_found cfg accepted id p (w, info) =
    read_info (phase_ref cfg download w) info >>= visit_download_on cfg accepted id w info p

unfoldable pub visit_download : Config → Bool → ℕ → Pipeline → Option Pipeline
unfolding look_up visit_download_found phase_ref read_info visit_download_on
visit_download cfg accepted id p = look_up id p >>= visit_download_found cfg accepted id p

unfoldable pub visit_pod_copy_on :
    Config → Bool → ℕ → Worker → AppDeploymentInfo → Pipeline → PhaseInfo → Option Pipeline
unfolding retries_reached remove_worker is_complete transition_worker eligible_for_run scope_of
visit_pod_copy_on cfg accepted id w info p i =
    if retries_reached cfg i
    then remove_worker i.phase id (set_app w.app (set_main_status Status.pod_copy_error info) p)
    else if is_complete i
    then (if not (str_eq (scope_of cfg w.app_src) "cluster")
        then transition_worker cfg id pod_copy install p
        else remove_worker i.phase id p)
    else if i.status == Status.missing_from_operator
    then transition_worker cfg id pod_copy download p
    else if eligible_for_run cfg w i Status.pod_copy_complete
    then some (hand_over accepted id w p)
    else some p

unfoldable pub visit_pod_copy_found :
    Config → Bool → ℕ → Pipeline → Worker × AppDeploymentInfo → Option Pipeline
unfolding phase_ref read_info visit_pod_copy_on
visit_pod_copy_found cfg accepted id p (w, info) =
    read_info (phase_ref cfg pod_copy w) info >>= visit_pod_copy_on cfg accepted id w info p

unfoldable pub visit_pod_copy : Config → Bool → ℕ → Pipeline → Option Pipeline
unfolding look_up visit_pod_copy_found phase_ref read_info visit_pod_copy_on
visit_pod_copy cfg accepted id p = look_up id p >>= visit_pod_copy_found cfg accepted id p

-- `getInstallSlotForPod`: the number of installs that run on each pod, and whether one more may
unfoldable pub get_install_slot : ℕ → List ℕ → Option (List ℕ × Bool)
get_install_slot n slots = do
  used ← get_elem? slots n
  (if ltb used max_parallel_installs
      then some (set slots n (suc used), true)
      else some (slots, false))

-- `freeInstallSlotForPod`: a slot that nobody holds is only logged
unfoldable pub free_install_slot : ℕ → List ℕ → Option (List ℕ)
free_install_slot n slots = do used ← get_elem? slots n; some (set slots n (used - 1))

-- A failed install is shown in the main info as well, where replicas have their own.
abbrev pub fail_install : Config → PhaseRef → PhaseInfo → AppDeploymentInfo → AppDeploymentInfo
unfolding is_fan_out_kind write_info
fail_install cfg ref i info =
    let failed_info = write_info ref (set_status Status.install_error i) info in
    if is_fan_out_kind cfg.kind
    then record failed_info {
      phase_info = record failed_info.phase_info { phase = install; status = Status.install_error };
      deploy_status = deploy_error;
    }
    else failed_info

-- A visit of the install manager gives the pipeline, the slots, and whether the worker was sent to
-- the channel.
abbrev pub Visited : Type 0
Visited = Pipeline × List ℕ × Bool

-- the last branch: the worker is sent once it has a slot of its pod and the channel has room
unfoldable pub start_install : Bool → ℕ → Worker → Pipeline → List ℕ → Option Visited
unfolding get_install_slot free_install_slot
start_install accepted id w p slots = do
  (taken, got) ← get_install_slot w.ordinal slots
  (if not got
      then some (p, taken, false)
      else if accepted
      then some (hand_over true id w p, taken, true)
      else (free_install_slot w.ordinal taken
          >>= (λ freed. some (hand_over false id w p, freed, false))))

-- the slots are left as they are, and nothing is sent
abbrev pub with_slots : List ℕ → Option Pipeline → Option Visited
with_slots slots none = none
with_slots slots (some p) = some (p, slots, false)

unfoldable pub visit_install_on :
    Config
    → Bool
    → ℕ
    → Worker
    → AppDeploymentInfo
    → PhaseRef
    → PhaseInfo
    → Pipeline × List ℕ
    → Option Visited
unfolding retries_reached remove_worker is_complete transition_worker eligible_for_run start_install
visit_install_on cfg accepted id w info ref i (p, slots) =
    if retries_reached cfg i
    then with_slots slots (remove_worker i.phase id (set_app w.app (fail_install cfg ref i info) p))
    else if is_complete i
    then with_slots slots (remove_worker i.phase id p)
    else if i.status == Status.missing_on_pod
    then with_slots slots (transition_worker cfg id install pod_copy p)
    else if eligible_for_run cfg w i Status.install_complete
    then start_install accepted id w p slots
    else some (p, slots, false)

unfoldable pub visit_install_found :
    Config → Bool → ℕ → Pipeline × List ℕ → Worker × AppDeploymentInfo → Option Visited
unfolding phase_ref read_info visit_install_on scope_of may_install
visit_install_found cfg accepted id (p, slots) (w, info) =
    let ref = phase_ref cfg install w in
    if not (may_install (scope_of cfg w.app_src))
    then some (p, slots, false)
    else (read_info ref info >>= (λ i. visit_install_on cfg accepted id w info ref i (p, slots)))

unfoldable pub visit_install : Config → Bool → ℕ → Pipeline × List ℕ → Option Visited
unfolding look_up visit_install_found
visit_install cfg accepted id (p, slots) =
    look_up id p >>= visit_install_found cfg accepted id (p, slots)
