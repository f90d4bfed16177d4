-- ===== src/AppFramework/Pipeline/Interleaving/Scenarios.antt =====
-- Runs of the interleaved pipeline on small inputs.
use splunk_operator_mirror_d.AppFramework.Deployment.Changes.{look}
use splunk_operator_mirror_d.AppFramework.Pipeline.{look_up, read_info, phase_ref, eligible_for_run}
use splunk_operator_mirror_d.AppFramework.Pipeline.Interleaving.Safety.{running-distinct}
use splunk_operator_mirror_d.AppFramework.Phases.{
  may_install, scope_of, retries_reached, is_complete,
}
use splunk_operator_mirror_d.AppFramework.Pipeline.Interleaving.Invariant.{Inv, Reach-Inv}
use splunk_operator_mirror_d.AppFramework.Pipeline.Managers.{
  visit_install, visit_install_found, visit_install_on, get_install_slot, start_install,
}
use splunk_operator_mirror_d.AppFramework.Pipeline.Interleaving.{
  visits_install, starts, start, later, System, Config, AppPhase, AppDeploymentInfo, ℕ, Bool, List,
  visit_install, Reach, Worker, Pipeline, String, has_room, Step, init,
}
use splunk_operator_mirror_d.AppFramework.Pipeline.Handler.{
  local_playbook, handle_install, Playbook, handle_install-started,
}
use splunk_operator_mirror_d.Prelude.{
  ◌∷◌, none, true, some, false, [], refl, ℕ, Bool, List, ◌≢◌, ◌≡◌, String, ◌⊎◌,
}
use splunk_operator_mirror_d.AppFramework.Types.{
  install, download, standalone, deploy_pending, active, Config, AppPhase, PhaseInfo,
  AppDeploymentInfo, Worker, Pipeline,
}
use splunk_operator_mirror_d.AppFramework.Status

abbrev standalone_config : Config
standalone_config = record {
  kind = standalone;
  replicas = some 2;
  max_retries = 2;
  default_scope = "local";
  app_sources = ("apps", "local") ∷ [];
}

abbrev info_in : AppPhase → ℕ → PhaseInfo
info_in phase status = record { phase = phase; status = status; fail_count = 0 }

abbrev pending_install : PhaseInfo
pending_install = info_in install Status.install_pending

abbrev copied_app : AppDeploymentInfo
copied_app = record {
  app_name = "app1.tgz";
  object_hash = "abcd";
  is_update = false;
  size = 10;
  repo_state = active;
  deploy_status = deploy_pending;
  top_folder = "";
  phase_info = info_in download Status.download_complete;
  aux_phase_info = pending_install ∷ pending_install ∷ [];
}

abbrev worker_on : ℕ → Bool → Worker
worker_on n active_now = record {
  app = 0;
  app_src = "apps";
  ordinal = n;
  fan_out = false;
  is_active = active_now;
  has_waiter = active_now;
}

-- two replicas, each with a worker that waits for its installation
abbrev two_replicas : Bool → Bool → Pipeline
two_replicas first second = record {
  apps = copied_app ∷ [];
  workers = worker_on 0 first ∷ worker_on 1 second ∷ [];
  download_q = [];
  pod_copy_q = [];
  install_q = 0 ∷ 1 ∷ [];
}

abbrev zero_slots : List ℕ
zero_slots = 0 ∷ 0 ∷ []

abbrev one_slot : List ℕ
one_slot = 1 ∷ 0 ∷ []

abbrev two_slots : List ℕ
two_slots = 1 ∷ 1 ∷ []

abbrev both_run : System
both_run = record {
  pipeline = two_replicas true true;
  slots = two_slots;
  channel = [];
  running = 1 ∷ 0 ∷ [];
  ending = [];
}

abbrev first_sent : System
first_sent = record {
  pipeline = two_replicas true false;
  slots = one_slot;
  channel = 0 ∷ [];
  running = [];
  ending = [];
}

first_is_sent : Step standalone_config (init (two_replicas false false) 2) first_sent
unfolding visit_install visit_install_found visit_install_on start_install get_install_slot look_up
    may_install scope_of read_info phase_ref retries_reached is_complete eligible_for_run has_room
first_is_sent = visits_install 0 refl

abbrev both_sent : System
both_sent = record {
  pipeline = two_replicas true true;
  slots = two_slots;
  channel = 0 ∷ 1 ∷ [];
  running = [];
  ending = [];
}

second_is_sent : Step standalone_config first_sent both_sent
unfolding visit_install visit_install_found visit_install_on start_install get_install_slot look_up
    may_install scope_of read_info phase_ref retries_reached is_complete eligible_for_run has_room
second_is_sent = visits_install 1 refl

both_run-Reach : Reach standalone_config both_run
unfolding handle_install
both_run-Reach =
    later
      (later (later (later (start (two_replicas false false) 2 refl) first_is_sent) second_is_sent)
        (starts 0 (1 ∷ []) (worker_on 0 true) local_playbook refl refl refl))
      (starts 1 [] (worker_on 1 true) local_playbook refl refl refl)

Reach-Inv_example : Inv both_run
Reach-Inv_example = Reach-Inv both_run-Reach

running-distinct_example : (worker_on 1 true).ordinal ≢ (worker_on 0 true).ordinal
running-distinct_example =
    running-distinct [] 1 [] 0 [] (worker_on 1 true) (worker_on 0 true) both_run-Reach refl refl
      refl

handle_install-started_example :
    ((book : Playbook) × (scope : String) × (look "gone" standalone_config.app_sources ≡ some scope)
      × (handle_install standalone_config (record (worker_on 0 true) { app_src = "gone" })
          ≡ some (some book)))
    ⊎ ((look "gone" standalone_config.app_sources ≡ none)
        × (may_install standalone_config.default_scope ≡ true)
        × (handle_install standalone_config (record (worker_on 0 true) { app_src = "gone" })
            ≡ none))
unfolding may_install scope_of
handle_install-started_example =
    handle_install-started standalone_config (record (worker_on 0 true) { app_src = "gone" }) refl
