-- ===== src/AppFramework/Entry/Scenarios.antt =====
-- A scheduler's entry on small inputs.
use splunk_operator_mirror_d.AppFramework.Entry.Requeue.{handle_activity-requeue}
use splunk_operator_mirror_d.AppFramework.Entry.Workers.{
  Enters, scheduled_sources, enter_sources-Enters,
}
use splunk_operator_mirror_d.AppFramework.Pipeline.Interleaving.{create_worker}
use splunk_operator_mirror_d.AppFramework.Entry.{
  enter_apps, Context, handle_activity, ℕ, AppDeploymentInfo, create_worker, not, enter_sources,
  String, Bool,
}
use splunk_operator_mirror_d.AppFramework.Deployment.Changes.{push_uninitialized}
use splunk_operator_mirror_d.Prelude.{
  some, [], false, true, ◌∷◌, refl, List, ℕ, ◌≡◌, ◌&&◌, ◌||◌, not, ◌==◌, ◌+◌, ◌<◌, ◌≤◌, ◌≢◌, ◌⊎◌,
  String, Bool, str_eq,
}
use splunk_operator_mirror_d.AppFramework.Types.{
  pod_copy, cluster_manager, install, deploy_pending, download, active, Config, AppPhase, Pipeline,
  AppDeploymentInfo,
}
use splunk_operator_mirror_d.AppFramework.Status

abbrev local_config : Config
local_config = record {
  kind = cluster_manager;
  replicas = some 1;
  max_retries = 2;
  default_scope = "local";
  app_sources = ("apps", "local") ∷ [];
}

abbrev app_in : AppPhase → ℕ → AppDeploymentInfo
app_in phase status = record {
  app_name = "app1.tgz";
  object_hash = "abcd";
  is_update = false;
  size = 10;
  repo_state = active;
  deploy_status = deploy_pending;
  top_folder = "";
  phase_info = record { phase = phase; status = status; fail_count = 0 };
  aux_phase_info = [];
}

abbrev three_apps : List AppDeploymentInfo
three_apps =
    app_in download Status.download_pending
    ∷ app_in install Status.install_complete
    ∷ app_in pod_copy Status.pod_copy_pending
    ∷ []

abbrev empty_pipeline : Pipeline
empty_pipeline = record {
  apps = three_apps;
  workers = [];
  download_q = [];
  pod_copy_q = [];
  install_q = [];
}

abbrev entered : Pipeline
entered = record empty_pipeline {
  workers = create_worker local_config 0 "apps" 0 ∷ create_worker local_config 2 "apps" 0 ∷ [];
  download_q = 0 ∷ [];
  pod_copy_q = 1 ∷ [];
}

-- the directory of the second source cannot be made
abbrev three_sources : List (String × List AppDeploymentInfo)
three_sources = ("apps", three_apps) ∷ ("more", three_apps) ∷ ("last", three_apps) ∷ []

abbrev has_dir : String → Bool
has_dir src = not (str_eq src "more")

enter_sources-Enters_example :
    Enters local_config
      (scheduled_sources local_config has_dir 0 three_sources)
      empty_pipeline
      entered
unfolding enter_sources enter_apps
enter_sources-Enters_example =
    enter_sources-Enters local_config has_dir 0 three_sources empty_pipeline entered refl

-- an hour between two polls, and the next one due now
abbrev due_now : Context
due_now = record {
  deployment = record { sources = []; bundle_stage = push_uninitialized };
  has_sources = true;
  in_progress = false;
  last_check = 1000;
  poll_interval = 3600;
}

handle_activity-requeue_example :
    ((handle_activity 4600 due_now false).requeue ≡ (
      (due_now.has_sources && false)
      || (not (due_now.poll_interval == 0)
          && not (due_now.last_check + due_now.poll_interval == 4600))))
    × ((due_now.has_sources && false) ≡ true
        → (t : ℕ) × ((handle_activity 4600 due_now false).requeue_after ≡ some t)
          × (0 < t)
          × (t ≤ 5))
    × (due_now.poll_interval ≢ 0
        → due_now.last_check + due_now.poll_interval ≢ 4600
        → (t : ℕ) × ((handle_activity 4600 due_now false).requeue_after ≡ some t)
          × (0 < t)
          × ((4600 + t ≤ due_now.last_check + due_now.poll_interval) ⊎ (t ≤ 5)))
handle_activity-requeue_example = handle_activity-requeue 4600 due_now false
