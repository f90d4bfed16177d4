-- ===== src/AppFramework/Bundle/Scenarios.antt =====
-- Runs of the bundle push and of a premium app's playbook on small inputs.
use splunk_operator_mirror_d.AppFramework.Bundle.Marked.{Each, SourceMarks}
use splunk_operator_mirror_d.AppFramework.Premium.Pushed.{run_premium-pushes}
use splunk_operator_mirror_d.AppFramework.Phases.{is_complete, is_eligible}
use splunk_operator_mirror_d.AppFramework.Bundle.Rounds.{push_loop-terminates, push_loop-Confirmed}
use splunk_operator_mirror_d.AppFramework.Bundle.Indexers.{is_accepted, is_confirmed, run_indexers}
use splunk_operator_mirror_d.AppFramework.Premium.{Premium, After, post_install_es, run_premium}
use splunk_operator_mirror_d.AppFramework.Bundle.{
  Push, Answers, is_failed, apps_location, is_pending_cluster_work,
}
use splunk_operator_mirror_d.AppFramework.Bundle.Loop.{
  push_loop, Round, run_cluster_playbook, needs_playbook,
}
use splunk_operator_mirror_d.AppFramework.Pipeline.Running.{Exec, Install, install_app}
use splunk_operator_mirror_d.AppFramework.Bundle.Moves.{
  accepts, Moves, run_cluster_playbook-Moves, confirms,
}
use splunk_operator_mirror_d.AppFramework.Pipeline.{main_info}
use splunk_operator_mirror_d.AppFramework.Deployment.Changes.{
  push_complete, push_pending, BundleStage,
}
use splunk_operator_mirror_d.Prelude.{
  [], none, true, false, ◌∷◌, some, refl, String, ℕ, ◌+◌, ◌≡◌, ◌<◌, if◌then◌else◌, arith,
}
use splunk_operator_mirror_d.AppFramework.Types.{
  search_head_cluster, deploy_pending, pod_copy, download, install, cluster_manager, active, Config,
  PhaseInfo, AppDeploymentInfo,
}
use splunk_operator_mirror_d.AppFramework.Status

abbrev manager_config : Config
manager_config = record {
  kind = cluster_manager;
  replicas = some 1;
  max_retries = 2;
  default_scope = "cluster";
  app_sources = ("apps", "cluster") ∷ [];
}

abbrev quiet : Exec
quiet = record { std_out = ""; std_err = ""; error = none }

-- the answers of commands that succeed, with what the push and its status say
abbrev answers : String → String → Answers
answers pushed shown = record {
  is_ready = true;
  replicas = some 1;
  owners = some (record { kind = "IndexerCluster"; name = "idx"; replicas = some 2 } ∷ []);
  is_probe_set = λ pod. true;
  permissions = quiet;
  applied = record quiet { std_err = pushed };
  status = record quiet { std_out = shown };
  removal = quiet;
}

abbrev copied_app : AppDeploymentInfo
copied_app = record {
  app_name = "app1.tgz";
  object_hash = "abcd";
  is_update = false;
  size = 10;
  repo_state = active;
  deploy_status = deploy_pending;
  top_folder = "";
  phase_info = record { phase = pod_copy; status = Status.pod_copy_complete; fail_count = 0 };
  aux_phase_info = [];
}

-- one app that was copied and one that is still to be downloaded
abbrev push_in : BundleStage → Push
push_in stage = record {
  deployment = record {
    sources =
        (
          "apps",
          copied_app
              ∷ record copied_app {
                app_name = "new.tgz";
                phase_info = record copied_app.phase_info { phase = download };
              }
              ∷ [],
        )
        ∷ [];
    bundle_stage = stage;
  };
  retry_count = 3;
  log = [];
}

abbrev already : String
already = "No new bundle will be pushed. The cluster manager and peers already have this bundle"

abbrev rounds : ℕ → Round
rounds k = record { now = 100 + k; answers = answers already "cluster_status=None" }

abbrev pushed : Push
unfolding push_loop is_accepted is_confirmed is_failed apps_location needs_playbook
    is_pending_cluster_work run_cluster_playbook run_indexers
pushed =
    run_cluster_playbook manager_config "cm" (rounds 1).answers
      (run_cluster_playbook manager_config "cm" (rounds 0).answers (push_in push_pending))

push_loop-terminates_example :
    (p' : Push) × (n : ℕ) × (push_loop manager_config "cm"
        (90 + 20)
        rounds
        (20 + 2)
        0
        (push_in push_pending)
      ≡ some p')
    × (n < 20 + 2)
    × (needs_playbook manager_config.kind (90 + 20) (rounds n).now p' ≡ false)
push_loop-terminates_example =
    push_loop-terminates manager_config "cm" 90 20 rounds (push_in push_pending) (omega arith)
      (λ k. omega arith)

push_loop-Confirmed_example :
    (j : ℕ) × (n : ℕ) × (j < n)
    × (accepts manager_config.kind (rounds j).answers ≡ true)
    × (confirms manager_config.kind (rounds n).answers ≡ true)
    × (Each
        (SourceMarks manager_config)
        (push_in push_pending).deployment.sources
        pushed.deployment.sources)
    × (pushed.retry_count ≡ 0)
unfolding push_loop run_cluster_playbook is_accepted is_confirmed is_failed
push_loop-Confirmed_example =
    push_loop-Confirmed manager_config "cm" 110 rounds 3 (push_in push_pending) pushed refl refl
      refl

run_cluster_playbook-Moves_example :
    Moves manager_config
      (rounds 0).answers
      (push_in push_pending)
      (run_cluster_playbook manager_config "cm" (rounds 0).answers (push_in push_pending))
run_cluster_playbook-Moves_example =
    run_cluster_playbook-Moves manager_config "cm" (rounds 0).answers (push_in push_pending)

abbrev deployer_config : Config
deployer_config = record {
  kind = search_head_cluster;
  replicas = some 1;
  max_retries = 2;
  default_scope = "premiumApps";
  app_sources = ("premium", "premiumApps") ∷ [];
}

abbrev security : Premium
security = record { app_type = "enterpriseSecurity"; ssl = "" }

abbrev installing : PhaseInfo
installing = record { phase = install; status = Status.install_pending; fail_count = 0 }

abbrev security_app : AppDeploymentInfo
security_app = record {
  app_name = "es.spl";
  object_hash = "abcd";
  is_update = false;
  size = 10;
  repo_state = active;
  deploy_status = deploy_pending;
  top_folder = "es";
  phase_info = installing;
  aux_phase_info = [];
}

abbrev fresh_install : Install
fresh_install = record {
  exists_on_pod = true;
  lists_folder = quiet;
  lists_app = record quiet { std_err = "Could not find object id=es" };
  is_installed = true;
}

-- the package cannot be removed from the pod
abbrev stuck_package : After
stuck_package = record {
  post_install = quiet;
  clean_up = record quiet { std_err = "rm: cannot remove" };
}

run_premium-pushes_example :
    (a' : AppDeploymentInfo) × (run_premium deployer_config security fresh_install stuck_package
        main_info security_app push_complete
      ≡ some (a', if is_failed stuck_package.clean_up then push_complete else push_pending))
    × (is_complete a'.phase_info ≡ true)
    × ((src : String) → is_eligible deployer_config src a'.phase_info ≡ false)
unfolding install_app is_failed post_install_es
run_premium-pushes_example =
    run_premium-pushes deployer_config security fresh_install stuck_package security_app
      push_complete "es" installing refl refl refl refl
