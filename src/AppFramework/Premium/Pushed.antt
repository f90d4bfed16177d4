-- ===== src/AppFramework/Premium/Pushed.antt =====
-- When a premium app on a deployer reaches the search heads.
use splunk_operator_mirror_d.AppFramework.Bundle.{is_failed}
use splunk_operator_mirror_d.AppFramework.Phases.{is_complete, is_eligible}
use splunk_operator_mirror_d.AppFramework.Pipeline.Running.{Install, install_app, mark_complete}
use splunk_operator_mirror_d.AppFramework.Premium.{
  run_premium, Config, Premium, Install, After, AppDeploymentInfo, String, PhaseInfo, post_install,
  is_failed, post_install_es,
}
use splunk_operator_mirror_d.AppFramework.Pipeline.{main_info}
use splunk_operator_mirror_d.AppFramework.Types.{
  search_head_cluster, install, Config, AppDeploymentInfo, PhaseInfo,
}
use splunk_operator_mirror_d.AppFramework.Deployment.Changes.{push_pending, BundleStage}
use splunk_operator_mirror_d.Prelude.{false, true, some, String, ◌≡◌, if◌then◌else◌, arith}

post_install_lem :
    (s : Premium) (after : After) (i : PhaseInfo)
    → (post_install s after i).1 ≡ true
    → post_install s after i ≡ (i, true)
unfolding post_install_es
post_install_lem s after i h = ground arith

-- The playbook of a premium app on a deployer, once the app is installed and the command after the
-- installation, if its type has one, has succeeded: the app package is marked as installed, so that
-- its phase is complete and no scheduler entry takes it up again. The bundle push that brings it to
-- the search heads is asked for if the package is removed from the pod; if that removal fails, the
-- stage of the push stays as it was.
pub run_premium-pushes :
    (cfg : Config) (s : Premium) (x : Install) (after : After) (a : AppDeploymentInfo)
    (stage : BundleStage) (folder : String) (i : PhaseInfo)
    → cfg.kind ≡ search_head_cluster
    → i.phase ≡ install
    → install_app x a.is_update a.top_folder a.phase_info ≡ (folder, i, true)
    → (post_install s after i).1 ≡ true
    → (a' : AppDeploymentInfo) × (run_premium cfg s x after main_info a stage
        ≡ some (a', if is_failed after.clean_up then stage else push_pending))
      × (is_complete a'.phase_info ≡ true)
      × ((src : String) → is_eligible cfg src a'.phase_info ≡ false)
unfolding run_premium is_complete is_eligible
run_premium-pushes cfg s x after a stage folder i k ph ins post =
    let same = post_install_lem s after i post in
    (
      mark_complete cfg main_info i (record a { top_folder = folder }),
      rw (ins, same) (ground arith),
      ground arith,
      λ src. ground arith,
    )
