-- ===== src/AppFramework/Pipeline/Installs.antt =====
-- What a finished installation leaves in an app package.
use splunk_operator_mirror_d.AppFramework.Phases.{is_fan_out_kind, all_installed}
use splunk_operator_mirror_d.AppFramework.Pipeline.Running.{mark_complete}
use splunk_operator_mirror_d.Prelude.{true, ◌≡◌, ◌≢◌, ◌↔◌, arith}
use splunk_operator_mirror_d.AppFramework.Pipeline.{
  main_info, aux_info, write_info, Config, PhaseRef, PhaseInfo, AppDeploymentInfo, is_fan_out_kind,
}
use splunk_operator_mirror_d.AppFramework.Types.{
  deploy_complete, Config, PhaseInfo, AppDeploymentInfo,
}

-- For the kinds with infos of their replicas, and a package that is not yet marked as deployed:
-- marking one replica's installation as complete marks the package as deployed exactly when then
-- all replicas have it installed.
pub mark_complete-deployed :
    (cfg : Config) (ref : PhaseRef) (i : PhaseInfo) (a : AppDeploymentInfo)
    → is_fan_out_kind cfg.kind ≡ true
    → a.deploy_status ≢ deploy_complete
    → let after = mark_complete cfg ref i a in
      (after.deploy_status ≡ deploy_complete) ↔ (all_installed after.aux_phase_info ≡ true)
unfolding mark_complete write_info
mark_complete-deployed cfg main_info i a k h = (λ e. ground arith, λ e. ground arith)
mark_complete-deployed cfg (aux_info n) i a k h = (λ e. ground arith, λ e. ground arith)
