-- ===== src/AppFramework/Pipeline/Retries.antt =====
-- Workers that are tried again.
use splunk_operator_mirror_d.AppFramework.Queue.{delete_worker}
use splunk_operator_mirror_d.AppFramework.Status
use splunk_operator_mirror_d.AppFramework.Phases.{is_fan_out_kind}
use splunk_operator_mirror_d.AppFramework.Types.{
  Config, Worker, AppDeploymentInfo, PhaseInfo, Pipeline, AppPhase,
}
use splunk_operator_mirror_d.AppFramework.Pipeline.{
  Config, ℕ, Worker, AppDeploymentInfo, PhaseInfo, Pipeline, AppPhase, is_fan_out_kind, get_elem?,
  Bool, delete_worker, set,
}
use splunk_operator_mirror_d.Prelude.{ℕ, get_elem?, Bool, set}
