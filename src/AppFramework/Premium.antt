-- ===== src/AppFramework/Premium.antt =====
-- The playbook of a premium app: `premiumAppScopePlaybookContext` of afwscheduler.go. On a deployer
-- it ends by asking for a bundle push.
pub mod Pushed
use splunk_operator_mirror_d.AppFramework.Bundle.{is_failed}
use splunk_operator_mirror_d.AppFramework.Pipeline.{write_info, read_info, PhaseRef}
use splunk_operator_mirror_d.AppFramework.Pipeline.Running.{
  Exec, mark_complete, install_app, count_failure, Install,
}
use splunk_operator_mirror_d.AppFramework.Types.{
  search_head_cluster, Kind, PhaseInfo, Config, AppDeploymentInfo,
}
use splunk_operator_mirror_d.AppFramework.Deployment.Changes.{push_pending, BundleStage}
use splunk_operator_mirror_d.Prelude.{
  some, true, false, String, if◌then◌else◌, Bool, not, str_eq, Option,
}
use splunk_operator_mirror_d.Prelude.{◌>>=◌}
use Prim.Native.String.{◌++◌ as text_append, String}

-- `PremiumAppsProps`: the type, and the ssl enablement of its defaults
pub record Premium : Type 0 where
  pub app_type : String
  pub ssl : String

-- What the commands after the installation answer: the one that follows it for an enterprise
-- security app, and the removal of the package from the pod.
pub record After : Type 0 where
  pub post_install : Exec
  pub clean_up : Exec

-- `getSslCliOption`
unfoldable pub ssl_option : Premium → String
ssl_option s = if not (str_eq s.ssl "") then s.ssl else "strict"

abbrev pub is_search_head_cluster : Kind → Bool
is_search_head_cluster search_head_cluster = true
is_search_head_cluster _ = false

-- the command of `handleEsappPostinstall`
unfoldable pub post_install_command : Kind → Premium → String
unfolding ssl_option
post_install_command kind s =
    let begun : String =
      text_append "/opt/splunk/bin/splunk search '| essinstall --ssl_enablement " (ssl_option s) in
    let login : String = "' -auth admin:`cat /mnt/splunk-secrets/password`" in
    if not (is_search_head_cluster kind)
    then text_append begun login
    else text_append begun (text_append " --deployment_type shc_deployer" login)

-- `handleEsappPostinstall`, on the answer to that command
unfoldable pub post_install_es : After → PhaseInfo → PhaseInfo × Bool
post_install_es after i =
    if is_failed after.post_install then (count_failure i, false) else (i, true)

-- the branch for the type of the app
abbrev pub post_install : Premium → After → PhaseInfo → PhaseInfo × Bool
post_install s after i =
    if str_eq s.app_type "enterpriseSecurity" then post_install_es after i else (i, true)

-- `runPlaybook` from the end of the installation on
unfoldable pub finish_premium :
    Config
    → Premium
    → After
    → PhaseRef
    → AppDeploymentInfo
    → PhaseInfo × Bool
    → BundleStage
    → AppDeploymentInfo × BundleStage
unfolding write_info mark_complete
finish_premium cfg s after ref a (i, ok) stage =
    if not ok
    then (write_info ref i a, stage)
    else if is_failed after.clean_up
    then (mark_complete cfg ref i a, stage)
    else if is_search_head_cluster cfg.kind
    then (mark_complete cfg ref i a, push_pending)
    else (mark_complete cfg ref i a, stage)

-- `runPlaybook`: the app package and the stage of the bundle push
unfoldable pub run_premium :
    Config
    → Premium
    → Install
    → After
    → PhaseRef
    → AppDeploymentInfo
    → BundleStage
    → Option (AppDeploymentInfo × BundleStage)
unfolding read_info write_info install_app post_install_es finish_premium
run_premium cfg s x after ref a stage = do
  i ← read_info ref a
  let (folder, tried, ok) = install_app x a.is_update a.top_folder i
  let named = record a { top_folder = folder }
  (if ok
      then some (finish_premium cfg s after ref named (post_install s after tried) stage)
      else some (write_info ref tried named, stage))
