-- ===== src/AppFramework/Pipeline/Running.antt =====
-- What the workers of afwscheduler.go do when they run: the download, the copy to a pod, and the
-- installation. The remote storage, the files and the commands on a pod are outside the repository:
-- their results are arguments.
use splunk_operator_mirror_d.AppFramework.Status
use Prim.Native.Char.{code}
use splunk_operator_mirror_d.AppFramework.Pipeline.Managers.{set_status}
use splunk_operator_mirror_d.AppFramework.Pipeline.{
  write_info, read_info, AppDeploymentInfo, Option, Config, PhaseRef, not,
}
use splunk_operator_mirror_d.AppFramework.Phases.{
  scope_of, is_cluster_scoped, is_fan_out_kind, all_installed, contains, codes,
}
use splunk_operator_mirror_d.AppFramework.Types.{
  deploy_complete, install, PhaseInfo, Worker, AppDeploymentInfo, Config,
}
use splunk_operator_mirror_d.Prelude.{
  ◌>>=◌, true, false, none, some, ℕ, Bool, String, ◌+◌, Option, if◌then◌else◌, ◌%◌, ◌&&◌, ltb, not,
  str_eq, ◌^◌, ◌-◌, ◌==◌, ◌||◌,
}

-- a retry is counted in an uint32
abbrev pub count_failure : PhaseInfo → PhaseInfo
count_failure i = record i { fail_count = (i.fail_count + 1) % 2 ^ 32 }

-- `updatePplnWorkerPhaseInfo`
unfoldable pub update_main : ℕ → ℕ → AppDeploymentInfo → AppDeploymentInfo
update_main failures status a = record a {
  phase_info = record a.phase_info { fail_count = failures; status = status };
}

-- a failed attempt is counted
abbrev pub fail_main : ℕ → AppDeploymentInfo → AppDeploymentInfo
unfolding update_main
fail_main status a = update_main ((a.phase_info.fail_count + 1) % 2 ^ 32) status a

-- `download`: whether the remote key is found, and whether the package arrives
unfoldable pub download_app : Bool → Bool → AppDeploymentInfo → AppDeploymentInfo
unfolding update_main
download_app has_key arrives a =
    if has_key && arrives
    then update_main 0 Status.download_complete a
    else fail_main Status.download_pending a

-- What `downloadWorkerHandler` finds when it takes up a worker.
pub record Download : Type 0 where
  pub is_downloaded : Bool
  pub has_volume : Bool
  pub has_dir : Bool
  pub has_client : Bool
  pub has_key : Bool
  pub arrives : Bool

-- `reserveStorage` (util.go), on the free space of the operator's volume, if one is configured
unfoldable pub reserve_storage : Bool → ℕ → ℕ → Option ℕ
reserve_storage false size free = none
reserve_storage true size free = if ltb free size then none else some (free - size)

-- One worker in `downloadWorkerHandler`, with the free space, up to the end of its download. A
-- missing directory or client leaves the worker active.
unfoldable pub handle_download :
    Download → Worker → AppDeploymentInfo → ℕ → Worker × AppDeploymentInfo × ℕ
unfolding reserve_storage download_app
handle_download d w a free =
    if d.is_downloaded
    then (w, update_main 0 Status.download_complete a, free)
    else elim (reserve_storage d.has_volume a.size free) [
      | none ↦ (record w { is_active = false }, a, free)
      | some left ↦
          let begun = update_main a.phase_info.fail_count Status.download_in_progress a in
          if not d.has_dir
          then (w, fail_main Status.download_pending begun, left)
          else if not d.has_client
          then (w, fail_main Status.download_error begun, left)
          else (record w { is_active = false }, download_app d.has_key d.arrives begun, left)
    ]

-- What a copy finds: the package on the operator, the copy, and the commands that extract it.
pub record Copy : Type 0 where
  pub exists_locally : Bool
  pub is_copied : Bool
  pub is_extracted : Bool

-- `runPodCopyWorker` and `extractClusterScopedAppOnPod`, on the phase info of the worker. A kind
-- without a place for cluster-wide apps extracts nothing, and that is no error.
unfoldable pub copy_to_pod : Config → String → Copy → PhaseInfo → PhaseInfo
unfolding scope_of is_cluster_scoped
copy_to_pod cfg src c i =
    if not c.exists_locally
    then set_status Status.missing_from_operator i
    else if not c.is_copied
    then count_failure i
    else if str_eq (scope_of cfg src) "cluster" && is_cluster_scoped cfg.kind && not c.is_extracted
    then count_failure i
    else set_status Status.pod_copy_complete i

-- The result of `RunPodExecCommand`; `error` is its error's text.
pub record Exec : Type 0 where
  pub std_out : String
  pub std_err : String
  pub error : Option String

-- A text that is found, or an error.
pub data Checked {ℓ} (A : Type ℓ) : Type ℓ where
  is_fine : A → Checked A
  has_error : Checked A

-- what follows the test of `stdErr` in `isAppAlreadyInstalled`
abbrev installed_by : String → Option String → Checked Bool
installed_by out none = if str_eq out "" then has_error else is_fine true
installed_by out (some e) =
    if contains (codes e) (codes "exit status 1")
      || contains (codes e) (codes "command terminated with exit code 1")
    then is_fine false
    else has_error

-- `isAppAlreadyInstalled`
unfoldable pub is_app_installed : Exec → Checked Bool
is_app_installed r =
    if contains (codes r.std_err) (codes "Could not find object")
    then is_fine false
    else installed_by r.std_out r.error

-- `strings.Trim(s, "\n")`: at the start, and at the end
abbrev trim_start : String → String
trim_start String.[] = ""
trim_start (String.◌∷◌ c s) = if code c == 10 then trim_start s else String.◌∷◌ c s

abbrev trim_end : String → String
trim_end String.[] = ""
trim_end (String.◌∷◌ c s) =
    let rest = trim_end s in if code c == 10 && str_eq rest "" then "" else String.◌∷◌ c rest

-- `getAppTopFolderFromPackage`: without an output, an error is returned, though without its text
unfoldable pub top_folder : Exec → Checked String
top_folder r =
    if str_eq r.std_out ""
    then elim r.error [
      | some e ↦ has_error
      | none ↦ is_fine (
          if str_eq r.std_err ""
          then ""
          else "Empty app package name, could not get installed app name")
    ]
    else is_fine (trim_end (trim_start r.std_out))

-- What an installation finds on the pod.
pub record Install : Type 0 where
  pub exists_on_pod : Bool
  pub lists_folder : Exec
  pub lists_app : Exec
  pub is_installed : Bool

-- the last command of `installApp`, with the Boolean telling whether there was no error
abbrev pub run_install : Install → PhaseInfo → PhaseInfo × Bool
run_install x i = if x.is_installed then (i, true) else (count_failure i, false)

-- `installApp` after the top folder is known
unfoldable pub install_known : Install → Bool → PhaseInfo → PhaseInfo × Bool
unfolding is_app_installed
install_known x true i = run_install x i
install_known x false i = elim (is_app_installed x.lists_app) [
  | has_error ↦ (i, false)
  | is_fine true ↦ (i, true)
  | is_fine false ↦ run_install x i
]

-- `installApp`, on the package's top folder and the phase info
unfoldable pub install_app : Install → Bool → String → PhaseInfo → String × PhaseInfo × Bool
unfolding top_folder install_known
install_app x is_update folder i =
    if not x.exists_on_pod
    then (folder, set_status Status.missing_on_pod i, false)
    else if str_eq folder ""
    then elim (top_folder x.lists_folder) [
      | has_error ↦ (folder, i, false)
      | is_fine name ↦ let (tried, ok) = install_known x is_update i in (name, tried, ok)
    ]
    else let (tried, ok) = install_known x is_update i in (folder, tried, ok)

-- `markWorkerPhaseInstallationComplete`, with `ref` the phase info that it is given
unfoldable pub mark_complete : Config → PhaseRef → PhaseInfo → AppDeploymentInfo → AppDeploymentInfo
unfolding write_info is_fan_out_kind all_installed
mark_complete cfg ref i a =
    let marked = write_info ref (record i { status = Status.install_complete; fail_count = 0 }) a in
    if is_fan_out_kind cfg.kind && all_installed marked.aux_phase_info
    then record marked {
      phase_info = record marked.phase_info { phase = install; status = Status.install_complete };
      deploy_status = deploy_complete;
    }
    else marked

-- `runPlaybook` of a local app, on an app package; the clean-up changes neither
unfoldable pub run_playbook :
    Config → Install → PhaseRef → AppDeploymentInfo → Option AppDeploymentInfo
unfolding read_info write_info install_app mark_complete
run_playbook cfg x ref a = do
  i ← read_info ref a
  let (folder, tried, ok) = install_app x a.is_update a.top_folder i
  let named = record a { top_folder = folder }
  (if ok then some (mark_complete cfg ref tried named) else some (write_info ref tried named))
