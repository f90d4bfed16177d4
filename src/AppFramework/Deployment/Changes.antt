-- ===== src/AppFramework/Deployment/Changes.antt =====
-- `handleAppRepoChanges` and `setInstallStateForClusterScopedApps` of util.go: all app sources of a
-- custom resource.
use splunk_operator_mirror_d.AppFramework.Phases.{scope_of, is_pod_copy}
use splunk_operator_mirror_d.AppFramework.Deployment.{
  mark_missing, RemoteObject, add_or_update, Bool, map, str_eq, not, all_of, is_pod_copy, set_state,
}
use splunk_operator_mirror_d.AppFramework.Types.{
  install, deploy_pending, deleted, Config, AppDeploymentInfo,
}
use splunk_operator_mirror_d.Prelude.{
  false, some, ◌∷◌, true, none, [], List, String, Option, if◌then◌else◌, Bool, map, str_eq, not,
  ◌&&◌, all_of, ◌||◌, ◌==◌,
}
use splunk_operator_mirror_d.AppFramework.Status

-- `BundlePushStageType`
pub data BundleStage : Type 0 where
  push_uninitialized push_pending push_in_progress push_complete : BundleStage

-- `AppDeploymentContext`: `AppsSrcDeployStatus`, and the stage of `BundlePushStatus`
pub record Deployment : Type 0 where
  pub sources : List (String × List AppDeploymentInfo)
  pub bundle_stage : BundleStage

-- Go's map: the entry under a key, and the map with an entry written
abbrev pub look {ℓ} : {A : Type ℓ} → String → List (String × A) → Option A
look k [] = none
look k ((n, v) ∷ m) = if str_eq n k then some v else look k m

abbrev pub put {ℓ} : {A : Type ℓ} → String → A → List (String × A) → List (String × A)
put k v [] = (k, v) ∷ []
put k v ((n, u) ∷ m) = if str_eq n k then (n, v) ∷ m else (n, u) ∷ put k v m

abbrev pub is_some {ℓ} : {A : Type ℓ} → Option A → Bool
is_some none = false
is_some (some a) = true

-- `CheckIfAppSrcExistsInConfig`
abbrev pub in_config : Config → String → Bool
in_config cfg src = is_some (look src cfg.app_sources)

abbrev pub apps_of : Option (List AppDeploymentInfo) → List AppDeploymentInfo
apps_of none = []
apps_of (some apps) = apps

-- step 1: the sources that the configuration or the listing does not have
unfoldable pub drop_sources :
    Config
    → List (String × List RemoteObject)
    → List (String × List AppDeploymentInfo)
    → List (String × List AppDeploymentInfo)
drop_sources cfg remote [] = []
drop_sources cfg remote ((src, apps) ∷ rest) =
    (if not (in_config cfg src) || not (is_some (look src remote))
      then (src, map (set_state deleted deploy_pending) apps)
      else (src, apps))
    ∷ drop_sources cfg remote rest

-- step 2, for one source of the listing; the Boolean is `appsModified`
unfoldable pub take_listing : Config → String → List RemoteObject → Deployment → Deployment × Bool
unfolding mark_missing add_or_update scope_of
take_listing cfg src os d =
    let (apps, modified) = add_or_update os (mark_missing os (apps_of (look src d.sources))) in
    let stage : BundleStage =
      if modified && str_eq (scope_of cfg src) "cluster" then push_pending else d.bundle_stage in
    (record d { sources = put src apps d.sources; bundle_stage = stage }, modified)

unfoldable pub take_listings :
    Config → List (String × List RemoteObject) → Deployment × Bool → Deployment × Bool
unfolding take_listing
take_listings cfg [] w = w
take_listings cfg ((src, os) ∷ rest) (d, modified) =
    take_listings cfg rest (take_listing cfg src os d)

-- `handleAppRepoChanges`; `none` is the error on a source that the configuration does not have
unfoldable pub handle_changes :
    Config → List (String × List RemoteObject) → Deployment → Option (Deployment × Bool)
unfolding drop_sources take_listings
handle_changes cfg remote d =
    if all_of (λ (src, os). in_config cfg src) remote
    then some
        (take_listings cfg remote (record d { sources = drop_sources cfg remote d.sources }, false))
    else none

-- one round of `setInstallStateForClusterScopedApps`
unfoldable pub set_installed : AppDeploymentInfo → AppDeploymentInfo
set_installed a =
    if is_pod_copy a.phase_info.phase && a.phase_info.status == Status.pod_copy_complete
    then record a {
      phase_info = record a.phase_info { phase = install; status = Status.install_complete };
    }
    else a

unfoldable pub set_cluster_installed : Config → Deployment → Deployment
unfolding set_installed scope_of
set_cluster_installed cfg d = record d {
  sources =
      map
        (λ (src, apps).
          if str_eq (scope_of cfg src) "cluster"
          then (src, map set_installed apps)
          else (src, apps))
        d.sources;
}
