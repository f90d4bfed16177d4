-- ===== src/AppFramework/Deployment.antt =====
-- The deployment status of the app sources in util.go: what a listing of the remote storage and a
-- change of the replicas make of it. Go's maps are association lists; the order in which a map is
-- traversed is the order of its list.
pub mod Changes
pub mod Listing
pub mod Sources
pub mod Replicas
mod Scenarios
use Prim.Native.Char.{code}
use splunk_operator_mirror_d.AppFramework.Phases.{scope_of, is_pod_copy, codes}
use splunk_operator_mirror_d.AppFramework.Types.{
  install, download, pod_copy, passive, deploy_pending, deleted, repo_unset, deploy_complete,
  active, AppDeploymentInfo, RepoState, Config, DeployStatus, PhaseInfo,
}
use splunk_operator_mirror_d.Prelude.{
  some, ◌∷◌, none, false, [], true, String, List, Option, if◌then◌else◌, ℕ, Bool, not, str_eq, map,
  ◌==◌, ◌||◌, ◌&&◌, ◌++◌, any_of, all_of, replicate, ltb, ◌-◌, length, take,
}
use splunk_operator_mirror_d.AppFramework.Status

-- `RemoteObject`: the fields that are read
pub record RemoteObject : Type 0 where
  pub key : String
  pub etag : String

-- `strings.HasSuffix`, on code points
abbrev pub equal_codes : List ℕ → List ℕ → Bool
equal_codes [] [] = true
equal_codes [] (d ∷ t) = false
equal_codes (c ∷ s) [] = false
equal_codes (c ∷ s) (d ∷ t) = c == d && equal_codes s t

abbrev pub ends_with : List ℕ → List ℕ → Bool
ends_with [] t = equal_codes [] t
ends_with (c ∷ s) t = equal_codes (c ∷ s) t || ends_with s t

-- `isAppExtensionValid`
unfoldable pub has_app_extension : String → Bool
has_app_extension key =
    ends_with (codes key) (codes ".spl")
    || (ends_with (codes key) (codes ".tgz") || ends_with (codes key) (codes ".tar.gz"))

-- the text after the last "/"
abbrev has_slash : String → Bool
has_slash String.[] = false
has_slash (String.◌∷◌ c s) = code c == 47 || has_slash s

abbrev pub base_name : String → String
base_name String.[] = ""
base_name (String.◌∷◌ c s) = if has_slash (String.◌∷◌ c s) then base_name s else String.◌∷◌ c s

abbrev pub is_deleted : AppDeploymentInfo → Bool
is_deleted a = elim a.repo_state [
  | deleted ↦ true
  | repo_unset ↦ false
  | active ↦ false
  | passive ↦ false
]

-- the update of an app that is known, whose hash has changed or that was deleted
abbrev pub revive : AppDeploymentInfo → RepoState
revive a = if is_deleted a then active else a.repo_state

abbrev pub updated_app : String → AppDeploymentInfo → AppDeploymentInfo
updated_app etag a = record a {
  object_hash = etag;
  is_update = true;
  repo_state = revive a;
  deploy_status = deploy_pending;
  phase_info = record { phase = download; status = Status.download_pending; fail_count = 0 };
  aux_phase_info = [];
}

abbrev pub is_current : String → AppDeploymentInfo → Bool
is_current etag a = str_eq a.object_hash etag && not (is_deleted a)

-- the inner loop, on the first app of that name; `none` when there is none
unfoldable pub refresh_app :
    String → String → List AppDeploymentInfo → Option (List AppDeploymentInfo × Bool)
refresh_app name etag [] = none
refresh_app name etag (a ∷ rest) =
    if str_eq a.app_name name
    then (if is_current etag a
        then some (a ∷ rest, false)
        else some (updated_app etag a ∷ rest, true))
    else elim (refresh_app name etag rest) [
      | none ↦ none
      | some (rest', changed) ↦ some (a ∷ rest', changed)
    ]

abbrev pub new_app : String → String → AppDeploymentInfo
new_app name etag = record {
  app_name = name;
  object_hash = etag;
  is_update = false;
  size = 0;
  repo_state = active;
  deploy_status = deploy_pending;
  top_folder = "";
  phase_info = record { phase = download; status = Status.download_pending; fail_count = 0 };
  aux_phase_info = [];
}

-- The apps that are known, the new ones, and whether there was a change.
pub record Scan : Type 0 where
  pub known : List AppDeploymentInfo
  pub added : List AppDeploymentInfo
  pub changed : Bool

-- one round of the outer loop, given the inner loop's result
unfoldable pub scan_found : RemoteObject → Scan → Option (List AppDeploymentInfo × Bool) → Scan
scan_found o s none = record s {
  added = s.added ++ (new_app (base_name o.key) o.etag ∷ []);
  changed = true;
}
scan_found o s (some (known', changed')) = record s {
  known = known';
  changed = s.changed || changed';
}

unfoldable pub scan_object : RemoteObject → Scan → Scan
unfolding has_app_extension refresh_app scan_found
scan_object o s =
    if not (has_app_extension o.key)
    then s
    else scan_found o s (refresh_app (base_name o.key) o.etag s.known)

unfoldable pub scan_objects : List RemoteObject → Scan → Scan
unfolding scan_object
scan_objects [] s = s
scan_objects (o ∷ os) s = scan_objects os (scan_object o s)

-- `AddOrUpdateAppSrcDeploymentInfoList`
unfoldable pub add_or_update :
    List RemoteObject → List AppDeploymentInfo → List AppDeploymentInfo × Bool
unfolding scan_objects
add_or_update os apps =
    let s = scan_objects os (record { known = apps; added = []; changed = false }) in
    (s.known ++ s.added, s.changed)

-- `setStateAndStatusForAppDeployInfo`
abbrev pub set_state : RepoState → DeployStatus → AppDeploymentInfo → AppDeploymentInfo
set_state state status a = record a { repo_state = state; deploy_status = status }

-- `checkIfAnAppIsActiveOnRemoteStore`: a key that ends in the app's name
unfoldable pub is_on_remote : String → List RemoteObject → Bool
is_on_remote name os = any_of (λ o. ends_with (codes o.key) (codes name)) os

-- the loop of step 2.1 of `handleAppRepoChanges`
unfoldable pub mark_missing : List RemoteObject → List AppDeploymentInfo → List AppDeploymentInfo
unfolding is_on_remote
mark_missing os [] = []
mark_missing os (a ∷ rest) =
    (if not (is_deleted a) && not (is_on_remote a.app_name os)
      then set_state deleted deploy_complete a
      else a)
    ∷ mark_missing os rest
