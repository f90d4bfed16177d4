-- ===== src/AppFramework/Bundle.antt =====
-- The bundle push of afwscheduler.go: how a deployer or a cluster manager hands the cluster-wide
-- apps on. What the commands on the pods answer is an argument; a push keeps the log of the
-- commands, the newest first.
pub mod SearchHeads
pub mod Indexers
pub mod Loop
pub mod Moves
pub mod Marked
pub mod Rounds
mod Scenarios
use splunk_operator_mirror_d.AppFramework.Pipeline.Running.{Exec}
use splunk_operator_mirror_d.Prelude.{
  true, false, [], zero, ◌∷◌, suc, List, String, Bool, ℕ, Option, ◌||◌, ◌++◌, if◌then◌else◌, not,
  str_eq,
}
use splunk_operator_mirror_d.Api.{error}
use splunk_operator_mirror_d.AppFramework.Types.{
  ingestor_cluster, search_head_cluster, cluster_master, standalone, other_kind, cluster_manager,
  Kind, Config,
}
use splunk_operator_mirror_d.AppFramework.PodNames.{full_name}
use splunk_operator_mirror_d.AppFramework.Phases.{codes, contains, is_cluster_scoped}
use splunk_operator_mirror_d.AppFramework.Deployment.Changes.{
  is_some, push_complete, push_in_progress, push_uninitialized, push_pending, Deployment,
  BundleStage, set_cluster_installed,
}

-- `livenessProbeLevelDefault` and `livenessProbeLevelOne`
pub data ProbeLevel : Type 0 where
  level_default level_one : ProbeLevel

-- The commands that are run on pods; a probe level is set on the pod of that name.
pub data Command : Type 0 where
  set_permissions apply_bundle show_status read_status remove_status : Command
  set_probe : ProbeLevel → List ℕ → Command

-- The part of `AppDeploymentContext` that a push reads and writes, and the log.
pub record Push : Type 0 where
  pub deployment : Deployment
  pub retry_count : ℕ
  pub log : List Command

-- An owner reference of the cluster manager's stateful set. `replicas` are those of the indexer
-- cluster; none when it or its stateful set cannot be fetched.
pub record Owner : Type 0 where
  pub kind : String
  pub name : String
  pub replicas : Option ℕ

-- What a run of a playbook meets. `replicas` is none when the search heads' stateful set cannot be
-- fetched, `owners` when the cluster manager's cannot; `is_probe_set` is by the pod's name.
pub record Answers : Type 0 where
  pub is_ready : Bool
  pub replicas : Option ℕ
  pub owners : Option (List Owner)
  pub is_probe_set : List ℕ → Bool
  pub permissions : Exec
  pub applied : Exec
  pub status : Exec
  pub removal : Exec

-- `err != nil || stdErr != ""`
unfoldable pub is_failed : Exec → Bool
is_failed r = is_some r.error || not (str_eq r.std_err "")

abbrev pub says : String → String → Bool
says text part = contains (codes text) (codes part)

-- the same for a part that ends its line
abbrev pub says_line : String → String → Bool
says_line text part = contains (codes text) (codes part ++ (10 ∷ []))

abbrev pub issue : Command → Push → Push
issue c p = record p { log = c ∷ p.log }

-- `setBundlePushState`
abbrev pub set_stage : BundleStage → Push → Push
set_stage stage p = record p { deployment = record p.deployment { bundle_stage = stage } }

-- `getApplicablePodNameForK8Probes`: a kind that it does not list has no pod type
abbrev probe_pod_type : Kind → String
probe_pod_type standalone = "standalone"
probe_pod_type search_head_cluster = "search-head"
probe_pod_type cluster_master = "cluster-master"
probe_pod_type cluster_manager = "cluster-manager"
probe_pod_type ingestor_cluster = "ingestor"
probe_pod_type (other_kind kind) =
    if str_eq kind "LicenseMaster"
    then "license-master"
    else if str_eq kind "IndexerCluster"
    then "indexer"
    else if str_eq kind "MonitoringConsole"
    then "monitoring-console"
    else ""

unfoldable pub get_probe_pod_name : Kind → String → ℕ → List ℕ
unfolding full_name
get_probe_pod_name kind name ordinal = full_name name (probe_pod_type kind) ordinal

-- `setProbeLevelOnCRPods` for `k` more replicas from `n` on: the first error ends it
unfoldable pub set_probes :
    (List ℕ → Bool) → ProbeLevel → Kind → String → ℕ → ℕ → Push → Push × Bool
unfolding get_probe_pod_name
set_probes is_set level kind name n zero p = (p, true)
set_probes is_set level kind name n (suc k) p =
    let pod = get_probe_pod_name kind name n in
    let rest = set_probes is_set level kind name (suc n) k (issue (set_probe level pod) p) in
    if is_set pod then rest else (issue (set_probe level pod) p, false)

-- `getClusterScopedAppsLocOnPod`
unfoldable pub apps_location : Kind → String
apps_location cluster_manager = "/opt/splunk/etc/manager-apps/"
apps_location cluster_master = "/opt/splunk/etc/manager-apps/"
apps_location search_head_cluster = "/opt/splunk/etc/shcluster/apps/"
apps_location _ = ""

-- `adjustClusterAppsFilePermissions`; the Boolean tells, here and below, that there was no error
unfoldable pub adjust_permissions : Kind → Answers → Push → Push × Bool
unfolding apps_location
adjust_permissions kind a p =
    if str_eq (apps_location kind) ""
    then (p, false)
    else (issue set_permissions p, not (is_failed a.permissions))

-- what both playbooks do once the push is known to be complete, but for the probes
unfoldable pub complete_push : Config → Push → Push
unfolding set_cluster_installed
complete_push cfg p =
    let marked = set_stage push_complete p in
    record marked { deployment = set_cluster_installed cfg marked.deployment; retry_count = 0 }

-- `isPendingClusterScopeWork`
unfoldable pub is_pending_cluster_work : Kind → BundleStage → Bool
unfolding is_cluster_scoped
is_pending_cluster_work kind stage = if not (is_cluster_scoped kind) then false else elim stage [
  | push_complete ↦ false
  | push_uninitialized ↦ false
  | push_pending ↦ true
  | push_in_progress ↦ true
]

-- `checkIfBundlePushIsDone`
unfoldable pub is_push_done : Kind → BundleStage → Bool
unfolding is_cluster_scoped
is_push_done kind stage = not (is_cluster_scoped kind) || (elim stage [
  | push_complete ↦ true
  | push_uninitialized ↦ false
  | push_pending ↦ false
  | push_in_progress ↦ false
])
