-- ===== src/AppFramework/Types.antt =====
-- api/v4/common_types.go and pkg/splunk/enterprise/types.go: the deployment status of an app
-- package, and the workers and queues of the pipeline.
use splunk_operator_mirror_d.Prelude.{String, ℕ, Option, List, Bool}

-- `AppPhaseType`: the three constants, and any other text.
pub data AppPhase : Type 0 where
  download pod_copy install : AppPhase
  other_phase : String → AppPhase

-- `FailCount` is an uint32.
pub record PhaseInfo : Type 0 where
  pub phase : AppPhase
  pub status : ℕ
  pub fail_count : ℕ

-- `AppRepoState`; `repo_unset` is Go's zero value.
pub data RepoState : Type 0 where
  repo_unset active deleted passive : RepoState

-- `AppDeploymentStatus`; `deploy_unset` is Go's zero value.
pub data DeployStatus : Type 0 where
  deploy_unset deploy_pending deploy_in_progress deploy_complete deploy_error : DeployStatus

-- `LastModifiedTime` is never read or written: it is left out. `Size` is an uint64.
pub record AppDeploymentInfo : Type 0 where
  pub app_name : String
  pub object_hash : String
  pub is_update : Bool
  pub size : ℕ
  pub repo_state : RepoState
  pub deploy_status : DeployStatus
  pub top_folder : String
  pub phase_info : PhaseInfo
  pub aux_phase_info : List PhaseInfo

-- `Kind` of a custom resource: the kinds that the scheduler tells apart, and any other.
pub data Kind : Type 0 where
  standalone ingestor_cluster cluster_manager cluster_master search_head_cluster : Kind
  other_kind : String → Kind

-- What all workers of one pipeline share: the custom resource's kind, `*sts.Spec.Replicas` (none
-- for a nil `sts`) and the `AppFrameworkSpec`. `app_sources` are the names and the scopes.
pub record Config : Type 0 where
  pub kind : Kind
  pub replicas : Option ℕ
  pub max_retries : ℕ
  pub default_scope : String
  pub app_sources : List (String × String)

-- `PipelineWorker`. `app` is the place of its `appDeployInfo` among `apps`; `ordinal` is the number
-- at the end of `targetPodName`; `has_waiter` tells whether `waiter` is not nil.
pub record Worker : Type 0 where
  pub app : ℕ
  pub app_src : String
  pub ordinal : ℕ
  pub fan_out : Bool
  pub is_active : Bool
  pub has_waiter : Bool

-- `AppInstallPipeline`: workers and apps are shared through pointers, so each is a place in a list;
-- the queues hold places of workers.
pub record Pipeline : Type 0 where
  pub apps : List AppDeploymentInfo
  pub workers : List Worker
  pub download_q : List ℕ
  pub pod_copy_q : List ℕ
  pub install_q : List ℕ
