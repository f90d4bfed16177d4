-- ===== src/AppFramework/Entry.antt =====
-- The scheduler's entry of afwscheduler.go, and the times of util.go at which a custom resource is
-- looked at again. Times are seconds; the results of what runs in between are arguments.
pub mod Requeue
pub mod Workers
mod Scenarios
use splunk_operator_mirror_d.AppFramework.Pipeline.Interleaving.{create_worker, join_worker}
use splunk_operator_mirror_d.AppFramework.Phases.{is_eligible}
use splunk_operator_mirror_d.AppFramework.Bundle.{is_pending_cluster_work}
use splunk_operator_mirror_d.AppFramework.Types.{Pipeline, Config, Kind, AppDeploymentInfo}
use splunk_operator_mirror_d.AppFramework.Deployment.Changes.{Deployment}
use splunk_operator_mirror_d.Prelude.{
  some, ◌∷◌, false, [], none, suc, true, Bool, List, ℕ, Option, ◌&&◌, if◌then◌else◌, not, String,
  leb, ◌||◌, ltb, ◌+◌, ◌==◌, ◌>>=◌, ◌-◌, length,
}

-- The part of `AppDeploymentContext` that is read and written here. `has_sources` tells whether
-- `AppsSrcDeployStatus` is not nil.
pub record Context : Type 0 where
  pub deployment : Deployment
  pub has_sources : Bool
  pub in_progress : Bool
  pub last_check : ℕ
  pub poll_interval : ℕ

-- `reconcile.Result`; no time is `maxRecDuration`
pub record Result : Type 0 where
  pub requeue : Bool
  pub requeue_after : Option ℕ

-- `isPipelineEmpty`
abbrev pub is_empty : List ℕ → Bool
is_empty [] = true
is_empty (id ∷ ids) = false

unfoldable pub is_pipeline_empty : Pipeline → Bool
is_pipeline_empty p = is_empty p.download_q && (is_empty p.pod_copy_q && is_empty p.install_q)

-- `checkAndUpdateAppFrameworkProgressFlag`
unfoldable pub update_progress : Kind → Pipeline → Context → Context
unfolding is_pipeline_empty
update_progress kind p c =
    if is_pipeline_empty p && not (is_pending_cluster_work kind c.deployment.bundle_stage)
    then record c { in_progress = false }
    else c

-- `needToRevisitAppFramework`
unfoldable pub needs_revisit : Kind → Pipeline → Context → Bool
unfolding is_pipeline_empty
needs_revisit kind p c =
    not (is_pipeline_empty p)
    || (c.in_progress || is_pending_cluster_work kind c.deployment.bundle_stage)

-- one app package of the loop that creates the workers; its place is `app`
unfoldable pub enter_app : Config → String → ℕ → AppDeploymentInfo → Pipeline → Option Pipeline
unfolding is_eligible create_worker join_worker
enter_app cfg src app a p =
    if not (is_eligible cfg src a.phase_info)
    then some p
    else join_worker a.phase_info.phase (create_worker cfg app src 0) p

-- the app packages of one source, from the place `app` on
unfoldable pub enter_apps :
    Config → String → ℕ → List AppDeploymentInfo → Pipeline → Option Pipeline
unfolding enter_app
enter_apps cfg src app [] p = some p
enter_apps cfg src app (a ∷ rest) p = do
  entered ← enter_app cfg src app a p
  enter_apps cfg src (suc app) rest entered

-- all sources, until the directory of one cannot be made on the pods
unfoldable pub enter_sources :
    Config
    → (String → Bool)
    → ℕ
    → List (String × List AppDeploymentInfo)
    → Pipeline
    → Option Pipeline
unfolding enter_apps
enter_sources cfg has_dir app [] p = some p
enter_sources cfg has_dir app ((src, apps) ∷ rest) p =
    if not (has_dir src)
    then some p
    else (enter_apps cfg src app apps p
        >>= (λ entered. enter_sources cfg has_dir (app + length apps) rest entered))

-- The end of `afwSchedulerEntry`: `has_storage` tells that the storage is configured and was
-- measured, `p` is the pipeline when all managers have finished, and `c` the context then.
unfoldable pub leave_scheduler : Kind → Bool → Pipeline → Context → Context × Bool
unfolding update_progress needs_revisit
leave_scheduler kind has_storage p c =
    if not has_storage
    then (c, true)
    else (let left = update_progress kind p c in (left, needs_revisit kind p left))

-- `GetNextRequeueTime`
unfoldable pub next_requeue_time : ℕ → ℕ → ℕ → ℕ
next_requeue_time interval last now = if ltb (last + interval) now then 5 else last + interval - now

-- `HasAppRepoCheckTimerExpired`
unfoldable pub is_timer_expired : ℕ → Context → Bool
is_timer_expired now c = leb (c.last_check + c.poll_interval) now

-- `updateReconcileRequeueTime`: a time that is not positive is refused
abbrev pub sooner : ℕ → Option ℕ → Option ℕ
sooner time none = some time
sooner time (some other) = if ltb time other then some time else some other

unfoldable pub update_requeue_time : ℕ → Result → Result
update_requeue_time time r =
    if time == 0 then r else record { requeue = true; requeue_after = sooner time r.requeue_after }

abbrev pub idle : Result
idle = record { requeue = false; requeue_after = none }

-- the first step of `handleAppFrameworkActivity`: the next poll
unfoldable pub poll_requeue : ℕ → Context → Result
unfolding next_requeue_time update_requeue_time
poll_requeue now c =
    if c.poll_interval == 0
    then idle
    else update_requeue_time (next_requeue_time c.poll_interval c.last_check now) idle

-- `handleAppFrameworkActivity`, with what the scheduler's entry returns; `now` is the time before
-- that entry, at which the next poll is computed
unfoldable pub handle_activity : ℕ → Context → Bool → Result
unfolding poll_requeue update_requeue_time
handle_activity now c revisit =
    if c.has_sources && revisit
    then update_requeue_time 5 (poll_requeue now c)
    else poll_requeue now c
