-- ===== src/Lib.antt =====
-- The Splunk operator: the logic with which it rolls, scales and upgrades the pods of its
-- StatefulSets, and the pipeline with which it brings apps to them.
--
-- A reconcile of a custom resource ends in `UpdateStatefulSetPods`, which asks a pod manager before
-- it takes a pod away: `searchHeadClusterPodManager` for a search head cluster,
-- `indexerClusterPodManager` for an indexer cluster, `DefaultStatefulSetPodManager` for the rest.
-- The app framework runs next to this: three phase managers move workers between the queues of the
-- phases download, pod copy and install. A custom resource is upgraded only when
-- `UpgradePathValidation` lets it.
--
-- - `Prelude` (with Prelude/Tests, Prelude/Lists, Prelude/Refill, Prelude/Keys, Prelude/Integers,
--   Prelude/Sorting): shared names, no code.
-- - `Api`: api/v4/common_types.go (`Phase`), and what a call of the Kubernetes client gives back.
-- - `StatefulSet.Manager`: `StatefulSetPodManager` of pkg/splunk/common/types.go, a record of four
--   methods on a state of their own.
-- - `StatefulSet.Update`: `UpdateStatefulSetPods` of pkg/splunk/splkcontroller/statefulset.go. The
--   API server is a record of answers, one for each call; a reconcile gives its exit, the StatefulSet,
--   the manager's state and the log of its calls. The loop over the pods is by recursion on the
--   number of pods that are left. `Calls` is the vocabulary of the theorems on the log. Theorems:
--   Rolling, Readiness, Scaling, Convergence, Invariant.
-- - `SearchHead.Manager`, `SearchHead.Status`: pkg/splunk/enterprise/searchheadclusterpodmanager.go.
--   The state is the status of the custom resource with the requests that were sent to Splunk; Splunk's
--   answers are a record. `SearchHead.Reconcile` is `Update` of the same file, with the results of
--   `ApplyStatefulSet` and `ApplyShcSecret` as arguments. Theorems: Draining, Upgrade, in Status,
--   Reconcile/Fresh, Reconcile/Events.
-- - `Indexer.Manager`, `Indexer.Status`: the pod manager of pkg/splunk/enterprise/indexercluster.go, in
--   the same way; `Indexer.Reconcile` is its `Update`, without the scale events, and
--   `Indexer.Replication` its `verifyRFPeers`. Theorems: Decommission, in Status, Reconcile/Fresh,
--   Replication/Origin, Replication/Peers.
-- - `AppFramework.Status`, `AppFramework.Types`: the constants and records of api/v4/common_types.go
--   and pkg/splunk/enterprise/types.go. A pointer to a worker or to an app package is its place in a
--   list, so that those who share it see each other's writes.
-- - `AppFramework.Phases`, `AppFramework.Queue`, `AppFramework.Pipeline` with Transition, Managers and
--   Running: pkg/splunk/enterprise/afwscheduler.go; `reserveStorage` is from util.go, `getAppSrcScope`
--   from configuration.go. A phase manager's visit of one worker is one function; so is what a worker
--   does when it runs. A result of `none` is a run-time panic. Theorems: Queue/Deletion, Queue/Sweep,
--   Pipeline/FanOut, Pipeline/Retries, Pipeline/Downloads, Pipeline/Installs, Pipeline/Slots, and in
--   Phases. `Handler` is the install handler, `Pods` says which parts of a worker the visits keep, and
--   `Interleaving` is a step relation on what the install manager and its workers share. Theorems:
--   Pods/Installs, Interleaving/Safety.
-- - `AppFramework.Premium`, `AppFramework.Bundle` with Bundle/SearchHeads, Bundle/Indexers, Bundle/Loop:
--   the playbooks of afwscheduler.go that run commands on pods; what the commands answer is an argument.
--   Theorems: Premium/Pushed, Bundle/Moves, Bundle/Marked, Bundle/Rounds.
-- - `AppFramework.Entry`: `afwSchedulerEntry` of afwscheduler.go, and the times of the next reconcile of
--   util.go. Theorems: Entry/Requeue, Entry/Workers.
-- - `AppFramework.PodNames`: the names of the pods of afwscheduler.go, and the ordinal that is read back
--   from a name. Elsewhere a worker's pod is its ordinal. Theorem: PodNames/RoundTrip.
-- - `AppFramework.Deployment` with Deployment/Changes and Deployment/Replicas: the deployment status of
--   the app sources, of pkg/splunk/enterprise/util.go; Go's maps are association lists in the order of
--   their traversal. Theorems: Deployment/Listing, Deployment/Sources, and in Replicas.
-- - `AppFramework.Migration`: the migration of an older deployment status, of the same file. Theorems:
--   Migration/Resumed.
-- - `AppFramework.RepoCheck`: `initAndCheckAppInfoStatus` of the same file, which lists the remote storage
--   when a poll is due. Theorems: RepoCheck/Missed.
-- - `Upgrade`: `UpgradePathValidation` of pkg/splunk/enterprise/upgrade.go, one function for each of
--   its labels, the later ones first. Theorems: Order, Console.
-- - `Validation`, Validation/Volumes, Validation/Sources, Validation/Framework, Validation/Smartstore:
--   `ValidateAppFrameworkSpec` and `ValidateSplunkSmartstoreSpec` of
--   pkg/splunk/enterprise/configuration.go with all that they call, and `CheckIfVolumeExists` and
--   `GetAppSrcVolume` of pkg/splunk/client/util.go. A verdict is nil, an error or a panic; Go's maps of
--   duplicates are lists of their keys. Theorems: Volumes/Lookup, Volumes/Accepted, Sources/Accepted,
--   Sources/Whole, Sources/Resolve, Sources/Total, Smartstore/Indexes, and in Framework.
-- - `Merge`, Merge/Pod, Merge/Apply, Merge/Service: the sorting comparisons of pkg/splunk/common/util.go,
--   `MergePodUpdates` and `SortStatefulSetSlices` of pkg/splunk/splkcontroller/util.go, and
--   `ApplyStatefulSet` of pkg/splunk/splkcontroller/statefulset.go, whose result is what a reconcile
--   hands to `UpdateStatefulSetPods`; and `ApplyService` of pkg/splunk/splkcontroller/service.go with
--   `MergeServiceSpecUpdates`. The type of the fields that are only passed on, their comparisons
--   and `sort.Slice` are arguments; that the sort gives a rearrangement in ascending order, which need
--   not be stable, is a condition. A result of `none` is a panic. Theorems: Merge/Sorted,
--   Merge/Settled with its children, Apply/Created, Apply/Stable,
--   Service/Stable.
-- - `Owners`: the owner references of pkg/splunk/splkcontroller/statefulset.go and
--   pkg/splunk/enterprise/util.go, and `IsStatefulSetScalingUpOrDown`. Theorems: Owners/Cycle.
-- - The modules Scenarios hold one run for each theorem that has conditions.
--
-- Two loops of the code run on fuel. `push_loop` counts the rounds of a cluster's playbook and ends by
-- itself when the fuel is two more than the rounds that the retry interval allows; `migrate_versions`
-- needs two rounds, since there are two versions. The printing of a number counts down from the number
-- itself, which is more than its digits. Counts that Go keeps as int32 are not negative here, as the API
-- server keeps them; the retries wrap at 2 ^ 32.
--
-- Not modelled: the reconcilers of the single custom resources, the builders of Kubernetes objects, the
-- Splunk REST client, the clients of remote storages, secrets and commands on pods, which are mostly
-- input and output. Of the concurrent workers, only those of the install phase have a step relation.
pub mod Prelude
pub mod Api
pub mod StatefulSet
pub mod SearchHead
pub mod Indexer
pub mod AppFramework
pub mod Upgrade
pub mod Validation
pub mod Merge
pub mod Owners
