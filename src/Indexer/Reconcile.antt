-- ===== src/Indexer/Reconcile.antt =====
-- `Update` of the indexer cluster's pod manager: the status is read from the cluster manager, and
-- then the StatefulSet is brought on. What `ApplyStatefulSet` and `ApplyIdxcSecret` return are
-- arguments; the scale events at the end are left out.
pub mod Fresh
mod Scenarios
use splunk_operator_mirror_d.StatefulSet.Update.{
  exits, Exit, Server, StatefulSet, Call, update_pods,
}
use splunk_operator_mirror_d.Api.{pending, error, Phase, Err}
use splunk_operator_mirror_d.Prelude.{
  none, some, [], Bool, List, Option, ◌==◌, ◌||◌, ℕ, not, if◌then◌else◌,
}
use splunk_operator_mirror_d.Indexer.Manager.{Rest, Cluster, indexer_manager}
use splunk_operator_mirror_d.Indexer.Status.{update_status, is_ready}

-- How `Update` ends; `calls` are those of `UpdateStatefulSetPods`.
pub record Ending : Type 0 where
  pub exit : Exit
  pub cluster : Cluster
  pub calls : List Call

abbrev pub leave : Phase → Option Err → Cluster → Ending
leave p e s = record { exit = exits p e; cluster = s; calls = [] }

-- the cluster is not yet there
abbrev pub is_waiting : Cluster → Bool
is_waiting s =
    s.ready_replicas == 0 || (not s.initialized || (not s.indexing_ready || not s.service_ready))

unfoldable pub after_status : Rest → Server → StatefulSet → ℕ → Cluster × Option Err → Ending
after_status rest server sts desired (s, some e) = leave pending none s
after_status rest server sts desired (s, none) =
    let o = update_pods server (indexer_manager rest) sts desired s in
    if is_waiting s
    then leave pending none s
    else record { exit = o.exit; cluster = o.manager; calls = o.log }

-- `applied` and `secret` are the errors of `ApplyStatefulSet` and `ApplyIdxcSecret`; `count` is the
-- StatefulSet's `Status.Replicas`
unfoldable pub after_phases :
    Rest → Server → StatefulSet → ℕ → ℕ → Option Err → Option Err → Cluster → Ending
unfolding after_status
after_phases rest server sts count desired (some e) secret s = leave error (some e) s
after_phases rest server sts count desired none (some e) s = leave error (some e) s
after_phases rest server sts count desired none none s =
    after_status rest server sts desired (update_status rest sts.ready_replicas count s)

-- while no cluster manager is ready, the phase is an error's, though without an error
unfoldable pub update :
    Rest → Server → StatefulSet → ℕ → ℕ → Option Err → Option Err → Cluster → Ending
unfolding after_phases
update rest server sts count desired applied secret s =
    if is_ready s.manager_phase || is_ready s.master_phase
    then after_phases rest server sts count desired applied secret s
    else leave error none s
