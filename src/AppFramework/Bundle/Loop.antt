-- ===== src/AppFramework/Bundle/Loop.antt =====
-- The loop over the cluster-wide playbooks in `installWorkerHandler` of afwscheduler.go.
use splunk_operator_mirror_d.AppFramework.Bundle.Indexers.{run_indexers}
use splunk_operator_mirror_d.AppFramework.Bundle.SearchHeads.{run_search_heads}
use splunk_operator_mirror_d.AppFramework.Types.{
  search_head_cluster, ingestor_cluster, standalone, cluster_master, other_kind, cluster_manager,
  Config, Kind,
}
use splunk_operator_mirror_d.Prelude.{
  zero, some, none, suc, ℕ, String, Bool, Option, ◌&&◌, if◌then◌else◌, not, ltb,
}
use splunk_operator_mirror_d.AppFramework.Bundle.{
  Push, Answers, is_pending_cluster_work, ℕ, Config, Kind, String, Bool, Option, not,
}

-- One round: the time of its test, in seconds, and what its playbook meets.
pub record Round : Type 0 where
  pub now : ℕ
  pub answers : Answers

-- `needToRunClusterScopedPlaybook`: `deadline` is the entry time with the yield interval
unfoldable pub needs_playbook : Kind → ℕ → ℕ → Push → Bool
unfolding is_pending_cluster_work
needs_playbook kind deadline now p =
    is_pending_cluster_work kind p.deployment.bundle_stage && not (ltb deadline now)

-- `getClusterScopePlaybookContext` and the run of what it gives; its error is not read
unfoldable pub run_cluster_playbook : Config → String → Answers → Push → Push
unfolding run_search_heads run_indexers
run_cluster_playbook cfg name a p = elim cfg.kind [
  | cluster_manager ↦ (run_indexers cfg a p).0
  | cluster_master ↦ (run_indexers cfg a p).0
  | search_head_cluster ↦ (run_search_heads cfg name a p).0
  | standalone ↦ p
  | ingestor_cluster ↦ p
  | other_kind kind ↦ p
]

-- The loop from the round `k` on; none when the fuel runs out.
unfoldable pub push_loop : Config → String → ℕ → (ℕ → Round) → ℕ → ℕ → Push → Option Push
unfolding needs_playbook run_cluster_playbook
push_loop cfg name deadline rounds zero k p = none
push_loop cfg name deadline rounds (suc fuel) k p =
    let rest =
      push_loop cfg name deadline rounds fuel (suc k)
        (run_cluster_playbook cfg name (rounds k).answers p) in
    if needs_playbook cfg.kind deadline (rounds k).now p then rest else some p
