-- ===== src/AppFramework/Bundle/Indexers.antt =====
-- The bundle push of an indexer cluster: `IdxcPlaybookContext` of afwscheduler.go.
use splunk_operator_mirror_d.AppFramework.Bundle.SearchHeads.{begin_push}
use splunk_operator_mirror_d.AppFramework.Pipeline.Running.{Exec}
use splunk_operator_mirror_d.AppFramework.Types.{other_kind, Config}
use splunk_operator_mirror_d.AppFramework.Deployment.Changes.{
  push_complete, push_in_progress, push_uninitialized, push_pending, is_some,
}
use splunk_operator_mirror_d.Prelude.{
  true, false, [], some, ◌∷◌, none, Bool, not, List, ◌||◌, ◌&&◌, if◌then◌else◌, str_eq,
}
use splunk_operator_mirror_d.AppFramework.Bundle.{
  Push, Answers, show_status, level_one, apply_bundle, level_default, set_probes, ProbeLevel,
  complete_push, Exec, Bool, says, issue, adjust_permissions, not, List, Owner, is_some, Config,
  says_line, str_eq,
}

-- `isBundlePushComplete`
unfoldable pub is_confirmed : Exec → Bool
is_confirmed r =
    not (is_some r.error)
    && (says r.std_out "cluster_status=None"
        && not (says r.std_out "last_bundle_validation_status=failure"))

-- the loop of `setLivenessProbeLevel` over the owners of the cluster manager's stateful set: what
-- cannot be fetched is passed over, and a probe that cannot be set ends it
unfoldable pub set_owner_probes : Answers → ProbeLevel → List Owner → Push → Push
unfolding set_probes
set_owner_probes a level [] p = p
set_owner_probes a level (o ∷ os) p =
    let skipped = set_owner_probes a level os p in
    if not (str_eq o.kind "IndexerCluster") then skipped else elim o.replicas [
      | none ↦ skipped
      | some n ↦
          let (tried, ok) =
            set_probes a.is_probe_set level (other_kind "IndexerCluster") o.name 0 n p in
          let rest = set_owner_probes a level os tried in if ok then rest else tried
    ]

-- `setLivenessProbeLevel`; its error is ignored by both of its callers
unfoldable pub set_indexer_probes : Answers → ProbeLevel → Push → Push
unfolding set_owner_probes
set_indexer_probes a level p = elim a.owners [
  | none ↦ p
  | some owners ↦ set_owner_probes a level owners p
]

-- the test of `triggerBundlePush`
unfoldable pub is_accepted : Exec → Bool
is_accepted r =
    says r.std_err
      "No new bundle will be pushed. The cluster manager and peers already have this bundle"
    || (not (is_some r.error) && says_line r.std_err "OK")

-- `triggerBundlePush`
unfoldable pub trigger_indexers : Answers → Push → Push × Bool
unfolding set_indexer_probes is_accepted
trigger_indexers a p =
    (issue apply_bundle (set_indexer_probes a level_one p), is_accepted a.applied)

abbrev after_permissions : Answers → Push × Bool → Push × Bool
unfolding trigger_indexers
after_permissions a (p, true) = begin_push (trigger_indexers a p)
after_permissions a (p, false) = (p, false)

-- `runPlaybook`
unfoldable pub run_indexers : Config → Answers → Push → Push × Bool
unfolding is_confirmed complete_push set_indexer_probes adjust_permissions after_permissions
run_indexers cfg a p = elim p.deployment.bundle_stage [
  | push_in_progress ↦
      if is_confirmed a.status
      then (set_indexer_probes a level_default (complete_push cfg (issue show_status p)), true)
      else (issue show_status p, true)
  | push_pending ↦ after_permissions a (adjust_permissions cfg.kind a p)
  | push_uninitialized ↦ (p, false)
  | push_complete ↦ (p, false)
]
