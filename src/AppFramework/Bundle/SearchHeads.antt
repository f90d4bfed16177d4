-- ===== src/AppFramework/Bundle/SearchHeads.antt =====
-- The bundle push of a search head cluster: `SHCPlaybookContext` of afwscheduler.go.
use splunk_operator_mirror_d.AppFramework.Types.{Config}
use splunk_operator_mirror_d.AppFramework.Deployment.Changes.{
  push_complete, push_in_progress, push_uninitialized, push_pending,
}
use splunk_operator_mirror_d.Prelude.{
  true, false, some, none, Bool, if◌then◌else◌, String, not, str_eq,
}
use splunk_operator_mirror_d.AppFramework.Bundle.{
  Push, Answers, level_one, read_status, remove_status, apply_bundle, level_default, issue,
  set_probes, complete_push, adjust_permissions, Config, Bool, set_stage, String, is_failed,
  ProbeLevel, not, str_eq, says_line,
}

-- What `isBundlePushComplete` finds: a push that is done, one that goes on, or an error.
pub data Verdict : Type 0 where
  is_done goes_on is_broken : Verdict

-- the push is to be tried again, and the status file is removed, whether or not that succeeds
abbrev pub start_over : Push → Push
start_over p = issue remove_status (set_stage push_pending p)

unfoldable pub check_status : Answers → Push → Push × Verdict
check_status a p =
    let asked = issue read_status p in
    if is_failed a.status
    then (start_over asked, is_broken)
    else if str_eq a.status.std_out ""
    then (asked, goes_on)
    else if not (
        says_line a.status.std_out
          "Bundle has been pushed successfully to all the cluster members.")
    then (start_over asked, is_broken)
    else (let removed = issue remove_status asked in
        if is_failed a.removal
        then (set_stage push_in_progress removed, goes_on)
        else (removed, is_done))

-- `setLivenessProbeLevel`, on all search heads; its error is ignored by both of its callers
unfoldable pub set_search_head_probes : Config → String → Answers → ProbeLevel → Push → Push
unfolding set_probes
set_search_head_probes cfg name a level p = elim a.replicas [
  | none ↦ p
  | some n ↦ (set_probes a.is_probe_set level cfg.kind name 0 n p).0
]

-- `triggerBundlePush`
unfoldable pub trigger_search_heads : Config → String → Answers → Push → Push × Bool
unfolding set_search_head_probes
trigger_search_heads cfg name a p =
    (issue apply_bundle (set_search_head_probes cfg name a level_one p), not (is_failed a.applied))

-- the stages of `runPlaybook`: a push in progress, with what `isBundlePushComplete` gives
unfoldable pub finish_search_heads : Config → String → Answers → Push × Verdict → Push × Bool
unfolding complete_push set_search_head_probes
finish_search_heads cfg name a (p, is_done) =
    (set_search_head_probes cfg name a level_default (complete_push cfg p), true)
finish_search_heads cfg name a (p, goes_on) = (p, true)
finish_search_heads cfg name a (p, is_broken) = (p, false)

-- and the last steps of a pending one: the push has been triggered
abbrev pub begin_push : Push × Bool → Push × Bool
begin_push (p, true) = (set_stage push_in_progress p, true)
begin_push (p, false) = (p, false)

abbrev after_permissions : Config → String → Answers → Push × Bool → Push × Bool
unfolding trigger_search_heads
after_permissions cfg name a (p, true) = begin_push (trigger_search_heads cfg name a p)
after_permissions cfg name a (p, false) = (p, false)

-- `runPlaybook`
unfoldable pub run_search_heads : Config → String → Answers → Push → Push × Bool
unfolding check_status finish_search_heads adjust_permissions after_permissions
run_search_heads cfg name a p =
    if not a.is_ready then (p, true) else elim p.deployment.bundle_stage [
      | push_in_progress ↦ finish_search_heads cfg name a (check_status a p)
      | push_pending ↦ after_permissions cfg name a (adjust_permissions cfg.kind a p)
      | push_uninitialized ↦ (p, false)
      | push_complete ↦ (p, false)
    ]
