-- ===== src/AppFramework/Bundle/Moves.antt =====
-- How one run of a cluster-wide playbook moves a push.
use splunk_operator_mirror_d.AppFramework.Bundle.Loop.{run_cluster_playbook}
use splunk_operator_mirror_d.AppFramework.Bundle.SearchHeads.{
  set_search_head_probes, run_search_heads, trigger_search_heads, check_status, finish_search_heads,
}
use splunk_operator_mirror_d.AppFramework.Bundle.Indexers.{
  is_accepted, is_confirmed, set_owner_probes, set_indexer_probes, run_indexers, trigger_indexers,
}
use splunk_operator_mirror_d.AppFramework.Types.{
  search_head_cluster, Config, Kind, other_kind, cluster_manager, cluster_master, ingestor_cluster,
  standalone,
}
use splunk_operator_mirror_d.AppFramework.Deployment.Changes.{
  push_complete, push_pending, push_in_progress, set_cluster_installed, push_uninitialized,
  BundleStage,
}
use splunk_operator_mirror_d.Prelude.{
  ◌∷◌, [], zero, inl, true, suc, inr, refl, ◌≡◌, List, String, Bool, ℕ, Option-cases, ◌&&◌, not,
  arith, false, Bool-cases, ap, str_eq,
}
use splunk_operator_mirror_d.AppFramework.Bundle.{
  Push, Answers, set_probe, set_probes, Config, ProbeLevel, Kind, set_cluster_installed, List,
  String, Owner, Bool, ℕ, get_probe_pod_name, not, is_failed, issue, says_line, level_one,
  set_permissions, adjust_permissions, BundleStage, complete_push, remove_status, read_status,
  level_default, str_eq, apps_location, show_status,
}

-- The answers on which a pending push begins.
abbrev pub accepts : Kind → Answers → Bool
accepts search_head_cluster a =
    a.is_ready && (not (is_failed a.permissions) && not (is_failed a.applied))
accepts cluster_manager a = not (is_failed a.permissions) && is_accepted a.applied
accepts cluster_master a = not (is_failed a.permissions) && is_accepted a.applied
accepts _ a = false

-- The answers on which a push in progress is complete: of a search head cluster the status file
-- says so and is removed, of an indexer cluster the status is none with no failed validation.
abbrev pub confirms : Kind → Answers → Bool
confirms search_head_cluster a =
    a.is_ready
    && (not (is_failed a.status)
        && (says_line a.status.std_out
              "Bundle has been pushed successfully to all the cluster members."
            && not (is_failed a.removal)))
confirms cluster_manager a = is_confirmed a.status
confirms cluster_master a = is_confirmed a.status
confirms _ a = false

-- What a run may do to a push.
pub data Moves (cfg : Config) (a : Answers) (p p' : Push) : Type 0 where
  stays : p'.deployment ≡ p.deployment → p'.retry_count ≡ p.retry_count → Moves cfg a p p'
  begins :
      p.deployment.bundle_stage ≡ push_pending
      → accepts cfg.kind a ≡ true
      → p'.deployment ≡ record p.deployment { bundle_stage = push_in_progress }
      → Moves cfg a p p'
  completes :
      p.deployment.bundle_stage ≡ push_in_progress
      → confirms cfg.kind a ≡ true
      → p'.deployment
        ≡ set_cluster_installed cfg (record p.deployment { bundle_stage = push_complete })
      → p'.retry_count ≡ 0
      → Moves cfg a p p'
  starts_over :
      p.deployment.bundle_stage ≡ push_in_progress
      → cfg.kind ≡ search_head_cluster
      → p'.deployment ≡ record p.deployment { bundle_stage = push_pending }
      → Moves cfg a p p'

-- The probes change the log alone.
abbrev Same : Push → Push → Type 0
Same p p' = (p'.deployment ≡ p.deployment) × (p'.retry_count ≡ p.retry_count)

set_probes-Same :
    (is_set : List ℕ → Bool) (level : ProbeLevel) (kind : Kind) (name : String) (n k : ℕ) (p : Push)
    → Same p (set_probes is_set level kind name n k p).0
unfolding set_probes
set_probes-Same is_set level kind name n zero p = (refl, refl)
set_probes-Same is_set level kind name n (suc k) p =
    let pod = get_probe_pod_name kind name n in
    ground (arith, set_probes-Same is_set level kind name (suc n) k (issue (set_probe level pod) p))

set_search_head_probes-Same :
    (cfg : Config) (name : String) (a : Answers) (level : ProbeLevel) (p : Push)
    → Same p (set_search_head_probes cfg name a level p)
unfolding set_search_head_probes
set_search_head_probes-Same cfg name a level p = elim (Option-cases a.replicas) [
  | inl e ↦ ground arith
  | inr (n, e) ↦ ground (arith, set_probes-Same a.is_probe_set level cfg.kind name 0 n p)
]

set_owner_probes-Same :
    (a : Answers) (level : ProbeLevel) (os : List Owner) (p : Push)
    → Same p (set_owner_probes a level os p)
unfolding set_owner_probes
set_owner_probes-Same a level [] p = (refl, refl)
set_owner_probes-Same a level (o ∷ os) p = elim (Option-cases o.replicas) [
  | inl e ↦ ground (arith, set_owner_probes-Same a level os p)
  | inr (n, e) ↦
      let tried = set_probes a.is_probe_set level (other_kind "IndexerCluster") o.name 0 n p in
      ground (
        arith,
        set_owner_probes-Same a level os p,
        set_owner_probes-Same a level os tried.0,
        set_probes-Same a.is_probe_set level (other_kind "IndexerCluster") o.name 0 n p,
      )
]

set_indexer_probes-Same :
    (a : Answers) (level : ProbeLevel) (p : Push) → Same p (set_indexer_probes a level p)
unfolding set_indexer_probes
set_indexer_probes-Same a level p = elim (Option-cases a.owners) [
  | inl e ↦ ground arith
  | inr (os, e) ↦ ground (arith, set_owner_probes-Same a level os p)
]

run_search_heads-stage :
    (cfg : Config) (name : String) (a : Answers) (p : Push) (st : BundleStage)
    → cfg.kind ≡ search_head_cluster
    → str_eq (apps_location cfg.kind) "" ≡ false
    → a.is_ready ≡ true
    → p.deployment.bundle_stage ≡ st
    → Moves cfg a p (run_search_heads cfg name a p).0
unfolding run_search_heads adjust_permissions trigger_search_heads check_status finish_search_heads
    complete_push
run_search_heads-stage cfg name a p push_uninitialized k loc r e =
    stays (ground arith) (ground arith)
run_search_heads-stage cfg name a p push_complete k loc r e = stays (ground arith) (ground arith)
run_search_heads-stage cfg name a p push_pending k loc r e =
    let same = set_search_head_probes-Same cfg name a level_one (issue set_permissions p) in
    let accepts_kind = ap (λ kind. accepts kind a) k in
    elim (Bool-cases (is_failed a.permissions)) [
      | inl f ↦ stays (ground arith) (ground arith)
      | inr f ↦ elim (Bool-cases (is_failed a.applied)) [
        | inl g ↦ stays (ground (arith, same)) (ground (arith, same))
        | inr g ↦ begins e (rw accepts_kind (rw (r, f, g) refl)) (ground (arith, same))
      ]
    ]
run_search_heads-stage cfg name a p push_in_progress k loc r e =
    let done = complete_push cfg (issue remove_status (issue read_status p)) in
    let same = set_search_head_probes-Same cfg name a level_default done in
    let confirms_kind = ap (λ kind. confirms kind a) k in
    elim (Bool-cases (is_failed a.status)) [
      | inl f ↦ starts_over e k (ground arith)
      | inr f ↦ elim (Bool-cases (str_eq a.status.std_out "")) [
        | inl g ↦ stays (ground arith) (ground arith)
        | inr g ↦
            elim (Bool-cases (
              says_line a.status.std_out
                "Bundle has been pushed successfully to all the cluster members.")) [
                  | inr h ↦ starts_over e k (ground arith)
                  | inl h ↦ elim (Bool-cases (is_failed a.removal)) [
                    | inl m ↦ stays (ground arith) (ground arith)
                    | inr m ↦
                        completes e (rw confirms_kind (rw (r, f, h, m) refl)) (ground (arith, same))
                          (ground (arith, same))
                  ]
                ]
      ]
    ]

run_search_heads-waits :
    (cfg : Config) (name : String) (a : Answers) (p : Push)
    → a.is_ready ≡ false
    → Moves cfg a p (run_search_heads cfg name a p).0
unfolding run_search_heads
run_search_heads-waits cfg name a p r = stays (ground arith) (ground arith)

run_indexers-stage :
    (cfg : Config) (a : Answers) (p : Push) (st : BundleStage)
    → str_eq (apps_location cfg.kind) "" ≡ false
    → confirms cfg.kind a ≡ is_confirmed a.status
    → accepts cfg.kind a ≡ (not (is_failed a.permissions) && is_accepted a.applied)
    → p.deployment.bundle_stage ≡ st
    → Moves cfg a p (run_indexers cfg a p).0
unfolding run_indexers adjust_permissions trigger_indexers complete_push
run_indexers-stage cfg a p push_uninitialized loc c b e = stays (ground arith) (ground arith)
run_indexers-stage cfg a p push_complete loc c b e = stays (ground arith) (ground arith)
run_indexers-stage cfg a p push_pending loc c b e =
    let same = set_indexer_probes-Same a level_one (issue set_permissions p) in
    elim (Bool-cases (is_failed a.permissions)) [
      | inl f ↦ stays (ground arith) (ground arith)
      | inr f ↦ elim (Bool-cases (is_accepted a.applied)) [
        | inr g ↦ stays (ground (arith, same)) (ground (arith, same))
        | inl g ↦ begins e (rw b (rw (f, g) refl)) (ground (arith, same))
      ]
    ]
run_indexers-stage cfg a p push_in_progress loc c b e =
    let done = complete_push cfg (issue show_status p) in
    let same = set_indexer_probes-Same a level_default done in
    elim (Bool-cases (is_confirmed a.status)) [
      | inr f ↦ stays (ground arith) (ground arith)
      | inl f ↦ completes e (rw c f) (ground (arith, same)) (ground (arith, same))
    ]

run-Moves :
    (cfg : Config) (name : String) (a : Answers) (p : Push) (kind : Kind)
    → cfg.kind ≡ kind
    → Moves cfg a p (run_cluster_playbook cfg name a p)
unfolding run_cluster_playbook apps_location
run-Moves cfg name a p search_head_cluster k =
    let same : run_cluster_playbook cfg name a p ≡ (run_search_heads cfg name a p).0 =
      ground arith in
    rw same (elim (Bool-cases a.is_ready) [
      | inl r ↦ run_search_heads-stage cfg name a p p.deployment.bundle_stage k (rw k refl) r refl
      | inr r ↦ run_search_heads-waits cfg name a p r
    ])
run-Moves cfg name a p cluster_manager k =
    let same : run_cluster_playbook cfg name a p ≡ (run_indexers cfg a p).0 = ground arith in
    rw same (
      run_indexers-stage cfg a p p.deployment.bundle_stage (rw k refl) (rw k refl) (rw k refl) refl)
run-Moves cfg name a p cluster_master k =
    let same : run_cluster_playbook cfg name a p ≡ (run_indexers cfg a p).0 = ground arith in
    rw same (
      run_indexers-stage cfg a p p.deployment.bundle_stage (rw k refl) (rw k refl) (rw k refl) refl)
run-Moves cfg name a p standalone k = stays (ground arith) (ground arith)
run-Moves cfg name a p ingestor_cluster k = stays (ground arith) (ground arith)
run-Moves cfg name a p (other_kind other) k = stays (ground arith) (ground arith)

-- A run of a cluster-wide playbook does one of four things to the push. It leaves the deployment
-- and the retry count as they are; or it takes a pending push to one in progress, on permissions
-- that were set and a push that was accepted; or it takes a push in progress to a complete one, on
-- a confirmed status, and then marks the cluster-wide apps whose copy is complete as installed and
-- sets the retry count to 0; or it takes a push in progress of a search head cluster back to a
-- pending one.
pub run_cluster_playbook-Moves :
    (cfg : Config) (name : String) (a : Answers) (p : Push)
    → Moves cfg a p (run_cluster_playbook cfg name a p)
run_cluster_playbook-Moves cfg name a p = run-Moves cfg name a p cfg.kind refl
