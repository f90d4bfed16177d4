-- ===== src/SearchHead/Scenarios.antt =====
-- Runs of the search head cluster's pod manager.
use splunk_operator_mirror_d.Indexer.Manager.{up, lowers_probe}
use splunk_operator_mirror_d.SearchHead.Manager.{
  up, lowers_probe, Rest, Cluster, Member, MemberStatus, prepare_recycle, prepare_scale_down,
  upgrading, not_started, upgraded, finalizes, detains, manual_detention, initiates,
}
use splunk_operator_mirror_d.SearchHead.Status.{update_status, status_of}
use splunk_operator_mirror_d.SearchHead.Draining.{
  IsDrained, prepare_scale_down-IsDrained, update_pods-IsDrained,
}
use splunk_operator_mirror_d.SearchHead.Status.{status_of, update_status-members}
use splunk_operator_mirror_d.StatefulSet.Convergence.{willing_server}
use splunk_operator_mirror_d.SearchHead.Upgrade.{IsTracked, update_pods-IsTracked, upgrade_cycle}
use splunk_operator_mirror_d.StatefulSet.Update.{
  StatefulSet, Pod, Server, update_pods, after_fetch, manage, check_pods, check_pod, recycle,
}
use splunk_operator_mirror_d.StatefulSet.Manager.{returns}
use splunk_operator_mirror_d.Api.{found, failed, fails, Fetched}
use splunk_operator_mirror_d.SearchHead.Manager.{
  detains, upgrading, upgraded, not_started, initiates, finalizes, manual_detention, MemberStatus,
  Captain, Member, search_head_manager, finish_upgrade, prepare_found, prepare_member,
}
use splunk_operator_mirror_d.Prelude.{
  none, suc, ◌∷◌, [], false, true, zero, refl, ℕ, List, arith, ◌≡◌, ◌↔◌, ◌≤◌, tabulate,
}

abbrev member_of : MemberStatus → ℕ → Member
member_of status searches = record {
  status = status;
  adhoc = false;
  registered = true;
  historical_searches = searches;
  realtime_searches = 0;
}

abbrev captain_one : Captain
captain_one = record {
  label = "splunk-shc-search-head-1";
  service_ready = true;
  is_initialized = true;
  min_peers_joined = true;
  maintenance_mode = false;
}

-- The member 0 cannot be asked, and only the member 1 knows the captain.
abbrev info_of : ℕ → Fetched Member
info_of zero = fails (failed "timeout")
info_of (suc n) = found (member_of up 0)

abbrev rest_at : ℕ → Rest
rest_at now = record {
  set_probe_level = λ n. none;
  initiate_upgrade = λ n. none;
  set_detention = λ n on. none;
  remove_member = λ n. none;
  finalize_upgrade = λ n. none;
  member_info = info_of;
  captain_info = λ n. found captain_one;
  now = now;
}

abbrev cluster_of : List Member → Cluster
cluster_of members = record {
  members = members;
  replicas = 1;
  ready_replicas = 1;
  captain = "";
  captain_ready = false;
  initialized = false;
  min_peers_joined = false;
  maintenance_mode = false;
  upgrade_start = 0;
  upgrade_end = 0;
  upgrade_phase = not_started;
  requests = [];
}

abbrev drained_cluster : Cluster
drained_cluster = cluster_of (member_of manual_detention 0 ∷ [])

abbrev idle_cluster : Cluster
idle_cluster = cluster_of (member_of up 0 ∷ [])

abbrev one_replica : StatefulSet
one_replica = record { replicas = 1; ready_replicas = 1; update_revision = "b"; volume_claims = [] }

abbrev old_pod : Pod
old_pod = record { running = true; container_ready = true ∷ []; revision = "a" }

abbrev server : Server
server = willing_server (λ n. old_pod) one_replica

idle_cluster-IsTracked : IsTracked 7 idle_cluster
idle_cluster-IsTracked = record { marked = λ h. absurd (omega arith); past = omega arith }

update_pods-IsDrained_example : IsDrained 0 drained_cluster
unfolding update_pods after_fetch manage check_pods check_pod recycle prepare_recycle prepare_found
    prepare_member
update_pods-IsDrained_example =
    update_pods-IsDrained (rest_at 7) server one_replica 1 0 drained_cluster refl

prepare_scale_down-IsDrained_example :
    ((prepare_scale_down (rest_at 7) 0 drained_cluster).0 ≡ returns true none)
    ↔ (IsDrained 0 drained_cluster × ((rest_at 7).remove_member 0 ≡ none))
prepare_scale_down-IsDrained_example = prepare_scale_down-IsDrained (rest_at 7) 0 drained_cluster

update_pods-IsTracked_example :
    IsTracked 7
      (update_pods server (search_head_manager (rest_at 7)) one_replica 1 idle_cluster).manager
update_pods-IsTracked_example =
    update_pods-IsTracked (rest_at 7) server one_replica 1 idle_cluster idle_cluster-IsTracked

upgrade_cycle_example :
    let (answer, begun) = prepare_recycle (rest_at 7) 0 idle_cluster in
    let done = (finish_upgrade (rest_at 9) 0 begun).1 in
    (answer ≡ returns false ((rest_at 7).set_detention 0 true))
    × (begun.requests ≡ detains 0 true ∷ initiates 0 ∷ lowers_probe 0 ∷ idle_cluster.requests)
    × (begun.upgrade_phase ≡ upgrading)
    × (done.requests ≡ finalizes 0 ∷ begun.requests)
    × (done.upgrade_phase ≡ upgraded)
    × (done.upgrade_start ≤ done.upgrade_end)
    × (finish_upgrade (rest_at 9) 0 done ≡ (returns true none, done))
upgrade_cycle_example =
    upgrade_cycle (rest_at 7) (rest_at 9) 0 idle_cluster (member_of up 0) idle_cluster-IsTracked
      refl refl refl (omega arith)

update_status-members_example :
    (update_status (rest_at 7) 2 3 drained_cluster).members
    ≡ tabulate (λ i. status_of (info_of i)) 0 3
update_status-members_example = update_status-members (rest_at 7) 2 3 drained_cluster (omega arith)
