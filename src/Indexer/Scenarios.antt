-- ===== src/Indexer/Scenarios.antt =====
-- Runs of the indexer cluster's pod manager.
use splunk_operator_mirror_d.StatefulSet.Manager.{returns}
use splunk_operator_mirror_d.Indexer.Replication.Peers.{
  verify_rf_peers-site_factor, verify_rf_peers-panics,
}
use splunk_operator_mirror_d.Indexer.Replication.Origin.{has_comma, Matches}
use splunk_operator_mirror_d.AppFramework.PodNames.{decimal}
use splunk_operator_mirror_d.AppFramework.Phases.{codes}
use splunk_operator_mirror_d.Indexer.Replication.{ClusterInfo, origin, comma, verify_rf_peers}
use splunk_operator_mirror_d.Indexer.Decommission.{
  IsDecommissioned, update_pods-IsDecommissioned, is_gone, prepare_scale_down-IsDecommissioned,
}
use splunk_operator_mirror_d.StatefulSet.Convergence.{willing_server}
use splunk_operator_mirror_d.Indexer.Status.{update_status, IsUpdate, update_status-IsUpdate}
use splunk_operator_mirror_d.StatefulSet.Update.{
  StatefulSet, Pod, Server, update_pods, after_fetch, manage, check_pods, check_pod, recycle,
}
use splunk_operator_mirror_d.Indexer.Manager.{
  graceful_shutdown, up, PeerStatus, ManagerInfo, Rest, Cluster, Peer, prepare_recycle,
  decommission, decommission_found, decommission_peer, prepare_scale_down,
}
use splunk_operator_mirror_d.Prelude.{
  some, none, ◌∷◌, false, true, suc, [], zero, refl, ℕ, Bool, Option, ◌≡◌, pos, List, ◌++◌,
  if◌then◌else◌, not, ◌&&◌, ltb, arith, ◌↔◌, get_elem?,
}
use splunk_operator_mirror_d.Api.{found, ready, pending, Phase}

abbrev peer_of : PeerStatus → Bool → Peer
peer_of status searchable = record {
  peer_id = "A1";
  status = status;
  active_bundle_id = "";
  bucket_count = 3;
  searchable = searchable;
}

abbrev ready_info : ManagerInfo
ready_info = record {
  is_initialized = true;
  is_indexing_ready = true;
  is_service_ready = true;
  in_maintenance = false;
}

-- The cluster manager knows the peers 0 and 1 alone.
abbrev known_peers : ℕ → Option Peer
known_peers zero = some (peer_of up true)
known_peers (suc zero) = some (peer_of up false)
known_peers (suc (suc n)) = none

abbrev rest : Rest
rest = record {
  decommission_peer = λ n enforce. none;
  remove_peer = λ id. none;
  manager_info = found ready_info;
  manager_peers = found known_peers;
}

abbrev cluster_of : Phase → Cluster
cluster_of phase = record {
  peers = peer_of graceful_shutdown false ∷ [];
  ready_replicas = 0;
  manager_phase = phase;
  master_phase = pending;
  initialized = false;
  indexing_ready = false;
  service_ready = false;
  maintenance_mode = false;
  requests = [];
  events = [];
}

abbrev one_replica : StatefulSet
one_replica = record { replicas = 1; ready_replicas = 1; update_revision = "b"; volume_claims = [] }

abbrev old_pod : Pod
old_pod = record { running = true; container_ready = true ∷ []; revision = "a" }

abbrev server : Server
server = willing_server (λ n. old_pod) one_replica

update_pods-IsDecommissioned_example : IsDecommissioned 0 (cluster_of ready)
unfolding update_pods after_fetch manage check_pods check_pod recycle prepare_recycle decommission
    decommission_found decommission_peer
update_pods-IsDecommissioned_example =
    update_pods-IsDecommissioned rest server one_replica 1 0 (cluster_of ready) refl

prepare_scale_down-IsDecommissioned_example :
    ((prepare_scale_down rest 0 (cluster_of ready)).0 ≡ returns true none) ↔ (
      (p : Peer) × (get_elem? (cluster_of ready).peers 0 ≡ some p)
      × (is_gone p.status ≡ true)
      × (rest.remove_peer p.peer_id ≡ none))
prepare_scale_down-IsDecommissioned_example =
    prepare_scale_down-IsDecommissioned rest 0 (cluster_of ready)

update_status-IsUpdate_example :
    IsUpdate rest 2 3 (cluster_of ready) (update_status rest 2 3 (cluster_of ready)).0
unfolding update_status
update_status-IsUpdate_example = update_status-IsUpdate rest 2 3 (cluster_of ready) refl

-- the text after the count in `{ origin:3, total:6 }`
abbrev total_six : List ℕ
total_six = codes " total:6 }"

verify_rf_peers-site_factor_example :
    let info : ClusterInfo = record {
      is_multi_site = true;
      site_factor = codes "{ " ++ (origin ++ (decimal 3 ++ (comma ∷ total_six)));
      factor = pos 3;
    } in
    verify_rf_peers (some info) 1
    ≡ some (record {
      replicas = if not (has_comma total_six) && ltb 1 3 then 3 else 1;
      is_warned = not (has_comma total_six) && ltb 1 3;
      has_failed = false;
    })
verify_rf_peers-site_factor_example =
    verify_rf_peers-site_factor (codes "{ ") 3 1 total_six (pos 3) (omega arith) refl

verify_rf_peers-panics_example :
    let info : ClusterInfo = record {
      is_multi_site = true;
      site_factor = codes "origin:2";
      factor = pos 3;
    } in
    (verify_rf_peers (some info) 1 ≡ none) ↔ (¬ Matches (codes "origin:2"))
verify_rf_peers-panics_example = verify_rf_peers-panics 1 (codes "origin:2") (pos 3)
