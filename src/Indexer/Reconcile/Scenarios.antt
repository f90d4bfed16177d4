-- ===== src/Indexer/Reconcile/Scenarios.antt =====
-- Runs of `Update` of the indexer cluster's pod manager.
use splunk_operator_mirror_d.StatefulSet.Convergence.{willing_server}
use splunk_operator_mirror_d.Indexer.Reconcile.{update_pods}
use splunk_operator_mirror_d.StatefulSet.Update.{StatefulSet, Pod, Server, update_pods}
use splunk_operator_mirror_d.Prelude.{some, ◌∷◌, [], false, true, none}
use splunk_operator_mirror_d.Api.{ready, pending, found}
use splunk_operator_mirror_d.Indexer.Manager.{
  Rest, Cluster, Peer, ManagerInfo, graceful_shutdown, decommission_peer,
}

abbrev gone_peer : Peer
gone_peer = record {
  peer_id = "A1";
  status = graceful_shutdown;
  active_bundle_id = "";
  bucket_count = 0;
  searchable = false;
}

abbrev gone_info : ManagerInfo
gone_info = record {
  is_initialized = true;
  is_indexing_ready = true;
  is_service_ready = true;
  in_maintenance = false;
}

abbrev gone_rest : Rest
gone_rest = record {
  decommission_peer = λ n enforce. none;
  remove_peer = λ id. none;
  manager_info = found gone_info;
  manager_peers = found (λ n. some gone_peer);
}

abbrev led_cluster : Cluster
led_cluster = record {
  peers = [];
  ready_replicas = 0;
  manager_phase = ready;
  master_phase = pending;
  initialized = false;
  indexing_ready = false;
  service_ready = false;
  maintenance_mode = false;
  requests = [];
  events = [];
}

abbrev lone_set : StatefulSet
lone_set = record { replicas = 1; ready_replicas = 1; update_revision = "b"; volume_claims = [] }

abbrev lone_pod : Pod
lone_pod = record { running = true; container_ready = true ∷ []; revision = "a" }

abbrev lone_server : Server
lone_server = willing_server (λ n. lone_pod) lone_set
