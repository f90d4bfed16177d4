-- ===== src/SearchHead/Reconcile/Scenarios.antt =====
-- Runs of `Update` of the search head cluster's pod manager.
use splunk_operator_mirror_d.StatefulSet.Convergence.{willing_server}
use splunk_operator_mirror_d.SearchHead.Reconcile.{update_pods}
use splunk_operator_mirror_d.StatefulSet.Update.{StatefulSet, Pod, Server, update_pods}
use splunk_operator_mirror_d.Prelude.{none, false, [], ◌∷◌, true}
use splunk_operator_mirror_d.Api.{found}
use splunk_operator_mirror_d.SearchHead.Manager.{
  Rest, Cluster, Member, Captain, manual_detention, not_started,
}

abbrev drained_member : Member
drained_member = record {
  status = manual_detention;
  adhoc = false;
  registered = true;
  historical_searches = 0;
  realtime_searches = 0;
}

abbrev ready_captain : Captain
ready_captain = record {
  label = "splunk-shc-search-head-0";
  service_ready = true;
  is_initialized = true;
  min_peers_joined = true;
  maintenance_mode = false;
}

abbrev drained_rest : Rest
drained_rest = record {
  set_probe_level = λ n. none;
  initiate_upgrade = λ n. none;
  set_detention = λ n on. none;
  remove_member = λ n. none;
  finalize_upgrade = λ n. none;
  member_info = λ n. found drained_member;
  captain_info = λ n. found ready_captain;
  now = 7;
}

abbrev empty_cluster : Cluster
empty_cluster = record {
  members = [];
  replicas = 1;
  ready_replicas = 0;
  captain = "";
  captain_ready = false;
  initialized = false;
  min_peers_joined = false;
  maintenance_mode = false;
  upgrade_start = 0;
  upgrade_end = 0;
  upgrade_phase = not_started;
  requests = [];
}

abbrev single_set : StatefulSet
single_set = record { replicas = 1; ready_replicas = 1; update_revision = "b"; volume_claims = [] }

abbrev outdated_pod : Pod
outdated_pod = record { running = true; container_ready = true ∷ []; revision = "a" }

abbrev single_server : Server
single_server = willing_server (λ n. outdated_pod) single_set
