-- ===== src/Indexer/Manager.antt =====
-- The methods of `indexerClusterPodManager` that prepare and finish the recycling of a peer.
-- Splunk's REST API is outside the repository: `Rest` holds its answers during one reconcile, and
-- the requests that change something there are kept in the manager's state.
use splunk_operator_mirror_d.Api.{failed, Err, Phase, Fetched}
use splunk_operator_mirror_d.Prelude.{
  ◌∷◌, false, some, true, none, String, Bool, ℕ, List, Option, get_elem?,
}
use splunk_operator_mirror_d.StatefulSet.Manager.{panics, returns, PodManager, Answer}

-- `IndexerClusterMemberStatus.Status`: the texts that the code tells apart, and any other.
pub data PeerStatus : Type 0 where
  up decommissioning reassigning_primaries graceful_shutdown down unset : PeerStatus
  other_status : String → PeerStatus

-- `Name` is the pod's name, and no method reads it: it is left out.
pub record Peer : Type 0 where
  pub peer_id : String
  pub status : PeerStatus
  pub active_bundle_id : String
  pub bucket_count : ℕ
  pub searchable : Bool

pub record ManagerInfo : Type 0 where
  pub is_initialized : Bool
  pub is_indexing_ready : Bool
  pub is_service_ready : Bool
  pub in_maintenance : Bool

pub record Rest : Type 0 where
  pub decommission_peer : ℕ → Bool → Option Err
  pub remove_peer : String → Option Err
  pub manager_info : Fetched ManagerInfo
  pub manager_peers : Fetched (ℕ → Option Peer)  -- the map's entry under the name of the pod `n`

-- The requests: to a peer, by its ordinal, or to the cluster manager, by the peer's id.
pub data Request : Type 0 where
  lowers_probe : ℕ → Request
  decommissions : ℕ → Bool → Request
  removes : String → Request

-- `eventPublisher` calls; the numbers are the available peers and all peers
pub data Event : Type 0 where
  cluster_initialized : ℕ → Event
  quorum_restored quorum_lost : ℕ → ℕ → Event

-- `mgr.cr.Status`, with the requests and the events, the latest first.
pub record Cluster : Type 0 where
  pub peers : List Peer
  pub ready_replicas : ℕ
  pub manager_phase : Phase
  pub master_phase : Phase
  pub initialized : Bool
  pub indexing_ready : Bool
  pub service_ready : Bool
  pub maintenance_mode : Bool
  pub requests : List Request
  pub events : List Event

abbrev pub send : Request → Cluster → Cluster
send r s = record s { requests = r ∷ s.requests }

abbrev pub is_up : PeerStatus → Bool
is_up up = true
is_up _ = false

module _ (rest : Rest) where
  -- the `switch` of `decommission`; a failure of the probe is ignored
  unfoldable pub decommission_peer : ℕ → Bool → Cluster → PeerStatus → Answer × Cluster
  decommission_peer n enforce s up = (
    returns false (rest.decommission_peer n enforce),
    send (decommissions n enforce) (send (lowers_probe n) s),
  )
  decommission_peer n enforce s decommissioning = (returns false none, s)
  decommission_peer n enforce s reassigning_primaries = (returns false none, s)
  decommission_peer n enforce s graceful_shutdown = (returns true none, s)
  decommission_peer n enforce s down = (returns true none, s)
  decommission_peer n enforce s unset = (returns false none, s)
  decommission_peer n enforce s (other_status t) = (returns false (some (failed t)), s)

  -- `Peers[n]` panics when there is no such peer
  unfoldable pub decommission_found : ℕ → Bool → Cluster → Option Peer → Answer × Cluster
  unfolding decommission_peer
  decommission_found n enforce s none = (panics, s)
  decommission_found n enforce s (some p) = decommission_peer n enforce s p.status

  unfoldable pub decommission : ℕ → Bool → Cluster → Answer × Cluster
  unfolding decommission_found
  decommission n enforce s = decommission_found n enforce s (get_elem? s.peers n)

  remove_found : Cluster → Option Peer → Answer × Cluster
  remove_found s none = (panics, s)
  remove_found s (some p) = (returns true (rest.remove_peer p.peer_id), send (removes p.peer_id) s)

  after_decommission : ℕ → Answer × Cluster → Answer × Cluster
  unfolding remove_found
  after_decommission n (panics, s) = (panics, s)
  after_decommission n (returns ok (some e), s) = (returns false (some e), s)
  after_decommission n (returns false none, s) = (returns false none, s)
  after_decommission n (returns true none, s) = remove_found s (get_elem? s.peers n)

  unfoldable pub prepare_scale_down : ℕ → Cluster → Answer × Cluster
  unfolding decommission after_decommission
  prepare_scale_down n s = after_decommission n (decommission n true s)

  unfoldable pub prepare_recycle : ℕ → Cluster → Answer × Cluster
  unfolding decommission
  prepare_recycle n s = decommission n false s

  -- the bound is tested before the peer is read
  unfoldable pub finish_recycle : ℕ → Cluster → Answer × Cluster
  finish_recycle n s = elim (get_elem? s.peers n) [
    | none ↦ (returns false (some (failed "incorrect Peer")), s)
    | some p ↦ (returns (is_up p.status) none, s)
  ]

  abbrev pub indexer_manager : PodManager Cluster
  indexer_manager = record {
    prepare_scale_down = prepare_scale_down;
    prepare_recycle = prepare_recycle;
    finish_recycle = finish_recycle;
    finish_upgrade = λ n s. (returns true none, s);
  }
