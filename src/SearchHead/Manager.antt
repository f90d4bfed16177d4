-- ===== src/SearchHead/Manager.antt =====
-- The methods of `searchHeadClusterPodManager` that prepare and finish the recycling of a member.
-- Splunk's REST API is outside the repository: `Rest` holds its answers during one reconcile, and
-- the requests that change something there are kept in the manager's state.
use splunk_operator_mirror_d.Api.{failed, Err, Fetched}
use splunk_operator_mirror_d.StatefulSet.Manager.{panics, returns, PodManager, Answer}
use splunk_operator_mirror_d.Prelude.{
  some, true, none, ◌∷◌, false, String, Bool, ℕ, List, Option, if◌then◌else◌, leb, ◌+◌, get_elem?,
  ◌==◌,
}

-- `SearchHeadClusterMemberStatus.Status`: the texts that the code tells apart, and any other.
pub data MemberStatus : Type 0 where
  up manual_detention unset : MemberStatus
  other_status : String → MemberStatus

-- The search counts are the REST API's and are not negative. `Name` is the pod's name, and no
-- method reads it: it is left out.
pub record Member : Type 0 where
  pub status : MemberStatus
  pub adhoc : Bool
  pub registered : Bool
  pub historical_searches : ℕ
  pub realtime_searches : ℕ

pub record Captain : Type 0 where
  pub label : String
  pub service_ready : Bool
  pub is_initialized : Bool
  pub min_peers_joined : Bool
  pub maintenance_mode : Bool

pub record Rest : Type 0 where
  pub set_probe_level : ℕ → Option Err
  pub initiate_upgrade : ℕ → Option Err
  pub set_detention : ℕ → Bool → Option Err
  pub remove_member : ℕ → Option Err
  pub finalize_upgrade : ℕ → Option Err
  pub member_info : ℕ → Fetched Member
  pub captain_info : ℕ → Fetched Captain
  pub now : ℕ  -- `time.Now().Unix()`

-- The requests, with the ordinal of the member that they go to.
pub data Request : Type 0 where
  lowers_probe initiates removes finalizes : ℕ → Request
  detains : ℕ → Bool → Request

-- `Status.UpgradePhase`
pub data UpgradePhase : Type 0 where
  not_started upgrading upgraded : UpgradePhase

-- `mgr.cr.Status`, and the requests, the latest first.
pub record Cluster : Type 0 where
  pub members : List Member
  pub replicas : ℕ
  pub ready_replicas : ℕ
  pub captain : String
  pub captain_ready : Bool
  pub initialized : Bool
  pub min_peers_joined : Bool
  pub maintenance_mode : Bool
  pub upgrade_start : ℕ
  pub upgrade_end : ℕ
  pub upgrade_phase : UpgradePhase
  pub requests : List Request

abbrev pub send : Request → Cluster → Cluster
send r s = record s { requests = r ∷ s.requests }

module _ (rest : Rest) where
  -- the stamps that a first detention of an upgrade sets
  unfoldable pub start_upgrade : Cluster → Cluster
  start_upgrade s =
      if leb s.upgrade_start s.upgrade_end
      then record s { upgrade_start = rest.now; upgrade_phase = upgrading }
      else s

  -- the case "Up" of `PrepareRecycle`, after `InitiateUpgrade`; a failure of the probe is ignored
  unfoldable pub detain : ℕ → Cluster → Option Err → Answer × Cluster
  unfolding start_upgrade
  detain n s (some e) = (returns false (some e), s)
  detain n s none =
      (returns false (rest.set_detention n true), send (detains n true) (start_upgrade s))

  unfoldable pub prepare_member : ℕ → Cluster → MemberStatus → Member → Answer × Cluster
  unfolding detain
  prepare_member n s up m =
      detain n (send (initiates n) (send (lowers_probe n) s)) (rest.initiate_upgrade n)
  prepare_member n s manual_detention m =
      (returns (m.historical_searches + m.realtime_searches == 0) none, s)
  prepare_member n s unset m = (returns false none, s)
  prepare_member n s (other_status t) m = (returns false (some (failed t)), s)

  -- `Members[n]` panics when there is no such member
  unfoldable pub prepare_found : ℕ → Cluster → Option Member → Answer × Cluster
  unfolding prepare_member
  prepare_found n s none = (panics, s)
  prepare_found n s (some m) = prepare_member n s m.status m

  unfoldable pub prepare_recycle : ℕ → Cluster → Answer × Cluster
  unfolding prepare_found
  prepare_recycle n s = prepare_found n s (get_elem? s.members n)

  after_removal : Cluster → Option Err → Answer × Cluster
  after_removal s (some e) = (returns false (some e), s)
  after_removal s none = (returns true none, s)

  after_recycle : ℕ → Answer × Cluster → Answer × Cluster
  unfolding after_removal
  after_recycle n (panics, s) = (panics, s)
  after_recycle n (returns ok (some e), s) = (returns ok (some e), s)
  after_recycle n (returns false none, s) = (returns false none, s)
  after_recycle n (returns true none, s) = after_removal (send (removes n) s) (rest.remove_member n)

  unfoldable pub prepare_scale_down : ℕ → Cluster → Answer × Cluster
  unfolding prepare_recycle after_recycle
  prepare_scale_down n s = after_recycle n (prepare_recycle n s)

  unfoldable pub finish_member : ℕ → Cluster → MemberStatus → Answer × Cluster
  finish_member n s up = (returns true none, s)
  finish_member n s manual_detention =
      (returns false (rest.set_detention n false), send (detains n false) s)
  finish_member n s unset = (returns false (some (failed "")), s)
  finish_member n s (other_status t) = (returns false (some (failed t)), s)

  unfoldable pub finish_recycle : ℕ → Cluster → Answer × Cluster
  unfolding finish_member
  finish_recycle n s = elim (get_elem? s.members n) [
    | none ↦ (panics, s)
    | some m ↦ finish_member n s m.status
  ]

  finalize : ℕ → Cluster → UpgradePhase → Answer × Cluster
  finalize n s upgrading = (
    returns true (rest.finalize_upgrade n),
    send (finalizes n) (record s { upgrade_end = rest.now; upgrade_phase = upgraded }),
  )
  finalize n s _ = (returns true none, s)

  unfoldable pub finish_upgrade : ℕ → Cluster → Answer × Cluster
  unfolding finalize
  finish_upgrade n s = finalize n s s.upgrade_phase

  abbrev pub search_head_manager : PodManager Cluster
  search_head_manager = record {
    prepare_scale_down = prepare_scale_down;
    prepare_recycle = prepare_recycle;
    finish_recycle = finish_recycle;
    finish_upgrade = finish_upgrade;
  }
