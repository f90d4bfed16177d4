-- ===== src/StatefulSet/Update.antt =====
-- `UpdateStatefulSetPods` of pkg/splunk/splkcontroller/statefulset.go: one reconcile.
-- The API server is outside the repository: `Server` holds its answers during one reconcile, and
-- the calls that the code makes are kept in a log, in the order in which they are made.
use splunk_operator_mirror_d.Prelude.{
  ℕ, zero, suc, ◌-◌, String, Bool, true, false, not, ◌&&◌, Option, none, some, List, [], ◌∷◌, ltb,
  str_eq, if◌then◌else◌,
}
use splunk_operator_mirror_d.Api.{
  Phase, pending, ready, updating, scaling_up, scaling_down, error, Err, Fetched, found, fails,
}
use splunk_operator_mirror_d.StatefulSet.Manager.{Answer, returns, panics, PodManager}

-- The fields that are read. A replica count is an int32 that the API server keeps from being
-- negative; `volume_claims` are the names in `Spec.VolumeClaimTemplates`.
pub record StatefulSet : Type 0 where
  pub replicas : ℕ
  pub ready_replicas : ℕ
  pub update_revision : String
  pub volume_claims : List String

pub record Pod : Type 0 where
  pub running : Bool
  pub container_ready : List Bool
  pub revision : String

pub record Server : Type 0 where
  pub get_sts : Fetched StatefulSet
  pub update_sts : Option Err
  pub get_pod : ℕ → Fetched Pod
  pub delete_pod : ℕ → Option Err
  pub get_pvc : String → ℕ → Option Err
  pub delete_pvc : String → ℕ → Option Err
  pub remove_secrets : Option Err

-- The calls; the number is a pod's ordinal, or the replica count that is written.
pub data Call : Type 0 where
  gets_sts removes_secrets : Call
  updates_sts gets_pod deletes_pod : ℕ → Call
  gets_pvc deletes_pvc : String → ℕ → Call
  prepares_scale_down prepares_recycle finishes_recycle finishes_upgrade : ℕ → Call

pub data Exit : Type 0 where
  exits : Phase → Option Err → Exit
  crashes : Exit

-- How one reconcile ends, with the StatefulSet and the manager as it leaves them.
pub record Outcome (S : Type 0) : Type 0 where
  pub exit : Exit
  pub sts : StatefulSet
  pub manager : S
  pub log : List Call

module _ {S : Type 0} where
  abbrev pub tell : Call → Outcome S → Outcome S
  tell c o = record o { log = c ∷ o.log }

  abbrev pub stop : Phase → Option Err → StatefulSet → S → Outcome S
  stop p e sts s = record { exit = exits p e; sts = sts; manager = s; log = [] }

  abbrev pub crash : StatefulSet → S → Outcome S
  crash sts s = record { exit = crashes; sts = sts; manager = s; log = [] }

-- `ContainerStatuses[0].Ready`, on a list that must not be empty
abbrev first_ready : List Bool → Bool
first_ready [] = false
first_ready (r ∷ rest) = r

abbrev pub pod_ready : Pod → Bool
pod_ready p = p.running && first_ready p.container_ready

abbrev pub is_outdated : StatefulSet → Pod → Bool
is_outdated sts p =
    not (str_eq sts.update_revision "") && not (str_eq sts.update_revision p.revision)

module _ {S : Type 0} (server : Server) (mgr : PodManager S) where
  -- the loop over `VolumeClaimTemplates`
  unfoldable pub delete_claims : List String → StatefulSet → ℕ → S → Outcome S
  delete_claims [] sts n s = stop scaling_down none sts s
  delete_claims (vol ∷ vols) sts n s =
      let rest = delete_claims vols sts n s in
      tell (gets_pvc vol n) (elim (server.get_pvc vol n) [
        | some e ↦ stop error (some e) sts s
        | none ↦
            tell (deletes_pvc vol n)
              (elim (server.delete_pvc vol n) [ some e ↦ stop error (some e) sts s | none ↦ rest ])
      ])

  unfoldable pub after_update : StatefulSet → ℕ → S → Option Err → Outcome S
  after_update sts n s (some e) = stop error (some e) sts s
  after_update sts n s none = delete_claims sts.volume_claims sts n s

  after_prepare_scale_down : StatefulSet → ℕ → Answer × S → Outcome S
  after_prepare_scale_down sts n (panics, s) = crash sts s
  after_prepare_scale_down sts n (returns ok (some e), s) = stop error (some e) sts s
  after_prepare_scale_down sts n (returns false none, s) = stop scaling_down none sts s
  after_prepare_scale_down sts n (returns true none, s) =
      let shrunk = record sts { replicas = n } in
      tell (updates_sts shrunk.replicas) (after_update shrunk n s server.update_sts)

  unfoldable pub scale_down : StatefulSet → S → Outcome S
  unfolding after_prepare_scale_down after_update
  scale_down sts s =
      let n = sts.ready_replicas - 1 in
      tell (prepares_scale_down n) (after_prepare_scale_down sts n (mgr.prepare_scale_down n s))

  unfoldable pub scale_up : StatefulSet → ℕ → S → Outcome S
  scale_up sts desired s =
      let grown = record sts { replicas = desired } in
      tell (updates_sts grown.replicas) (stop scaling_up server.update_sts grown s)

  after_prepare_recycle : StatefulSet → ℕ → Answer × S → Outcome S
  after_prepare_recycle sts n (panics, s) = crash sts s
  after_prepare_recycle sts n (returns ok (some e), s) = stop error (some e) sts s
  after_prepare_recycle sts n (returns false none, s) = stop updating none sts s
  after_prepare_recycle sts n (returns true none, s) =
      tell (deletes_pod n) (elim (server.delete_pod n) [
        | some e ↦ stop error (some e) sts s
        | none ↦ stop updating none sts s
      ])

  unfoldable pub recycle : StatefulSet → ℕ → S → Outcome S
  unfolding after_prepare_recycle
  recycle sts n s =
      tell (prepares_recycle n) (after_prepare_recycle sts n (mgr.prepare_recycle n s))

  after_finish_upgrade : StatefulSet → Answer × S → Outcome S
  after_finish_upgrade sts (panics, s) = crash sts s
  after_finish_upgrade sts (returns ok (some e), s) = stop error (some e) sts s
  after_finish_upgrade sts (returns ok none, s) = stop ready none sts s

  -- after the loop over the pods
  unfoldable pub finish_all : StatefulSet → S → Outcome S
  unfolding after_finish_upgrade
  finish_all sts s = tell removes_secrets (elim server.remove_secrets [
    | some e ↦ stop ready (some e) sts s
    | none ↦ tell (finishes_upgrade 0) (after_finish_upgrade sts (mgr.finish_upgrade 0 s))
  ])

  -- the tail of one round of the loop; `rest` is the next round
  unfoldable pub after_finish_recycle : StatefulSet → (S → Outcome S) → Answer × S → Outcome S
  after_finish_recycle sts rest (panics, s) = crash sts s
  after_finish_recycle sts rest (returns ok (some e), s) = stop error (some e) sts s
  after_finish_recycle sts rest (returns false none, s) = stop updating none sts s
  after_finish_recycle sts rest (returns true none, s) = rest s

  unfoldable pub check_pod : StatefulSet → ℕ → (S → Outcome S) → S → Fetched Pod → Outcome S
  check_pod sts n rest s (fails e) = stop error (some e) sts s
  check_pod sts n rest s (found pod) =
      if not (pod_ready pod)
      then stop updating none sts s
      else if is_outdated sts pod
      then recycle sts n s
      else tell (finishes_recycle n) (after_finish_recycle sts rest (mgr.finish_recycle n s))

  -- `for n := readyReplicas - 1; n >= 0; n--`, by the number of pods that are left
  unfoldable pub check_pods : StatefulSet → ℕ → S → Outcome S
  check_pods sts zero s = finish_all sts s
  check_pods sts (suc n) s =
      tell (gets_pod n) (check_pod sts n (check_pods sts n) s (server.get_pod n))

  unfoldable pub manage : StatefulSet → ℕ → S → Outcome S
  manage sts desired s =
      if ltb sts.ready_replicas sts.replicas
      then (if ltb 0 sts.ready_replicas
          then stop scaling_up none sts s
          else stop pending none sts s)
      else if ltb sts.replicas sts.ready_replicas
      then stop scaling_down none sts s
      else if ltb sts.ready_replicas desired
      then scale_up sts desired s
      else if ltb desired sts.ready_replicas
      then scale_down sts s
      else check_pods sts sts.ready_replicas s

  unfoldable pub after_fetch : StatefulSet → ℕ → S → Fetched StatefulSet → Outcome S
  after_fetch sts desired s (fails e) = stop error (some e) sts s
  after_fetch sts desired s (found latest) = manage latest desired s

  -- `sts` is the object that the caller passes, before it is fetched again
  unfoldable pub update_pods : StatefulSet → ℕ → S → Outcome S
  unfolding after_fetch
  update_pods sts desired s = tell gets_sts (after_fetch sts desired s server.get_sts)
