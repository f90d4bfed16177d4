-- ===== src/StatefulSet/Convergence.antt =====
-- Repeated reconciles of `UpdateStatefulSetPods` against an API server that refuses nothing and a
-- StatefulSet controller that brings the pods up: the replica count reaches the desired one.
use mathlib.Core.Path.{subst, sym}
use splunk_operator_mirror_d.StatefulSet.Scaling.{delete_claims-sts, check_pods-sts}
use splunk_operator_mirror_d.StatefulSet.Update.{
  exits, Pod, StatefulSet, scale_down, check_pods, update_pods, Server, Exit, check_pod, manage,
  delete_claims, after_finish_recycle, scale_up, finish_all, pod_ready, is_outdated,
}
use splunk_operator_mirror_d.Api.{found, ready}
use splunk_operator_mirror_d.StatefulSet.Manager.{returns, PodManager}
use splunk_operator_mirror_d.Prelude.{
  false, zero, true, suc, none, ℕ, ◌≡◌, if◌then◌else◌, ltb, List, ◌-◌, String, arith, refl, ◌≤◌,
  ◌+◌, ap, ◌∙◌, sym,
}

-- The server's answers when nothing fails; `pods` are the pods by ordinal.
abbrev pub willing_server : (ℕ → Pod) → StatefulSet → Server
willing_server pods sts = record {
  get_sts = found sts;
  update_sts = none;
  get_pod = λ n. found (pods n);
  delete_pod = λ n. none;
  get_pvc = λ vol n. none;
  delete_pvc = λ vol n. none;
  remove_secrets = none;
}

-- A manager that lets every pod go and finishes every pod, in every state of its own.
pub record IsWilling {S : Type 0} (mgr : PodManager S) : Type 0 where
  pub scale : (n : ℕ) (s : S) → (mgr.prepare_scale_down n s).0 ≡ returns true none
  pub finish : (n : ℕ) (s : S) → (mgr.finish_recycle n s).0 ≡ returns true none
  pub upgrade : (n : ℕ) (s : S) → (mgr.finish_upgrade n s).0 ≡ returns true none

-- One replica less, or all that are missing.
abbrev next_count : ℕ → ℕ → ℕ
next_count replicas desired = if ltb desired replicas then replicas - 1 else desired

module _ {S : Type 0} (mgr : PodManager S) (pods : ℕ → Pod) (desired : ℕ) where
  -- One reconcile, and then the pods of the StatefulSet come up or go away.
  abbrev pub round : StatefulSet × S → StatefulSet × S
  round (sts, s) =
      let o = update_pods (willing_server pods sts) mgr sts desired s in
      (record o.sts { ready_replicas = o.sts.replicas }, o.manager)

  abbrev pub rounds : ℕ → StatefulSet × S → StatefulSet × S
  rounds zero w = w
  rounds (suc k) w = rounds k (round w)

  abbrev pub exit_of : StatefulSet × S → Exit
  exit_of (sts, s) = (update_pods (willing_server pods sts) mgr sts desired s).exit

module _ {S : Type 0} (mgr : PodManager S) (pods : ℕ → Pod) (willing : IsWilling mgr) where
  delete_claims-willing :
      (vols : List String) (sts latest : StatefulSet) (n : ℕ) (s : S)
      → (delete_claims (willing_server pods latest) mgr vols sts n s).sts ≡ sts
  delete_claims-willing vols sts latest n s =
      delete_claims-sts (willing_server pods latest) mgr vols sts n s

  scale_down-willing :
      (sts : StatefulSet) (s : S)
      → (scale_down (willing_server pods sts) mgr sts s).sts
        ≡ record sts { replicas = sts.ready_replicas - 1 }
  unfolding scale_down
  scale_down-willing sts s =
      let n = sts.ready_replicas - 1 in
      ground (
        arith,
        willing.scale n s,
        delete_claims-willing sts.volume_claims (record sts { replicas = n }) sts n
            (mgr.prepare_scale_down n s).1,
      )

  check_pods-willing :
      (sts latest : StatefulSet)
      → ((n : ℕ) → (pod_ready (pods n) ≡ true) × (is_outdated sts (pods n) ≡ false))
      → (k : ℕ) (s : S)
      → (check_pods (willing_server pods latest) mgr sts k s).exit ≡ exits ready none
  unfolding check_pods check_pod after_finish_recycle finish_all
  check_pods-willing sts latest fresh zero s = ground (arith, willing.upgrade 0 s)
  check_pods-willing sts latest fresh (suc n) s = ground (
    arith,
    fresh n,
    willing.finish n s,
    check_pods-willing sts latest fresh n (mgr.finish_recycle n s).1,
  )

  -- One round, from a StatefulSet with all its replicas ready.
  round-replicas :
      (sts : StatefulSet) (desired : ℕ) (s : S)
      → sts.ready_replicas ≡ sts.replicas
      → (round mgr pods desired (sts, s)).0 ≡ record sts {
        replicas = next_count sts.replicas desired;
        ready_replicas = next_count sts.replicas desired;
      }
  unfolding update_pods manage scale_up
  round-replicas sts desired s e = ground (
    arith,
    scale_down-willing sts s,
    check_pods-sts (willing_server pods sts) mgr sts sts.ready_replicas s,
  )

  exit-settled :
      (sts : StatefulSet) (desired : ℕ) (s : S)
      → ((n : ℕ) → (pod_ready (pods n) ≡ true) × (is_outdated sts (pods n) ≡ false))
      → sts.ready_replicas ≡ desired
      → sts.replicas ≡ desired
      → exit_of mgr pods desired (sts, s) ≡ exits ready none
  unfolding update_pods manage
  exit-settled sts desired s fresh e r =
      ground (arith, check_pods-willing sts sts fresh sts.ready_replicas s)

  -- With a manager and an API server that refuse nothing, and pods that are ready and current, a
  -- StatefulSet with all replicas ready and at most `k` too many, or too few by any number, has
  -- exactly the desired replicas after `k` rounds, and the next reconcile reports `PhaseReady`.
  -- `k` is at least 1.
  pub rounds_converge :
      (k : ℕ) (sts : StatefulSet) (desired : ℕ) (s : S)
      → ((n : ℕ) → (pod_ready (pods n) ≡ true) × (is_outdated sts (pods n) ≡ false))
      → sts.ready_replicas ≡ sts.replicas
      → sts.replicas ≤ desired + suc k
      → let w = rounds mgr pods desired (suc k) (sts, s) in
        (w.0.replicas ≡ desired) × (exit_of mgr pods desired w ≡ exits ready none)
  rounds_converge zero sts desired s fresh e le =
      let (sts', s') = round mgr pods desired (sts, s) in
      let same = round-replicas sts desired s e in
      let count : sts'.replicas ≡ desired =
        ap (λ (x : StatefulSet). x.replicas) same ∙ ground arith in
      let fresh' =
        subst (λ x. (n : ℕ) → (pod_ready (pods n) ≡ true) × (is_outdated x (pods n) ≡ false))
          (sym same) fresh in
      (count, exit-settled sts' desired s' fresh' count count)
  rounds_converge (suc k) sts desired s fresh e le =
      let (sts', s') = round mgr pods desired (sts, s) in
      let same = round-replicas sts desired s e in
      let count : sts'.replicas ≤ desired + suc k =
        rw (ap (λ (x : StatefulSet). x.replicas) same) (ground arith) in
      let fresh' =
        subst (λ x. (n : ℕ) → (pod_ready (pods n) ≡ true) × (is_outdated x (pods n) ≡ false))
          (sym same) fresh in
      rounds_converge k sts' desired s' fresh' refl count
