-- ===== src/StatefulSet/Invariant.antt =====
-- What every method of a pod manager keeps, a whole reconcile of `UpdateStatefulSetPods` keeps.
use splunk_operator_mirror_d.Api.{found, fails, Fetched}
use mathlib.Core.Path.{subst, sym}
use splunk_operator_mirror_d.StatefulSet.Update.{
  Server, delete_claims, scale_down, recycle, finish_all, StatefulSet, check_pod, check_pods,
  update_pods, after_finish_recycle, Outcome, manage, after_fetch, scale_up,
}
use splunk_operator_mirror_d.StatefulSet.Manager.{PodManager}
use splunk_operator_mirror_d.Prelude.{
  [], inl, zero, inr, ◌∷◌, suc, refl, ℕ, List, ◌≡◌, String, ◌-◌, arith, ◌⊎◌, sym,
}

pub record Keeps {S : Type 0} (P : S → Type 0) (mgr : PodManager S) : Type 0 where
  pub scale : (n : ℕ) (s : S) → P s → P (mgr.prepare_scale_down n s).1
  pub prepare : (n : ℕ) (s : S) → P s → P (mgr.prepare_recycle n s).1
  pub finish : (n : ℕ) (s : S) → P s → P (mgr.finish_recycle n s).1
  pub upgrade : (n : ℕ) (s : S) → P s → P (mgr.finish_upgrade n s).1

module _ {S : Type 0} (P : S → Type 0) (server : Server) (mgr : PodManager S)
    (keeps : Keeps P mgr) where
  delete_claims-manager :
      (vols : List String) (sts : StatefulSet) (n : ℕ) (s : S)
      → (delete_claims server mgr vols sts n s).manager ≡ s
  unfolding delete_claims
  delete_claims-manager [] sts n s = refl
  delete_claims-manager (vol ∷ vols) sts n s = ground (arith, delete_claims-manager vols sts n s)

  scale_down-manager :
      (sts : StatefulSet) (s : S)
      → (scale_down server mgr sts s).manager
        ≡ (mgr.prepare_scale_down (sts.ready_replicas - 1) s).1
  unfolding scale_down
  scale_down-manager sts s =
      let n = sts.ready_replicas - 1 in
      ground (
        arith,
        delete_claims-manager sts.volume_claims (record sts { replicas = n }) n
            (mgr.prepare_scale_down n s).1,
      )

  recycle-manager :
      (sts : StatefulSet) (n : ℕ) (s : S)
      → (recycle server mgr sts n s).manager ≡ (mgr.prepare_recycle n s).1
  unfolding recycle
  recycle-manager sts n s = ground arith

  finish_all-manager :
      (sts : StatefulSet) (s : S)
      → ((finish_all server mgr sts s).manager ≡ s)
        ⊎ ((finish_all server mgr sts s).manager ≡ (mgr.finish_upgrade 0 s).1)
  unfolding finish_all
  finish_all-manager sts s = ground arith

  finish_all-keeps : (sts : StatefulSet) (s : S) → P s → P (finish_all server mgr sts s).manager
  finish_all-keeps sts s h = elim (finish_all-manager sts s) [
    | inl same ↦ subst P (sym same) h
    | inr done ↦ subst P (sym done) (keeps.upgrade 0 s h)
  ]

  check_pod_manager :
      (sts : StatefulSet) (n : ℕ) (rest : S → Outcome S) (s : S)
      → let after = (check_pod server mgr sts n rest s (server.get_pod n)).manager in
        (after ≡ s)
        ⊎ (after ≡ (mgr.prepare_recycle n s).1)
        ⊎ (after ≡ (mgr.finish_recycle n s).1)
        ⊎ (after ≡ (rest (mgr.finish_recycle n s).1).manager)
  unfolding check_pod after_finish_recycle
  check_pod_manager sts n rest s = grind (arith, recycle-manager sts n s)

  check_pods-keeps :
      (sts : StatefulSet) (k : ℕ) (s : S) → P s → P (check_pods server mgr sts k s).manager
  unfolding check_pods
  check_pods-keeps sts zero s h = finish_all-keeps sts s h
  check_pods-keeps sts (suc n) s h =
      let done = keeps.finish n s h in
      elim (check_pod_manager sts n (check_pods server mgr sts n) s) [
        | inl e ↦ subst P (sym e) h
        | inr (inl e) ↦ subst P (sym e) (keeps.prepare n s h)
        | inr (inr (inl e)) ↦ subst P (sym e) done
        | inr (inr (inr e)) ↦
            subst P (sym e) (check_pods-keeps sts n (mgr.finish_recycle n s).1 done)
      ]

  manage_manager :
      (sts : StatefulSet) (desired : ℕ) (s : S)
      → let after = (manage server mgr sts desired s).manager in
        (after ≡ s)
        ⊎ (after ≡ (mgr.prepare_scale_down (sts.ready_replicas - 1) s).1)
        ⊎ (after ≡ (check_pods server mgr sts sts.ready_replicas s).manager)
  unfolding manage scale_up
  manage_manager sts desired s = grind (arith, scale_down-manager sts s)

  after_fetch-keeps :
      (sts : StatefulSet) (desired : ℕ) (s : S) (answer : Fetched StatefulSet)
      → P s
      → P (after_fetch server mgr sts desired s answer).manager
  unfolding after_fetch
  after_fetch-keeps sts desired s (fails e) h = h
  after_fetch-keeps sts desired s (found latest) h = elim (manage_manager latest desired s) [
    | inl e ↦ subst P (sym e) h
    | inr (inl e) ↦ subst P (sym e) (keeps.scale (latest.ready_replicas - 1) s h)
    | inr (inr e) ↦ subst P (sym e) (check_pods-keeps latest latest.ready_replicas s h)
  ]

  -- A property of the manager's state that each of its four methods keeps holds after a whole
  -- reconcile, whatever the API server answers.
  pub update_pods-keeps :
      (sts : StatefulSet) (desired : ℕ) (s : S)
      → P s
      → P (update_pods server mgr sts desired s).manager
  unfolding update_pods
  update_pods-keeps sts desired s h = after_fetch-keeps sts desired s server.get_sts h
