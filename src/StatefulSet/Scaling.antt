-- ===== src/StatefulSet/Scaling.antt =====
-- How one reconcile of `UpdateStatefulSetPods` changes the replica count.
use splunk_operator_mirror_d.StatefulSet.Update.{
  Server, delete_claims, scale_down, check_pods, update_pods, StatefulSet, check_pod, manage,
  after_finish_recycle, scale_up, recycle, finish_all,
}
use splunk_operator_mirror_d.StatefulSet.Manager.{returns, PodManager}
use splunk_operator_mirror_d.Api.{found}
use splunk_operator_mirror_d.Prelude.{
  zero, ◌∷◌, suc, none, [], true, refl, List, String, ◌-◌, ℕ, ◌≡◌, arith, ◌⊎◌, ◌<◌,
}

module _ {S : Type 0} (server : Server) (mgr : PodManager S) where
  pub delete_claims-sts :
      (vols : List String) (sts : StatefulSet) (n : ℕ) (s : S)
      → (delete_claims server mgr vols sts n s).sts ≡ sts
  unfolding delete_claims
  delete_claims-sts [] sts n s = refl
  delete_claims-sts (vol ∷ vols) sts n s = ground (arith, delete_claims-sts vols sts n s)

  scale_down-sts :
      (sts : StatefulSet) (s : S)
      → let n = sts.ready_replicas - 1 in
        ((scale_down server mgr sts s).sts ≡ sts)
        ⊎ ((mgr.prepare_scale_down n s).0 ≡ returns true none)
          × ((scale_down server mgr sts s).sts ≡ record sts { replicas = n })
  unfolding scale_down
  scale_down-sts sts s =
      let n = sts.ready_replicas - 1 in
      grind (
        arith,
        delete_claims-sts sts.volume_claims (record sts { replicas = n }) n
            (mgr.prepare_scale_down n s).1,
      )

  pub check_pods-sts :
      (sts : StatefulSet) (k : ℕ) (s : S) → (check_pods server mgr sts k s).sts ≡ sts
  unfolding check_pods check_pod after_finish_recycle recycle finish_all
  check_pods-sts sts zero s = ground arith
  check_pods-sts sts (suc n) s = ground (arith, check_pods-sts sts n (mgr.finish_recycle n s).1)

  -- What one reconcile makes of the StatefulSet that it read. It leaves it alone; or, with all
  -- replicas ready and too few, it asks for the desired number; or, with all ready and too many,
  -- it asks for one less, and only if the manager has answered that the last pod may go.
  pub update_pods-replicas :
      (sts latest : StatefulSet) (desired : ℕ) (s : S)
      → server.get_sts ≡ found latest
      → let after = (update_pods server mgr sts desired s).sts in
        let n = latest.ready_replicas - 1 in
        (after ≡ latest)
        ⊎ ((latest.ready_replicas ≡ latest.replicas)
            × (latest.replicas < desired)
            × (after ≡ record latest { replicas = desired }))
        ⊎ ((latest.ready_replicas ≡ latest.replicas)
            × (desired < latest.replicas)
            × ((mgr.prepare_scale_down n s).0 ≡ returns true none)
            × (after ≡ record latest { replicas = n }))
  unfolding update_pods manage scale_up
  update_pods-replicas sts latest desired s q =
      simp q (grind (arith, scale_down-sts latest s, check_pods-sts latest latest.ready_replicas s))
