-- ===== src/StatefulSet/Readiness.antt =====
-- What a report of `PhaseReady` by `UpdateStatefulSetPods` rests on.
use mathlib.Core.Path.{subst}
use splunk_operator_mirror_d.StatefulSet.Calls.{walked_all}
use splunk_operator_mirror_d.StatefulSet.Manager.{PodManager, Answer, returns, panics}
use splunk_operator_mirror_d.Api.{found, ready, Fetched, fails}
use splunk_operator_mirror_d.Prelude.{
  ℕ, ◌≡◌, true, arith, false, none, some, refl, Bool-cases, ◌<◌, ◌∷◌, inr, ◌++◌, inl, ap, [], suc,
  zero, dec_lt, List, ◌-◌, String,
}
use splunk_operator_mirror_d.StatefulSet.Update.{
  StatefulSet, Server, Pod, pod_ready, Outcome, after_finish_recycle, recycle, exits, check_pod,
  is_outdated, tell, finishes_recycle, finish_all, check_pods, removes_secrets, finishes_upgrade,
  gets_sts, delete_claims, scale_down, manage, update_pods, scale_up,
}

-- The pod was found, is ready, and runs the revision that the StatefulSet wants.
abbrev pub IsCurrent : Server → StatefulSet → ℕ → Type 0
IsCurrent server sts n =
    (p : Pod) × (server.get_pod n ≡ found p) × (pod_ready p ≡ true) × (is_outdated sts p ≡ false)

module _ {S : Type 0} (server : Server) (mgr : PodManager S) where
  abbrev EndsReady : Outcome S → Type 0
  EndsReady o = o.exit ≡ exits ready none

  after_finish_recycle-ready :
      (sts : StatefulSet) (rest : S → Outcome S) (answer : Answer × S)
      → EndsReady (after_finish_recycle server mgr sts rest answer)
      → after_finish_recycle server mgr sts rest answer ≡ rest answer.1
  unfolding after_finish_recycle
  after_finish_recycle-ready sts rest (panics, s) h = cc
  after_finish_recycle-ready sts rest (returns ok (some e), s) h = cc
  after_finish_recycle-ready sts rest (returns false none, s) h = cc
  after_finish_recycle-ready sts rest (returns true none, s) h = refl

  recycle-ready : (sts : StatefulSet) (n : ℕ) (s : S) → ¬ EndsReady (recycle server mgr sts n s)
  unfolding recycle
  recycle-ready sts n s h = ground arith

  check_pod-ready :
      (sts : StatefulSet) (n : ℕ) (rest : S → Outcome S) (s : S) (answer : Fetched Pod)
      → server.get_pod n ≡ answer
      → EndsReady (check_pod server mgr sts n rest s answer)
      → IsCurrent server sts n
        × (check_pod server mgr sts n rest s answer
            ≡ tell (finishes_recycle n) (rest (mgr.finish_recycle n s).1))
  unfolding check_pod
  check_pod-ready sts n rest s (fails e) q h = cc
  check_pod-ready sts n rest s (found p) q h = elim (Bool-cases (pod_ready p)) [
    | inr busy ↦ ground arith
    | inl idle ↦ elim (Bool-cases (is_outdated sts p)) [
      | inl old ↦ absurd (recycle-ready sts n s (simp (idle, old) at h))
      | inr current ↦
          let h' = simp (idle, current) at h in
          let e = after_finish_recycle-ready sts rest (mgr.finish_recycle n s) h' in
          ((p, q, idle, current), simp (idle, current) (ap (tell (finishes_recycle n)) e))
    ]
  ]

  finish_all-ready :
      (sts : StatefulSet) (s : S)
      → EndsReady (finish_all server mgr sts s)
      → ((finish_all server mgr sts s).log ≡ removes_secrets ∷ finishes_upgrade 0 ∷ [])
        × ((finish_all server mgr sts s).sts ≡ sts)
  unfolding finish_all
  finish_all-ready sts s h = ground arith

  delete_claims-ready :
      (vols : List String) (sts : StatefulSet) (n : ℕ) (s : S)
      → ¬ EndsReady (delete_claims server mgr vols sts n s)
  unfolding delete_claims
  delete_claims-ready [] sts n s h = cc
  delete_claims-ready (vol ∷ vols) sts n s h = ground (arith, delete_claims-ready vols sts n s)

  scale_down-ready : (sts : StatefulSet) (s : S) → ¬ EndsReady (scale_down server mgr sts s)
  unfolding scale_down
  scale_down-ready sts s h =
      let n = sts.ready_replicas - 1 in
      ground (
        arith,
        delete_claims-ready sts.volume_claims (record sts { replicas = n }) n
            (mgr.prepare_scale_down n s).1,
      )

  check_pods-ready :
      (sts : StatefulSet) (k : ℕ) (s : S)
      → EndsReady (check_pods server mgr sts k s)
      → ((n : ℕ) → n < k → IsCurrent server sts n)
        × ((check_pods server mgr sts k s).log
            ≡ walked_all k ++ (removes_secrets ∷ finishes_upgrade 0 ∷ []))
        × ((check_pods server mgr sts k s).sts ≡ sts)
  unfolding check_pods
  check_pods-ready sts zero s h =
      let (l, same) = finish_all-ready sts s h in (λ n lt. elim lt [ ], l, same)
  check_pods-ready sts (suc k) s h =
      let (current, step) =
        check_pod-ready sts k (check_pods server mgr sts k) s (server.get_pod k) refl h in
      let next = (mgr.finish_recycle k s).1 in
      let (below, l, same) = check_pods-ready sts k next (cc (h, step)) in
      let all : (n : ℕ) → n < suc k → IsCurrent server sts n = λ n lt. elim (dec_lt n k) [
        | yes p ↦ below n p
        | no p ↦ let top : k ≡ n = omega arith in subst (IsCurrent server sts) top current
      ] in
      (all, cc (step, l), cc (step, same))

  manage-ready :
      (sts : StatefulSet) (desired : ℕ) (s : S)
      → EndsReady (manage server mgr sts desired s)
      → (sts.replicas ≡ desired)
        × (sts.ready_replicas ≡ desired)
        × (manage server mgr sts desired s ≡ check_pods server mgr sts desired s)
  unfolding manage scale_up
  manage-ready sts desired s h = ground (arith, scale_down-ready sts s)

  -- A reconcile that reports `PhaseReady` without an error has read a StatefulSet that wants, and
  -- has ready, exactly the desired replicas. Each of the pods was found, is ready and runs the
  -- wanted revision. The calls are the walk over all of them from the highest ordinal down, then
  -- the removal of unwanted secrets and the end of the upgrade: nothing was scaled or deleted.
  pub update_pods-ready :
      (sts : StatefulSet) (desired : ℕ) (s : S)
      → (update_pods server mgr sts desired s).exit ≡ exits ready none
      → (latest : StatefulSet) × (server.get_sts ≡ found latest)
        × (latest.replicas ≡ desired)
        × (latest.ready_replicas ≡ desired)
        × ((n : ℕ) → n < desired → IsCurrent server latest n)
        × ((update_pods server mgr sts desired s).log
            ≡ gets_sts ∷ walked_all desired ++ (removes_secrets ∷ finishes_upgrade 0 ∷ []))
  unfolding update_pods
  update_pods-ready sts desired s h = go server.get_sts refl
    where
      go :
          (answer : Fetched StatefulSet)
          → server.get_sts ≡ answer
          → (latest : StatefulSet) × (server.get_sts ≡ found latest)
            × (latest.replicas ≡ desired)
            × (latest.ready_replicas ≡ desired)
            × ((n : ℕ) → n < desired → IsCurrent server latest n)
            × ((update_pods server mgr sts desired s).log
                ≡ gets_sts ∷ walked_all desired ++ (removes_secrets ∷ finishes_upgrade 0 ∷ []))
      go (fails e) q = ground (arith, simp q at h)
      go (found latest) q =
          let (reps, idle, same) = manage-ready latest desired s (simp q at h) in
          let h' = subst EndsReady same (simp q at h) in
          let (current, l, kept) = check_pods-ready latest desired s h' in
          (latest, q, reps, idle, current, simp q (cc (same, l)))
