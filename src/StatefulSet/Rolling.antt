-- ===== src/StatefulSet/Rolling.antt =====
-- What one reconcile of `UpdateStatefulSetPods` does to the pods: how often it disrupts, and in
-- which order it recycles.
use mathlib.Core.Bool.{false≢true}
use splunk_operator_mirror_d.StatefulSet.Calls.{
  disruptions, has_none, has_deleted, RecyclesAt, kept_not_deleted, FinishesFrom,
}
use splunk_operator_mirror_d.StatefulSet.Manager.{panics, returns, PodManager, Answer}
use splunk_operator_mirror_d.Api.{found, fails, ready, Fetched}
use splunk_operator_mirror_d.StatefulSet.Update.{
  deletes_pod, finishes_recycle, prepares_recycle, gets_sts, exits, Server, delete_claims,
  scale_down, recycle, finish_all, check_pods, update_pods, after_finish_recycle, check_pod, manage,
  StatefulSet, scale_up, Outcome, Pod, Call, pod_ready, is_outdated, tell, after_fetch,
}
use mathlib.Core.Path.{subst, sym, ap}
use splunk_operator_mirror_d.Prelude.{
  [], some, ◌∷◌, false, inl, true, suc, none, zero, inr, refl, List, ℕ, String, ◌≤◌, ◌≡◌, arith,
  ◌-◌, ◌⊎◌, sym, Bool-cases, ◌∙◌, ap, ltb, ◌||◌,
}

module _ {S : Type 0} (server : Server) (mgr : PodManager S) where
  delete_claims-disruptions :
      (r : ℕ) (vols : List String) (sts : StatefulSet) (n : ℕ) (s : S)
      → disruptions r (delete_claims server mgr vols sts n s).log ≡ 0
  unfolding delete_claims
  delete_claims-disruptions r [] sts n s = refl
  delete_claims-disruptions r (vol ∷ vols) sts n s =
      ground (arith, delete_claims-disruptions r vols sts n s)

  -- a scale-down leaves out one replica of those that are ready
  scale_down-disruptions :
      (sts : StatefulSet) (s : S)
      → disruptions sts.ready_replicas (scale_down server mgr sts s).log ≤ 1
  unfolding scale_down
  scale_down-disruptions sts s =
      let n = sts.ready_replicas - 1 in
      ground (
        arith,
        delete_claims-disruptions sts.ready_replicas sts.volume_claims (record sts { replicas = n })
            n (mgr.prepare_scale_down n s).1,
      )

  recycle-disruptions :
      (r : ℕ) (sts : StatefulSet) (n : ℕ) (s : S)
      → disruptions r (recycle server mgr sts n s).log ≤ 1
  unfolding recycle
  recycle-disruptions r sts n s = ground arith

  finish_all-disruptions :
      (r : ℕ) (sts : StatefulSet) (s : S) → disruptions r (finish_all server mgr sts s).log ≡ 0
  unfolding finish_all
  finish_all-disruptions r sts s = ground arith

  check_pods-disruptions :
      (r : ℕ) (sts : StatefulSet) (k : ℕ) (s : S)
      → disruptions r (check_pods server mgr sts k s).log ≤ 1
  unfolding check_pods check_pod after_finish_recycle
  check_pods-disruptions r sts zero s = omega (arith, finish_all-disruptions r sts s)
  check_pods-disruptions r sts (suc n) s = ground (
    arith,
    recycle-disruptions r sts n s,
    check_pods-disruptions r sts n (mgr.finish_recycle n s).1,
  )

  manage-disruptions :
      (sts : StatefulSet) (desired : ℕ) (s : S)
      → disruptions sts.replicas (manage server mgr sts desired s).log ≤ 1
  unfolding manage scale_up
  manage-disruptions sts desired s =
      elim (Bool-cases
        (ltb sts.replicas sts.ready_replicas || ltb sts.ready_replicas sts.replicas)) [
          | inl differ ↦ ground arith
          | inr steady ↦
              let same : sts.ready_replicas ≡ sts.replicas = ground arith in
              let down : disruptions sts.replicas (scale_down server mgr sts s).log ≤ 1 =
                subst (λ r. disruptions r (scale_down server mgr sts s).log ≤ 1) same
                  (scale_down-disruptions sts s) in
              ground (arith, down, check_pods-disruptions sts.replicas sts sts.ready_replicas s)
        ]

  -- One reconcile takes away at most one of the replicas that the StatefulSet, as it is fetched
  -- from the API server, asks for: the pods that it deletes and the replicas that its writes of the
  -- replica count leave out are at most one together, whatever the API server and the pod manager
  -- answer otherwise.
  pub update_pods-disruptions :
      (latest sts : StatefulSet) (desired : ℕ) (s : S)
      → server.get_sts ≡ found latest
      → disruptions latest.replicas (update_pods server mgr sts desired s).log ≤ 1
  unfolding update_pods after_fetch
  update_pods-disruptions latest sts desired s h =
      rw h (omega (arith, manage-disruptions latest desired s))

  recycle_cases :
      (sts : StatefulSet) (n : ℕ) (s : S)
      → (has_none (recycle server mgr sts n s).log ≡ true)
        ⊎ ((recycle server mgr sts n s).log ≡ prepares_recycle n ∷ deletes_pod n ∷ [])
          × ((mgr.prepare_recycle n s).0 ≡ returns true none)
  unfolding recycle
  recycle_cases sts n s = grind arith

  after_finish_recycle_cases :
      (sts : StatefulSet) (rest : S → Outcome S) (answer : Answer × S)
      → (has_none (after_finish_recycle server mgr sts rest answer).log ≡ true)
        ⊎ ((after_finish_recycle server mgr sts rest answer).log ≡ (rest answer.1).log)
          × (answer.0 ≡ returns true none)
  unfolding after_finish_recycle
  after_finish_recycle_cases sts rest (panics, s) = inl refl
  after_finish_recycle_cases sts rest (returns ok (some e), s) = inl refl
  after_finish_recycle_cases sts rest (returns false none, s) = inl refl
  after_finish_recycle_cases sts rest (returns true none, s) = inr (refl, refl)

  -- One round of the loop: it stops with no deletion, recycles its pod, or goes on.
  check_pod_cases :
      (sts : StatefulSet) (n : ℕ) (rest : S → Outcome S) (s : S) (answer : Fetched Pod)
      → let log = (check_pod server mgr sts n rest s answer).log in
        (has_none log ≡ true)
        ⊎ ((p : Pod) × (answer ≡ found p)
            × (pod_ready p ≡ true)
            × (is_outdated sts p ≡ true)
            × (log ≡ prepares_recycle n ∷ deletes_pod n ∷ [])
            × ((mgr.prepare_recycle n s).0 ≡ returns true none))
        ⊎ (log ≡ finishes_recycle n ∷ (rest (mgr.finish_recycle n s).1).log)
          × ((mgr.finish_recycle n s).0 ≡ returns true none)
  unfolding check_pod
  check_pod_cases sts n rest s (fails e) = inl refl
  check_pod_cases sts n rest s (found p) = elim (Bool-cases (pod_ready p)) [
    | inr busy ↦ inl (rw busy)
    | inl idle ↦ elim (Bool-cases (is_outdated sts p)) [
      | inl old ↦ elim (recycle_cases sts n s) [
        | inl kept ↦ inl (rw (idle, old) kept)
        | inr (gone, may) ↦ inr (inl (p, refl, idle, old, rw (idle, old) gone, may))
      ]
      | inr current ↦ elim (after_finish_recycle_cases sts rest (mgr.finish_recycle n s)) [
        | inl kept ↦ inl (rw (idle, current) kept)
        | inr (on, may) ↦ inr (inr (rw (idle, current) (ap (λ l. finishes_recycle n ∷ l) on), may))
      ]
    ]
  ]

  check_pods-RecyclesAt :
      (sts : StatefulSet) (k n : ℕ) (s : S)
      → has_deleted n (check_pods server mgr sts k s).log ≡ true
      → RecyclesAt server mgr sts k n s (check_pods server mgr sts k s).log
  unfolding check_pods
  check_pods-RecyclesAt sts zero n s h = unfold finish_all in ground arith
  check_pods-RecyclesAt sts (suc k) n s h =
      elim (check_pod_cases sts k (check_pods server mgr sts k) s (server.get_pod k)) [
        | inl kept ↦ absurd (kept_not_deleted n (check_pods server mgr sts (suc k) s).log kept h)
        | inr (inl (p, e, idle, old, l, may)) ↦
            let same : k ≡ n = ground arith in
            (
              0,
              omega arith,
              rw (l, same) refl,
              p,
              rw (← same) e,
              idle,
              old,
              s,
              refl,
              rw (← same) may,
            )
        | inr (inr (l, done)) ↦
            let (d, kd, ld, p, e, idle, old, t, f, may) =
              check_pods-RecyclesAt sts k n (mgr.finish_recycle k s).1 (rw l at h) in
            let finished = subst (FinishesFrom mgr n d s t) kd (done, f) in
            (suc d, omega arith, cc (l, ld, kd), p, e, idle, old, t, finished, may)
      ]

  delete_claims-keeps :
      (vols : List String) (sts : StatefulSet) (k n : ℕ) (s : S)
      → has_deleted n (delete_claims server mgr vols sts k s).log ≡ false
  unfolding delete_claims
  delete_claims-keeps [] sts k n s = refl
  delete_claims-keeps (vol ∷ vols) sts k n s = ground (arith, delete_claims-keeps vols sts k n s)

  scale_down-keeps :
      (sts : StatefulSet) (n : ℕ) (s : S) → has_deleted n (scale_down server mgr sts s).log ≡ false
  unfolding scale_down
  scale_down-keeps sts n s =
      let k = sts.ready_replicas - 1 in
      ground (
        arith,
        delete_claims-keeps sts.volume_claims (record sts { replicas = k }) k n
            (mgr.prepare_scale_down k s).1,
      )

  manage_cases :
      (sts : StatefulSet) (desired n : ℕ) (s : S)
      → (has_deleted n (manage server mgr sts desired s).log ≡ false)
        ⊎ ((sts.replicas ≡ desired)
            × (sts.ready_replicas ≡ desired)
            × (manage server mgr sts desired s ≡ check_pods server mgr sts sts.ready_replicas s))
  unfolding manage scale_up
  manage_cases sts desired n s = grind (arith, scale_down-keeps)

  manage-RecyclesAt :
      (sts : StatefulSet) (desired n : ℕ) (s : S)
      → has_deleted n (manage server mgr sts desired s).log ≡ true
      → (sts.replicas ≡ desired)
        × (sts.ready_replicas ≡ desired)
        × (RecyclesAt server mgr sts desired n s (manage server mgr sts desired s).log)
  manage-RecyclesAt sts desired n s h = elim (manage_cases sts desired n s) [
    | inl kept ↦ absurd (false≢true (sym kept ∙ h))
    | inr (reps, idle, same) ↦
        let at = check_pods-RecyclesAt sts sts.ready_replicas n s (rw same at h) in
        (reps, idle, rw (same, ← idle) at)
  ]

  pub update_pods-RecyclesAt :
      (sts : StatefulSet) (desired n : ℕ) (s : S)
      → has_deleted n (update_pods server mgr sts desired s).log ≡ true
      → (latest : StatefulSet) × (server.get_sts ≡ found latest)
        × (latest.replicas ≡ desired)
        × (latest.ready_replicas ≡ desired)
        × (l : List Call) × ((update_pods server mgr sts desired s).log ≡ gets_sts ∷ l)
        × (RecyclesAt server mgr latest desired n s l)
  unfolding update_pods
  update_pods-RecyclesAt sts desired n s h = go server.get_sts refl
    where
      go :
          (answer : Fetched StatefulSet)
          → server.get_sts ≡ answer
          → (latest : StatefulSet) × (server.get_sts ≡ found latest)
            × (latest.replicas ≡ desired)
            × (latest.ready_replicas ≡ desired)
            × (l : List Call) × ((update_pods server mgr sts desired s).log ≡ gets_sts ∷ l)
            × (RecyclesAt server mgr latest desired n s l)
      go (fails e) q = absurd (false≢true (simp q at h))
      go (found latest) q =
          let (reps, idle, at) = manage-RecyclesAt latest desired n s (simp q at h) in
          (latest, q, reps, idle, (manage server mgr latest desired s).log, simp q, at)

  check_pod-ready :
      (sts : StatefulSet) (n : ℕ) (rest : S → Outcome S) (s : S) (answer : Fetched Pod)
      → (check_pod server mgr sts n rest s answer).exit ≡ exits ready none
      → (p : Pod) × (answer ≡ found p)
        × (pod_ready p ≡ true)
        × (is_outdated sts p ≡ false)
        × (check_pod server mgr sts n rest s answer
            ≡ tell (finishes_recycle n) (rest (mgr.finish_recycle n s).1))
  unfolding check_pod after_finish_recycle recycle
  check_pod-ready sts n rest s (fails e) h = ground arith
  check_pod-ready sts n rest s (found p) h = (p, refl, ground arith, ground arith, ground arith)
