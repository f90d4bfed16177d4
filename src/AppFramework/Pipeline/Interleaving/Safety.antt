-- ===== src/AppFramework/Pipeline/Interleaving/Safety.antt =====
-- What the account of the install slots gives in every reachable state.
use splunk_operator_mirror_d.AppFramework.Pipeline.Interleaving.Invariant.{Reach-Inv}
use splunk_operator_mirror_d.AppFramework.Pipeline.Interleaving.{System, List, ℕ, Reach, get_elem?}
use splunk_operator_mirror_d.AppFramework.Pipeline.Interleaving.Busy.{
  on_pod, busy, busy-append, slots_used,
}
use splunk_operator_mirror_d.AppFramework.Pipeline.Managers.{get_install_slot}
use splunk_operator_mirror_d.AppFramework.Types.{Worker, Config}
use splunk_operator_mirror_d.Prelude.{
  false, inl, some, ◌∷◌, inr, ◌≡◌, List, arith, ℕ, ◌++◌, get_elem?, ◌≢◌, ap, Option-cases,
}

on_pod_self : (w : Worker) → on_pod w.ordinal (some w) ≡ 1
on_pod_self w = ground arith

-- In every reachable state, two workers at different places of the list of running installs are on
-- different pods.
pub running-distinct :
    {cfg : Config} {s : System} (before : List ℕ) (i : ℕ) (between : List ℕ) (j : ℕ)
    (after : List ℕ) (v w : Worker)
    → Reach cfg s
    → s.running ≡ before ++ (i ∷ (between ++ (j ∷ after)))
    → get_elem? s.pipeline.workers i ≡ some v
    → get_elem? s.pipeline.workers j ≡ some w
    → v.ordinal ≢ w.ordinal
running-distinct {s} before i between j after v w r e hv hw same =
    let ws = s.pipeline.workers in
    let inv = Reach-Inv r in
    let n = w.ordinal in
    let one : on_pod n (get_elem? ws i) ≡ 1 = rw hv (ground arith) in
    let two : on_pod n (get_elem? ws j) ≡ 1 = rw hw (on_pod_self w) in
    let all = ap (λ l. busy ws n l) e in
    omega (
      arith,
      one,
      two,
      all,
      inv.accounted n,
      inv.within n,
      busy-append ws n before (i ∷ (between ++ (j ∷ after))),
      busy-append ws n between (j ∷ after),
    )

-- In every reachable state, exactly one install slot of the pod of a running install is in use, so
-- that giving the slot back never waits, and no visit takes another slot of that pod.
pub running-slot :
    {cfg : Config} {s : System} (before : List ℕ) (id : ℕ) (after : List ℕ) (w : Worker)
    → Reach cfg s
    → s.running ≡ before ++ (id ∷ after)
    → get_elem? s.pipeline.workers id ≡ some w
    → (get_elem? s.slots w.ordinal ≡ some 1)
      × (get_install_slot w.ordinal s.slots ≡ some (s.slots, false))
unfolding get_install_slot
running-slot {s} before id after w r e hw =
    let ws = s.pipeline.workers in
    let inv = Reach-Inv r in
    let n = w.ordinal in
    let one : on_pod n (get_elem? ws id) ≡ 1 = rw hw (on_pod_self w) in
    let all = ap (λ l. busy ws n l) e in
    let used : slots_used s.slots n ≡ 1 =
      omega
        (arith, one, all, inv.accounted n, inv.within n, busy-append ws n before (id ∷ after)) in
    elim (Option-cases (get_elem? s.slots n)) [
      | inl none_there ↦ absurd (ground arith)
      | inr (u, there) ↦ (ground arith, ground arith)
    ]
