-- ===== src/AppFramework/Pipeline/Slots.antt =====
-- The install slots: one install at a time on each pod.
use splunk_operator_mirror_d.AppFramework.Pipeline.Transition.{transition_worker}
use splunk_operator_mirror_d.AppFramework.Phases.{
  retries_reached, may_install, scope_of, is_complete,
}
use splunk_operator_mirror_d.AppFramework.Pipeline.{
  eligible_for_run, AppDeploymentInfo, PhaseRef, look_up, PhaseInfo, set_app, read_info, phase_ref,
  retries_reached, remove_worker,
}
use splunk_operator_mirror_d.AppFramework.Types.{
  Worker, Pipeline, pod_copy, install, Config, AppDeploymentInfo, PhaseInfo,
}
use splunk_operator_mirror_d.AppFramework.Pipeline.Managers.{
  start_install, get_install_slot, free_install_slot, hand_over, with_slots, visit_install_on,
  visit_install, fail_install, visit_install_found,
}
use splunk_operator_mirror_d.Prelude.{
  ◌>>=◌, ◌∷◌, zero, suc, some, [], refl, List, ℕ, get_elem?, ◌≡◌, set, arith, ap, inl, none, false,
  inr, true, Bool, Option, ◌⊎◌, get_elem?-set, Bool-cases, ◌==◌, sym, ◌∙◌,
}
use splunk_operator_mirror_d.AppFramework.Status

set-back : (xs : List ℕ) (n v a : ℕ) → get_elem? xs n ≡ some a → set (set xs n v) n a ≡ xs
set-back [] n v a h = refl
set-back (x ∷ xs) zero v a h = ground arith
set-back (x ∷ xs) (suc n) v a h = ap (λ l. x ∷ l) (set-back xs n v a h)

-- A visit that takes a slot: the worker is handed over, on a pod that had none in use.
abbrev pub Takes : Bool → ℕ → Worker → Pipeline × List ℕ → Pipeline × List ℕ → Type 0
Takes accepted id w (p, slots) (p', slots') =
    (accepted ≡ true)
    × (get_elem? slots w.ordinal ≡ some 0)
    × (slots' ≡ set slots w.ordinal 1)
    × (p' ≡ hand_over true id w p)

-- A visit that sends nothing: the slots are as before.
abbrev pub Leaves : List ℕ → List ℕ → Bool → Type 0
Leaves slots slots' sent = (sent ≡ false) × (slots' ≡ slots)

start_install-slots :
    (accepted : Bool) (id : ℕ) (w : Worker) (p p' : Pipeline) (slots slots' : List ℕ) (sent : Bool)
    (o : Option ℕ)
    → get_elem? slots w.ordinal ≡ o
    → start_install accepted id w p slots ≡ some (p', slots', sent)
    → (Leaves slots slots' sent) ⊎ ((sent ≡ true) × (Takes accepted id w (p, slots) (p', slots')))
unfolding start_install get_install_slot free_install_slot
start_install-slots accepted id w p p' slots slots' sent none q h = ground arith
start_install-slots true id w p p' slots slots' sent (some zero) q h = inr (ground arith)
start_install-slots false id w p p' slots slots' sent (some zero) q h =
    inl (ground (arith, set-back slots w.ordinal 1 0 q, get_elem?-set slots w.ordinal 1 0 q))
start_install-slots accepted id w p p' slots slots' sent (some (suc n)) q h = inl (ground arith)

with_slots-Leaves :
    (slots slots' : List ℕ) (sent : Bool) (o : Option Pipeline) (p' : Pipeline)
    → with_slots slots o ≡ some (p', slots', sent)
    → Leaves slots slots' sent
with_slots-Leaves slots slots' sent none p' h = (ground arith, ground arith)
with_slots-Leaves slots slots' sent (some p) p' h = (ground arith, ground arith)

visit_install_on-slots :
    (cfg : Config) (accepted : Bool) (id : ℕ) (w : Worker) (info : AppDeploymentInfo)
    (ref : PhaseRef) (i : PhaseInfo) (p p' : Pipeline) (slots slots' : List ℕ) (sent : Bool)
    → visit_install_on cfg accepted id w info ref i (p, slots) ≡ some (p', slots', sent)
    → (Leaves slots slots' sent)
      ⊎ ((w.is_active ≡ false) × (sent ≡ true) × (Takes accepted id w (p, slots) (p', slots')))
unfolding visit_install_on eligible_for_run
visit_install_on-slots cfg accepted id w info ref i p p' slots slots' sent h =
    let failed_info = set_app w.app (fail_install cfg ref i info) p in
    elim (Bool-cases (retries_reached cfg i)) [
      | inl over ↦ inl (
          with_slots-Leaves slots slots' sent (remove_worker i.phase id failed_info) p'
            (simp over at h))
      | inr more ↦ elim (Bool-cases (is_complete i)) [
        | inl done ↦ inl (
            with_slots-Leaves slots slots' sent (remove_worker i.phase id p) p'
              (simp (more, done) at h))
        | inr open_still ↦ elim (Bool-cases (i.status == Status.missing_on_pod)) [
          | inl gone ↦ inl (
              with_slots-Leaves slots slots' sent (transition_worker cfg id install pod_copy p) p'
                (simp (more, open_still, gone) at h))
          | inr there ↦ elim (Bool-cases (eligible_for_run cfg w i Status.install_complete)) [
            | inr not_yet ↦ inl (ground arith)
            | inl runs ↦
                elim (start_install-slots accepted id w p p' slots slots' sent
                  (get_elem? slots w.ordinal) refl (ground arith)) [
                    | inl same ↦ inl same
                    | inr (out, takes) ↦ inr (ground arith, out, takes)
                  ]
          ]
        ]
      ]
    ]

visit_install_found-slots :
    (cfg : Config) (accepted : Bool) (id : ℕ) (w : Worker) (info : AppDeploymentInfo)
    (p p' : Pipeline) (slots slots' : List ℕ) (sent : Bool) (o : Option PhaseInfo)
    → read_info (phase_ref cfg install w) info ≡ o
    → visit_install_found cfg accepted id (p, slots) (w, info) ≡ some (p', slots', sent)
    → (Leaves slots slots' sent)
      ⊎ ((w.is_active ≡ false) × (sent ≡ true) × (Takes accepted id w (p, slots) (p', slots')))
unfolding visit_install_found
visit_install_found-slots cfg accepted id w info p p' slots slots' sent none e h =
    inl (ground arith)
visit_install_found-slots cfg accepted id w info p p' slots slots' sent (some i) e h =
    let ref = phase_ref cfg install w in
    elim (Bool-cases (may_install (scope_of cfg w.app_src))) [
      | inr cluster ↦ inl (ground arith)
      | inl local ↦
          visit_install_on-slots cfg accepted id w info ref i p p' slots slots' sent
            (rw (local, e) at h)
    ]

-- A visit of the install manager to the worker `id` either sends nothing and leaves all install
-- slots as they are, or it sends the worker: then the worker was not active, its pod had no slot in
-- use, the channel had room, and the visit takes one slot of that pod and hands the worker over.
pub visit_install-slots :
    (cfg : Config) (accepted : Bool) (id : ℕ) (w : Worker) (info : AppDeploymentInfo)
    → (p p' : Pipeline) (slots slots' : List ℕ) (sent : Bool) → look_up id p ≡ some (w, info)
    → visit_install cfg accepted id (p, slots) ≡ some (p', slots', sent)
    → (Leaves slots slots' sent)
      ⊎ ((w.is_active ≡ false) × (sent ≡ true) × (Takes accepted id w (p, slots) (p', slots')))
unfolding visit_install
visit_install-slots cfg accepted id w info p p' slots slots' sent q h =
    visit_install_found-slots cfg accepted id w info p p' slots slots' sent
      (read_info (phase_ref cfg install w) info) refl
      (sym (ap (λ o. o >>= visit_install_found cfg accepted id (p, slots)) q) ∙ h)
