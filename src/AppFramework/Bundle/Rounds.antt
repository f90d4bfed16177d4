-- ===== src/AppFramework/Bundle/Rounds.antt =====
-- The loop over the cluster-wide playbooks: it ends, and what it takes to end with a complete push.
use splunk_operator_mirror_d.AppFramework.Phases.{is_cluster_scoped}
use splunk_operator_mirror_d.AppFramework.Bundle.Loop.{
  Round, push_loop, needs_playbook, run_cluster_playbook,
}
use splunk_operator_mirror_d.AppFramework.Types.{Config}
use splunk_operator_mirror_d.AppFramework.Bundle.Marked.{Each, SourceMarks, sources-Each}
use splunk_operator_mirror_d.AppFramework.Bundle.Moves.{
  accepts, confirms, completes, stays, begins, starts_over, Moves, run_cluster_playbook-Moves,
}
use splunk_operator_mirror_d.AppFramework.Deployment.Changes.{
  push_in_progress, push_complete, set_cluster_installed, push_pending,
}
use splunk_operator_mirror_d.Prelude.{
  false, inl, some, suc, zero, true, inr, refl, String, ℕ, ◌≤◌, ◌≡◌, ◌<◌, ◌⊎◌, Bool-cases, ◌+◌,
  arith,
}
use splunk_operator_mirror_d.AppFramework.Bundle.{
  Push, Config, String, ℕ, set_cluster_installed, is_pending_cluster_work, is_cluster_scoped,
}

module _ (cfg : Config) (name : String) (deadline : ℕ) (rounds : ℕ → Round) where
  -- The loop from the round `k` on ends in the round `n`, by its own test.
  abbrev Ends : ℕ → ℕ → Push → Type 0
  Ends fuel k p =
      (p' : Push) × (n : ℕ) × (push_loop cfg name deadline rounds fuel k p ≡ some p')
      × (n < k + fuel)
      × (needs_playbook cfg.kind deadline (rounds n).now p' ≡ false)

  push_loop-Ends :
      ((k : ℕ) → (rounds k).now < (rounds (suc k)).now)
      → (f k : ℕ) (p : Push) → deadline < (rounds k).now + f
      → Ends (suc f) k p
  unfolding push_loop needs_playbook
  push_loop-Ends ticks zero k p h =
      let stop : needs_playbook cfg.kind deadline (rounds k).now p ≡ false = ground arith in
      (p, k, rw stop refl, omega arith, stop)
  push_loop-Ends ticks (suc f) k p h =
      elim (Bool-cases (needs_playbook cfg.kind deadline (rounds k).now p)) [
        | inr stop ↦ (p, k, rw stop refl, omega arith, stop)
        | inl go ↦
            let q = run_cluster_playbook cfg name (rounds k).answers p in
            let (p', n, ran, near, stop) =
              push_loop-Ends ticks f (suc k) q (omega (arith, ticks k)) in
            (p', n, rw go ran, omega (arith, near), stop)
      ]

-- A loop over the cluster-wide playbooks ends: entered at the time `entry` or ticks, with every
-- round's test at a later second than that of the round before, it stops by its own test in one of
-- the first `interval + 2` rounds, where `interval` is the scheduler's yield interval.
pub push_loop-terminates :
    (cfg : Config) (name : String) (entry interval : ℕ) (rounds : ℕ → Round) (p : Push)
    → entry ≤ (rounds 0).now
    → ((k : ℕ) → (rounds k).now < (rounds (suc k)).now)
    → (p' : Push) × (n : ℕ) × (push_loop cfg name (entry + interval) rounds (interval + 2) 0 p
        ≡ some p')
      × (n < interval + 2)
      × (needs_playbook cfg.kind (entry + interval) (rounds n).now p' ≡ false)
push_loop-terminates cfg name entry interval rounds p entered_by ticks =
    let two : interval + 2 ≡ suc (suc interval) = omega arith in
    let (p', n, ran, near, stop) =
      push_loop-Ends cfg name (entry + interval) rounds ticks (suc interval) 0 p (omega arith) in
    (p', n, rw two ran, omega (arith, near), stop)

module _ (cfg : Config) (name : String) (deadline : ℕ) (rounds : ℕ → Round) where
  abbrev pub Confirmed : ℕ → Push → Push → Type 0
  Confirmed n p p' =
      (confirms cfg.kind (rounds n).answers ≡ true)
      × (p'.deployment.sources ≡ (set_cluster_installed cfg p.deployment).sources)
      × (p'.retry_count ≡ 0)

  abbrev Traced : ℕ → Push → Push → Type 0
  Traced k p p' =
      (p.deployment.bundle_stage ≡ push_complete)
      ⊎ ((n : ℕ) × (k ≤ n)
          × (Confirmed n p p')
          × ((p.deployment.bundle_stage ≡ push_in_progress)
              ⊎ ((j : ℕ) × (k ≤ j) × (j < n) × (accepts cfg.kind (rounds j).answers ≡ true))))

  push_loop_complete :
      (fuel k : ℕ) (p p' : Push)
      → push_loop cfg name deadline rounds fuel k p ≡ some p'
      → p.deployment.bundle_stage ≡ push_complete
      → p' ≡ p
  unfolding push_loop needs_playbook is_pending_cluster_work
  push_loop_complete zero k p p' h e = cc
  push_loop_complete (suc fuel) k p p' h e = elim (Bool-cases (is_cluster_scoped cfg.kind)) [
    | inl c ↦ ground arith
    | inr c ↦ ground arith
  ]

  -- one round of the trace
  after_round :
      (fuel k : ℕ) (p q p' : Push)
      → Moves cfg (rounds k).answers p q
      → push_loop cfg name deadline rounds fuel (suc k) q ≡ some p'
      → Traced (suc k) q p'
      → Traced k p p'
  unfolding set_cluster_installed
  after_round fuel k p q p' (stays d r) h (inl c) = inl (ground arith)
  after_round fuel k p q p' (stays d r) h (inr (n, le, (c, s, z), inl e)) =
      inr (n, omega arith, (c, ground arith, z), inl (ground arith))
  after_round fuel k p q p' (stays d r) h (inr (n, le, (c, s, z), inr (j, kj, jn, acc))) =
      inr (n, omega arith, (c, ground arith, z), inr (j, omega arith, jn, acc))
  after_round fuel k p q p' (begins e acc d) h (inl c) = absurd (ground arith)
  after_round fuel k p q p' (begins e acc d) h (inr (n, le, (c, s, z), from)) =
      inr (n, omega arith, (c, ground arith, z), inr (k, omega arith, omega arith, acc))
  after_round fuel k p q p' (completes e c d z) h t =
      let same = push_loop_complete fuel (suc k) q p' h (ground arith) in
      inr (k, omega arith, (c, ground (arith, same), ground (arith, same)), inl e)
  after_round fuel k p q p' (starts_over e s d) h (inl c) = absurd (ground arith)
  after_round fuel k p q p' (starts_over e s d) h (inr (n, le, (c, src, z), from)) =
      inr (n, omega arith, (c, ground arith, z), inl e)

  push_loop-Traced :
      (fuel k : ℕ) (p p' : Push)
      → push_loop cfg name deadline rounds fuel k p ≡ some p'
      → p'.deployment.bundle_stage ≡ push_complete
      → Traced k p p'
  unfolding push_loop
  push_loop-Traced zero k p p' h e = cc
  push_loop-Traced (suc fuel) k p p' h e =
      elim (Bool-cases (needs_playbook cfg.kind deadline (rounds k).now p)) [
        | inr stop ↦ inl (ground arith)
        | inl go ↦
            let q = run_cluster_playbook cfg name (rounds k).answers p in
            let ran = rw go at h in
            after_round fuel k p q p' (run_cluster_playbook-Moves cfg name (rounds k).answers p) ran
              (push_loop-Traced fuel (suc k) q p' ran e)
      ]

-- A push that is pending when the loop starts and complete when it ends was accepted in one round
-- and confirmed in a later one, and the retry count is 0. The sources and their apps are those of
-- the start, in the same order: an app of a source with the scope `cluster` whose copy was complete
-- is shown as installed and is otherwise as it was, and every other app is as it was.
pub push_loop-Confirmed :
    (cfg : Config) (name : String) (deadline : ℕ) (rounds : ℕ → Round) (fuel : ℕ) (p p' : Push)
    → push_loop cfg name deadline rounds fuel 0 p ≡ some p'
    → p.deployment.bundle_stage ≡ push_pending
    → p'.deployment.bundle_stage ≡ push_complete
    → (j : ℕ) × (n : ℕ) × (j < n)
      × (accepts cfg.kind (rounds j).answers ≡ true)
      × (confirms cfg.kind (rounds n).answers ≡ true)
      × (Each (SourceMarks cfg) p.deployment.sources p'.deployment.sources)
      × (p'.retry_count ≡ 0)
push_loop-Confirmed cfg name deadline rounds fuel p p' h begun done =
    elim (push_loop-Traced cfg name deadline rounds fuel 0 p p' h done) [
      | inl c ↦ absurd (ground arith)
      | inr (n, _, (c, s, z), inl e) ↦ absurd (ground arith)
      | inr (n, _, (c, s, z), inr (j, _, jn, acc)) ↦
          let marked = sources-Each cfg p.deployment.sources p.deployment.bundle_stage in
          (j, n, jn, acc, c, rw s marked, z)
    ]
