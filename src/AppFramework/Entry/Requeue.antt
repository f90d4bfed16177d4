-- ===== src/AppFramework/Entry/Requeue.antt =====
-- When a custom resource is looked at again after its app framework has run.
use splunk_operator_mirror_d.AppFramework.Bundle.{is_pending_cluster_work}
use splunk_operator_mirror_d.AppFramework.Types.{Kind, Pipeline}
use splunk_operator_mirror_d.AppFramework.Entry.{
  handle_activity, leave_scheduler, ℕ, Kind, Context, Bool, Pipeline, is_pending_cluster_work, not,
  poll_requeue, List, is_empty, ltb,
}
use splunk_operator_mirror_d.Prelude.{
  false, [], true, some, ℕ, Bool, ◌≡◌, ◌&&◌, ◌||◌, not, ◌==◌, ◌+◌, ◌<◌, ◌≤◌, ◌≢◌, ◌⊎◌, inr, ◌∷◌,
  inl, refl, List, arith, Bool-cases, ltb, ◌-◌, Option-cases, if◌then◌else◌,
}

poll_requeue_lem :
    (now : ℕ) (c : Context)
    → c.poll_interval ≢ 0
    → c.last_check + c.poll_interval ≢ now
    → (t : ℕ) × ((poll_requeue now c).requeue_after ≡ some t)
      × (0 < t)
      × ((now + t ≤ c.last_check + c.poll_interval) ⊎ (t ≤ 5))
unfolding poll_requeue
poll_requeue_lem now c on still = elim (Bool-cases (ltb (c.last_check + c.poll_interval) now)) [
  | inl past ↦ (5, ground arith, omega arith, inr (omega arith))
  | inr ahead ↦
      (c.last_check + c.poll_interval - now, ground arith, ground arith, inl (ground arith))
]

poll_requeue_pos :
    (now : ℕ) (c : Context) (t : ℕ) → (poll_requeue now c).requeue_after ≡ some t → 0 < t
unfolding poll_requeue
poll_requeue_pos now c t h = ground arith

is_empty_lem : (ids : List ℕ) → is_empty ids ≡ true → ids ≡ []
is_empty_lem [] h = refl
is_empty_lem (id ∷ ids) h = cc

-- `handleAppFrameworkActivity` asks for another reconcile exactly when the scheduler has work left
-- for app sources that are tracked, or polling is on and the next poll is not due in this very
-- second, where `now` is the time before the scheduler's entry. With work left the delay that it asks
-- for is at most 5 seconds; with polling on, a delay that starts at `now` ends no later than the next
-- poll, or is at most 5 seconds if that has passed.
pub handle_activity-requeue :
    (now : ℕ) (c : Context) (revisit : Bool)
    → ((handle_activity now c revisit).requeue ≡ (
        (c.has_sources && revisit)
        || (not (c.poll_interval == 0) && not (c.last_check + c.poll_interval == now))))
      × ((c.has_sources && revisit) ≡ true
          → (t : ℕ) × ((handle_activity now c revisit).requeue_after ≡ some t) × (0 < t) × (t ≤ 5))
      × (c.poll_interval ≢ 0
          → c.last_check + c.poll_interval ≢ now
          → (t : ℕ) × ((handle_activity now c revisit).requeue_after ≡ some t)
            × (0 < t)
            × ((now + t ≤ c.last_check + c.poll_interval) ⊎ (t ≤ 5)))
unfolding handle_activity
handle_activity-requeue now c revisit = (
  ground arith,
  λ work. elim (Option-cases (poll_requeue now c).requeue_after) [
    | inl e ↦ (5, ground arith, omega arith, omega arith)
    | inr (t, e) ↦
        let positive = poll_requeue_pos now c t e in
        (if ltb 5 t then 5 else t, ground arith, ground arith, ground arith)
  ],
  λ on still.
      let (t, e, positive, in_time) = poll_requeue_lem now c on still in
      elim (Bool-cases (c.has_sources && revisit)) [
        | inr rests ↦ (t, ground (arith, e), positive, in_time)
        | inl work ↦ (if ltb 5 t then 5 else t, ground (arith, e), ground arith, ground arith)
      ],
)

-- The end of a scheduler's entry asks for no further one only if the storage was there, no worker
-- is left in any queue, and no bundle push is pending for a kind with cluster-wide apps; the
-- deployment then no longer counts as in progress.
pub leave_scheduler-rests :
    (kind : Kind) (has_storage : Bool) (p : Pipeline) (c : Context)
    → (leave_scheduler kind has_storage p c).1 ≡ false
    → (has_storage ≡ true)
      × (p.download_q ≡ [])
      × (p.pod_copy_q ≡ [])
      × (p.install_q ≡ [])
      × (is_pending_cluster_work kind c.deployment.bundle_stage ≡ false)
      × ((leave_scheduler kind has_storage p c).0.in_progress ≡ false)
unfolding leave_scheduler
leave_scheduler-rests kind has_storage p c h =
    let pending = is_pending_cluster_work kind c.deployment.bundle_stage in
    ground (arith, is_empty_lem p.download_q, is_empty_lem p.pod_copy_q, is_empty_lem p.install_q)
