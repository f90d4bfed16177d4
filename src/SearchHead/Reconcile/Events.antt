-- ===== src/SearchHead/Reconcile/Events.antt =====
-- The events `ScaledUp` and `ScaledDown` of `Update`.
use splunk_operator_mirror_d.StatefulSet.Invariant.{Keeps, update_pods-keeps}
use splunk_operator_mirror_d.SearchHead.Reconcile.{
  events_of, update, scale_events, after_status, Exit, Server, StatefulSet, update_pods, is_waiting,
}
use splunk_operator_mirror_d.StatefulSet.Update.{
  crashes, exits, Exit, Server, StatefulSet, update_pods,
}
use splunk_operator_mirror_d.Api.{ready, Err}
use splunk_operator_mirror_d.Prelude.{
  zero, inl, none, inr, some, false, [], suc, refl, ℕ, ◌≡◌, Option, Bool, arith, get_elem?, ◌∙◌,
  Bool-cases,
}
use splunk_operator_mirror_d.SearchHead.Manager.{
  Rest, Cluster, Member, prepare_member, prepare_found, prepare_recycle, prepare_scale_down,
  finish_recycle, finish_upgrade, search_head_manager, up, manual_detention, unset, other_status,
  MemberStatus,
}
use splunk_operator_mirror_d.SearchHead.Status.{
  update_status, update_members, update_member, ask_captain,
}

-- `Status.Replicas` is the given number.
abbrev HasReplicas : ℕ → Cluster → Type 0
HasReplicas r s = s.replicas ≡ r

module _ (rest : Rest) (r : ℕ) where
  prepare_member-replicas :
      (n : ℕ) (s : Cluster) (m : Member) (status : MemberStatus)
      → (prepare_member rest n s status m).1.replicas ≡ s.replicas
  unfolding prepare_member
  prepare_member-replicas n s m up = ground arith
  prepare_member-replicas n s m manual_detention = refl
  prepare_member-replicas n s m unset = refl
  prepare_member-replicas n s m (other_status t) = refl

  prepare_found-replicas :
      (n : ℕ) (s : Cluster) (o : Option Member) → (prepare_found rest n s o).1.replicas ≡ s.replicas
  unfolding prepare_found
  prepare_found-replicas n s none = refl
  prepare_found-replicas n s (some m) = prepare_member-replicas n s m m.status

  prepare_recycle-replicas :
      (n : ℕ) (s : Cluster) → (prepare_recycle rest n s).1.replicas ≡ s.replicas
  unfolding prepare_recycle
  prepare_recycle-replicas n s = prepare_found-replicas n s (get_elem? s.members n)

  prepare_scale_down-replicas :
      (n : ℕ) (s : Cluster) → (prepare_scale_down rest n s).1.replicas ≡ s.replicas
  unfolding prepare_scale_down
  prepare_scale_down-replicas n s = ground (arith, prepare_recycle-replicas n s)

  finish_recycle-replicas :
      (n : ℕ) (s : Cluster) → (finish_recycle rest n s).1.replicas ≡ s.replicas
  unfolding finish_recycle
  finish_recycle-replicas n s = ground arith

  finish_upgrade-replicas :
      (n : ℕ) (s : Cluster) → (finish_upgrade rest n s).1.replicas ≡ s.replicas
  unfolding finish_upgrade
  finish_upgrade-replicas n s = ground arith

  HasReplicas-Keeps : Keeps (HasReplicas r) (search_head_manager rest)
  HasReplicas-Keeps = record {
    scale = λ n s h. prepare_scale_down-replicas n s ∙ h;
    prepare = λ n s h. prepare_recycle-replicas n s ∙ h;
    finish = λ n s h. finish_recycle-replicas n s ∙ h;
    upgrade = λ n s h. finish_upgrade-replicas n s ∙ h;
  }

  update_member-replicas :
      (n : ℕ) (w : Cluster × Bool) → (update_member rest n w).0.replicas ≡ w.0.replicas
  unfolding update_member ask_captain
  update_member-replicas n (s, got) = ground arith

  update_members-replicas :
      (k n : ℕ) (w : Cluster × Bool) → (update_members rest k n w).0.replicas ≡ w.0.replicas
  unfolding update_members
  update_members-replicas zero n w = refl
  update_members-replicas (suc k) n w =
      update_members-replicas k (suc n) (update_member rest n w) ∙ update_member-replicas n w

  update_status-replicas :
      (avail count : ℕ) (s : Cluster) → (update_status rest avail count s).replicas ≡ s.replicas
  unfolding update_status
  update_status-replicas avail count s =
      let fresh : Cluster = record s {
        captain = "";
        captain_ready = false;
        ready_replicas = avail;
      } in
      ground (arith, update_members-replicas count 0 (fresh, false))

events_of-none :
    (previous desired : ℕ) (s : Cluster) (x : Exit)
    → s.replicas ≡ previous
    → events_of previous desired s x ≡ []
unfolding events_of scale_events
events_of-none previous desired s crashes h = refl
events_of-none previous desired s (exits p (some e)) h = refl
events_of-none previous desired s (exits ready none) h = ground arith
events_of-none previous desired s (exits p none) h = refl

-- No update publishes a scale event: `Status.Replicas` is read at its start and at its end, and
-- nothing that it does, with whatever answers of the API server and of Splunk, changes that field.
pub update-no_events :
    (rest : Rest) (server : Server) (sts : StatefulSet) (count desired : ℕ)
    → (applied secret : Option Err) (s : Cluster)
    → (update rest server sts count desired applied secret s).events ≡ []
unfolding update after_status
update-no_events rest server sts count desired (some e) secret s = refl
update-no_events rest server sts count desired none (some e) s = refl
update-no_events rest server sts count desired none none s =
    let s' = update_status rest sts.ready_replicas count s in
    let o = update_pods server (search_head_manager rest) sts desired s' in
    let same = update_status-replicas rest s.replicas sts.ready_replicas count s in
    let kept =
      update_pods-keeps (HasReplicas s.replicas) server (search_head_manager rest)
        (HasReplicas-Keeps rest s.replicas) sts desired s' same in
    let quiet = events_of-none s.replicas desired o.manager o.exit kept in
    elim (Bool-cases (is_waiting s')) [ inl stays ↦ rw stays refl | inr runs ↦ rw runs quiet ]
