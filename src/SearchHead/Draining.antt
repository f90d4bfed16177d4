-- ===== src/SearchHead/Draining.antt =====
-- No search head is taken away while searches run on it.
use splunk_operator_mirror_d.Indexer.Manager.{unset, up, other_status}
use mathlib.Core.Path.{subst}
use splunk_operator_mirror_d.StatefulSet.Calls.{Finishes, has_deleted}
use splunk_operator_mirror_d.StatefulSet.Rolling.{update_pods-RecyclesAt}
use splunk_operator_mirror_d.StatefulSet.Update.{Server, StatefulSet, update_pods}
use splunk_operator_mirror_d.Prelude.{
  some, suc, true, zero, none, refl, ℕ, ◌≡◌, get_elem?, Option, arith, ◌↔◌, sym, ◌+◌, ◌∙◌,
}
use splunk_operator_mirror_d.StatefulSet.Manager.{returns}
use splunk_operator_mirror_d.SearchHead.Manager.{
  unset, up, manual_detention, other_status, Rest, Cluster, prepare_member, prepare_recycle,
  finish_recycle, prepare_scale_down, Member, MemberStatus, search_head_manager, prepare_found,
}

-- The member `n` is detained and no search runs on it.
abbrev pub IsDrained : ℕ → Cluster → Type 0
IsDrained n s =
    (m : Member) × (get_elem? s.members n ≡ some m)
    × (m.status ≡ manual_detention)
    × (m.historical_searches ≡ 0)
    × (m.realtime_searches ≡ 0)

module _ (rest : Rest) where
  prepare_member-drained :
      (n : ℕ) (s : Cluster) (m : Member) (status : MemberStatus)
      → (prepare_member rest n s status m).0 ≡ returns true none
      → (status ≡ manual_detention)
        × (m.historical_searches ≡ 0)
        × (m.realtime_searches ≡ 0)
        × ((prepare_member rest n s status m).1 ≡ s)
  unfolding prepare_member
  prepare_member-drained n s m up h = ground arith
  prepare_member-drained n s m manual_detention h = ground arith
  prepare_member-drained n s m unset h = cc
  prepare_member-drained n s m (other_status t) h = cc

  prepare_found-IsDrained :
      (n : ℕ) (s : Cluster) (o : Option Member)
      → get_elem? s.members n ≡ o
      → (prepare_found rest n s o).0 ≡ returns true none
      → (IsDrained n s) × ((prepare_found rest n s o).1 ≡ s)
  unfolding prepare_found
  prepare_found-IsDrained n s none q h = cc
  prepare_found-IsDrained n s (some m) q h =
      let (d, a, b, same) = prepare_member-drained n s m m.status h in ((m, q, d, a, b), same)

  prepare_recycle-IsDrained :
      (n : ℕ) (s : Cluster)
      → (prepare_recycle rest n s).0 ≡ returns true none
      → (IsDrained n s) × ((prepare_recycle rest n s).1 ≡ s)
  unfolding prepare_recycle
  prepare_recycle-IsDrained n s h = prepare_found-IsDrained n s (get_elem? s.members n) refl h

  finish_recycle-same :
      (n : ℕ) (s : Cluster)
      → (finish_recycle rest n s).0 ≡ returns true none
      → (finish_recycle rest n s).1 ≡ s
  unfolding finish_recycle
  finish_recycle-same n s h = ground arith

  Finishes-same : (n d : ℕ) (s t : Cluster) → Finishes (search_head_manager rest) n d s t → s ≡ t
  Finishes-same n zero s t h = h
  Finishes-same n (suc d) s t (done, more) =
      sym (finish_recycle-same (suc (n + d)) s done)
      ∙ Finishes-same n d (finish_recycle rest (suc (n + d)) s).1 t more

  -- When a reconcile of the StatefulSet of a search head cluster deletes the pod `n`, the member
  -- `n` is in manual detention and no historical or real-time search runs on it, in the status
  -- with which the reconcile began.
  pub update_pods-IsDrained :
      (server : Server) (sts : StatefulSet) (desired n : ℕ) (s : Cluster)
      → has_deleted n (update_pods server (search_head_manager rest) sts desired s).log ≡ true
      → IsDrained n s
  update_pods-IsDrained server sts desired n s h =
      let (latest, q, r, idle, l, lq, at) =
        update_pods-RecyclesAt server (search_head_manager rest) sts desired n s h in
      let (d, kd, ld, p, e, up', old, t, f, may) = at in
      subst (IsDrained n) (sym (Finishes-same n d s t f)) (prepare_recycle-IsDrained n t may).0

  prepare_recycle-of_drained :
      (n : ℕ) (s : Cluster) → IsDrained n s → prepare_recycle rest n s ≡ (returns true none, s)
  unfolding prepare_recycle prepare_member
  prepare_recycle-of_drained n s (m, q, d, a, b) = ground arith

  -- A member may leave the cluster on a scale-down exactly when it is drained and Splunk has
  -- accepted its removal.
  pub prepare_scale_down-IsDrained :
      (n : ℕ) (s : Cluster)
      → ((prepare_scale_down rest n s).0 ≡ returns true none)
        ↔ (IsDrained n s × (rest.remove_member n ≡ none))
  unfolding prepare_scale_down
  prepare_scale_down-IsDrained n s = (
    λ h.
        let may : (prepare_recycle rest n s).0 ≡ returns true none = ground arith in
        ((prepare_recycle-IsDrained n s may).0, ground arith),
    λ (d, ok). let same = prepare_recycle-of_drained n s d in ground arith,
  )
