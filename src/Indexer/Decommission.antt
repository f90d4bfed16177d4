-- ===== src/Indexer/Decommission.antt =====
-- No indexer is taken away before Splunk has decommissioned it.
use mathlib.Core.Path.{subst}
use splunk_operator_mirror_d.StatefulSet.Update.{Server, StatefulSet, update_pods}
use splunk_operator_mirror_d.StatefulSet.Calls.{Finishes, has_deleted}
use splunk_operator_mirror_d.StatefulSet.Rolling.{update_pods-RecyclesAt}
use splunk_operator_mirror_d.Indexer.Manager.{
  down, up, graceful_shutdown, PeerStatus, Rest, Cluster, decommission_peer, decommission_found,
  decommission, finish_recycle, prepare_recycle, prepare_scale_down, Peer, indexer_manager,
}
use splunk_operator_mirror_d.StatefulSet.Manager.{returns}
use splunk_operator_mirror_d.Prelude.{
  none, suc, zero, true, some, false, refl, ℕ, Bool, ◌≡◌, Option, get_elem?, arith, ◌↔◌, sym, ◌+◌,
  ◌∙◌,
}

abbrev pub is_gone : PeerStatus → Bool
is_gone graceful_shutdown = true
is_gone down = true
is_gone _ = false

-- The peer `n` has shut down.
abbrev pub IsDecommissioned : ℕ → Cluster → Type 0
IsDecommissioned n s = (p : Peer) × (get_elem? s.peers n ≡ some p) × (is_gone p.status ≡ true)

module _ (rest : Rest) where
  decommission_peer-gone :
      (n : ℕ) (enforce : Bool) (s : Cluster) (status : PeerStatus)
      → (decommission_peer rest n enforce s status).0 ≡ returns true none
      → (is_gone status ≡ true) × ((decommission_peer rest n enforce s status).1 ≡ s)
  unfolding decommission_peer
  decommission_peer-gone n enforce s up h = ground arith
  decommission_peer-gone n enforce s status h = ground arith

  decommission_found-gone :
      (n : ℕ) (enforce : Bool) (s : Cluster) (o : Option Peer)
      → get_elem? s.peers n ≡ o
      → (decommission_found rest n enforce s o).0 ≡ returns true none
      → (IsDecommissioned n s) × ((decommission_found rest n enforce s o).1 ≡ s)
  unfolding decommission_found
  decommission_found-gone n enforce s none q h = cc
  decommission_found-gone n enforce s (some p) q h =
      let (gone, same) = decommission_peer-gone n enforce s p.status h in ((p, q, gone), same)

  decommission-gone :
      (n : ℕ) (enforce : Bool) (s : Cluster)
      → (decommission rest n enforce s).0 ≡ returns true none
      → (IsDecommissioned n s) × ((decommission rest n enforce s).1 ≡ s)
  unfolding decommission
  decommission-gone n enforce s h = decommission_found-gone n enforce s (get_elem? s.peers n) refl h

  finish_recycle-same : (n : ℕ) (s : Cluster) → (finish_recycle rest n s).1 ≡ s
  unfolding finish_recycle
  finish_recycle-same n s = ground arith

  Finishes-same : (n d : ℕ) (s t : Cluster) → Finishes (indexer_manager rest) n d s t → s ≡ t
  Finishes-same n zero s t h = h
  Finishes-same n (suc d) s t (done, more) =
      sym (finish_recycle-same (suc (n + d)) s)
      ∙ Finishes-same n d (finish_recycle rest (suc (n + d)) s).1 t more

  -- When a reconcile of the StatefulSet of an indexer cluster deletes the pod `n`, the peer `n` was
  -- in graceful shutdown or down, in the status with which the reconcile began.
  pub update_pods-IsDecommissioned :
      (server : Server) (sts : StatefulSet) (desired n : ℕ) (s : Cluster)
      → has_deleted n (update_pods server (indexer_manager rest) sts desired s).log ≡ true
      → IsDecommissioned n s
  unfolding prepare_recycle
  update_pods-IsDecommissioned server sts desired n s h =
      let (latest, q, r, idle, l, lq, at) =
        update_pods-RecyclesAt server (indexer_manager rest) sts desired n s h in
      let (d, kd, ld, p, e, up', old, t, f, may) = at in
      subst (IsDecommissioned n) (sym (Finishes-same n d s t f)) (decommission-gone n false t may).0

  decommission-of_gone :
      (n : ℕ) (s : Cluster) (p : Peer)
      → get_elem? s.peers n ≡ some p
      → is_gone p.status ≡ true
      → decommission rest n true s ≡ (returns true none, s)
  unfolding decommission decommission_found decommission_peer
  decommission-of_gone n s p q g = ground arith

  -- A peer may leave on a scale-down exactly when it has shut down and the cluster manager has
  -- accepted the removal of its id.
  pub prepare_scale_down-IsDecommissioned :
      (n : ℕ) (s : Cluster)
      → ((prepare_scale_down rest n s).0 ≡ returns true none) ↔ (
          (p : Peer) × (get_elem? s.peers n ≡ some p)
          × (is_gone p.status ≡ true)
          × (rest.remove_peer p.peer_id ≡ none))
  unfolding prepare_scale_down
  prepare_scale_down-IsDecommissioned n s = (
    λ h.
        let may : (decommission rest n true s).0 ≡ returns true none = ground arith in
        let ((p, q, g), same) = decommission-gone n true s may in (p, q, g, ground arith),
    λ (p, q, g, ok). let same = decommission-of_gone n s p q g in ground arith,
  )
