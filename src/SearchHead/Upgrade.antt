-- ===== src/SearchHead/Upgrade.antt =====
-- The stamps of a rolling upgrade of a search head cluster.
use splunk_operator_mirror_d.Indexer.Manager.{other_status, unset, up, lowers_probe}
use splunk_operator_mirror_d.StatefulSet.Update.{Server, StatefulSet, update_pods}
use splunk_operator_mirror_d.StatefulSet.Invariant.{Keeps, update_pods-keeps}
use splunk_operator_mirror_d.StatefulSet.Manager.{returns, Answer}
use splunk_operator_mirror_d.Prelude.{
  some, ◌∷◌, false, true, none, ℕ, ◌<◌, Option, get_elem?, arith, ◌≡◌, ◌≤◌, ap,
}
use splunk_operator_mirror_d.SearchHead.Manager.{
  finalizes, upgraded, unset, up, upgrading, other_status, lowers_probe, manual_detention,
  initiates, detains, Rest, prepare_recycle, Cluster, prepare_member, prepare_found,
  prepare_scale_down, finish_recycle, finish_upgrade, Member, search_head_manager, MemberStatus,
  send,
}

-- An upgrade whose start lies behind its end is marked as running, and no start lies in the future.
pub record IsTracked (now : ℕ) (s : Cluster) : Type 0 where
  pub marked : s.upgrade_end < s.upgrade_start → s.upgrade_phase ≡ upgrading
  pub past : s.upgrade_start ≤ now

module _ (rest : Rest) where
  prepare_member-IsTracked :
      (n : ℕ) (s : Cluster) (m : Member) (status : MemberStatus)
      → IsTracked rest.now s
      → IsTracked rest.now (prepare_member rest n s status m).1
  unfolding prepare_member
  prepare_member-IsTracked n s m up h = ground arith
  prepare_member-IsTracked n s m manual_detention h = h
  prepare_member-IsTracked n s m unset h = h
  prepare_member-IsTracked n s m (other_status t) h = h

  prepare_found-IsTracked :
      (n : ℕ) (s : Cluster) (o : Option Member)
      → IsTracked rest.now s
      → IsTracked rest.now (prepare_found rest n s o).1
  unfolding prepare_found
  prepare_found-IsTracked n s none h = h
  prepare_found-IsTracked n s (some m) h = prepare_member-IsTracked n s m m.status h

  prepare_recycle-IsTracked :
      (n : ℕ) (s : Cluster) → IsTracked rest.now s → IsTracked rest.now (prepare_recycle rest n s).1
  unfolding prepare_recycle
  prepare_recycle-IsTracked n s h = prepare_found-IsTracked n s (get_elem? s.members n) h

  prepare_scale_down-IsTracked :
      (n : ℕ) (s : Cluster)
      → IsTracked rest.now s
      → IsTracked rest.now (prepare_scale_down rest n s).1
  unfolding prepare_scale_down
  prepare_scale_down-IsTracked n s h = ground (arith, prepare_recycle-IsTracked n s h)

  finish_recycle-IsTracked :
      (n : ℕ) (s : Cluster) → IsTracked rest.now s → IsTracked rest.now (finish_recycle rest n s).1
  unfolding finish_recycle
  finish_recycle-IsTracked n s h = ground arith

  finish_upgrade-IsTracked :
      (n : ℕ) (s : Cluster) → IsTracked rest.now s → IsTracked rest.now (finish_upgrade rest n s).1
  unfolding finish_upgrade
  finish_upgrade-IsTracked n s h = ground arith

  IsTracked-Keeps : Keeps (IsTracked rest.now) (search_head_manager rest)
  IsTracked-Keeps = record {
    scale = prepare_scale_down-IsTracked;
    prepare = prepare_recycle-IsTracked;
    finish = finish_recycle-IsTracked;
    upgrade = finish_upgrade-IsTracked;
  }

  -- A reconcile of a search head cluster's StatefulSet keeps the upgrade's stamps tracked, whatever
  -- the API server and Splunk answer, if no start lies in the future when it begins.
  pub update_pods-IsTracked :
      (server : Server) (sts : StatefulSet) (desired : ℕ) (s : Cluster)
      → IsTracked rest.now s
      → IsTracked rest.now (update_pods server (search_head_manager rest) sts desired s).manager
  update_pods-IsTracked server sts desired s h =
      update_pods-keeps (IsTracked rest.now) server (search_head_manager rest) IsTracked-Keeps sts
        desired s h

module _ (rest : Rest) (n : ℕ) (s : Cluster) (m : Member) where
  prepare_recycle-up :
      IsTracked rest.now s
      → get_elem? s.members n ≡ some m
      → m.status ≡ up
      → rest.initiate_upgrade n ≡ none
      → let (answer, begun) = prepare_recycle rest n s in
        (answer ≡ returns false (rest.set_detention n true))
        × (begun.requests ≡ detains n true ∷ initiates n ∷ lowers_probe n ∷ s.requests)
        × (begun.upgrade_phase ≡ upgrading)
        × (begun.upgrade_start ≤ rest.now)
  unfolding prepare_recycle
  prepare_recycle-up h q u ok = (ground arith, ground arith, ground arith, ground arith)

module _ (rest : Rest) (s : Cluster) where
  finish_upgrade-upgrading :
      s.upgrade_phase ≡ upgrading
      → finish_upgrade rest 0 s ≡ (
        returns true (rest.finalize_upgrade 0),
        send (finalizes 0) (record s { upgrade_end = rest.now; upgrade_phase = upgraded }),
      )
  unfolding finish_upgrade
  finish_upgrade-upgrading e = ground arith

  finish_upgrade-upgraded :
      s.upgrade_phase ≡ upgraded → finish_upgrade rest 0 s ≡ (returns true none, s)
  unfolding finish_upgrade
  finish_upgrade-upgraded e = ground arith

-- From a tracked state, preparing a member that is up, with Splunk accepting the start of the
-- upgrade, lowers the probe, starts the upgrade and detains the member, in this order, and does not
-- let the pod go yet. The end of the upgrade, at any later time, then sends one request to finalize,
-- leaves the upgrade marked as done with its end not before its start, and a second end sends nothing.
pub upgrade_cycle :
    (rest later : Rest) (n : ℕ) (s : Cluster) (m : Member)
    → IsTracked rest.now s
    → get_elem? s.members n ≡ some m
    → m.status ≡ up
    → rest.initiate_upgrade n ≡ none
    → rest.now ≤ later.now
    → let (answer, begun) = prepare_recycle rest n s in
      let done = (finish_upgrade later 0 begun).1 in
      (answer ≡ returns false (rest.set_detention n true))
      × (begun.requests ≡ detains n true ∷ initiates n ∷ lowers_probe n ∷ s.requests)
      × (begun.upgrade_phase ≡ upgrading)
      × (done.requests ≡ finalizes 0 ∷ begun.requests)
      × (done.upgrade_phase ≡ upgraded)
      × (done.upgrade_start ≤ done.upgrade_end)
      × (finish_upgrade later 0 done ≡ (returns true none, done))
upgrade_cycle rest later n s m h q u ok t =
    let (a, r, p, before) = prepare_recycle-up rest n s m h q u ok in
    let begun = (prepare_recycle rest n s).1 in
    let e = finish_upgrade-upgrading later begun p in
    let ends = ap (λ (w : Answer × Cluster). w.1) e in
    let marked = ap (λ (c : Cluster). c.upgrade_phase) ends in
    let stopped = ap (λ (c : Cluster). c.upgrade_end) ends in
    let started = ap (λ (c : Cluster). c.upgrade_start) ends in
    (
      a,
      r,
      p,
      ap (λ (c : Cluster). c.requests) ends,
      marked,
      omega (arith, started, stopped),
      finish_upgrade-upgraded later (finish_upgrade later 0 begun).1 marked,
    )
