-- ===== src/Indexer/Status.antt =====
-- `updateStatus` of the indexer cluster's pod manager: the peers' states, the cluster's readiness
-- and the events on a gain or a loss of the quorum.
use splunk_operator_mirror_d.Indexer.Manager.{
  cluster_initialized, quorum_lost, quorum_restored, unset, Peer, Event, Rest, Cluster, ManagerInfo,
  is_up,
}
use splunk_operator_mirror_d.Api.{fails, ready, failed, found, Phase, Fetched, Err}
use splunk_operator_mirror_d.Prelude.{
  [], suc, ◌∷◌, false, some, true, zero, none, refl, Option, List, ℕ, Bool, ◌≤◌, if◌then◌else◌,
  put_at, not, length, ◌≡◌, ◌&&◌, cut, refill, arith, tabulate, inr, inl, ◌∙◌, Bool-cases, ◌≢◌, ap,
  cut-refill,
}

-- The entry of a peer that the cluster manager does not know.
abbrev unknown_peer : Peer
unknown_peer = record {
  peer_id = "";
  status = unset;
  active_bundle_id = "";
  bucket_count = 0;
  searchable = false;
}

abbrev pub entry_of : Option Peer → Peer
entry_of none = unknown_peer
entry_of (some p) = p

abbrev is_available : Peer → Bool
is_available p = is_up p.status && p.searchable

abbrev pub available : List Peer → ℕ
available [] = 0
available (p ∷ ps) = if is_available p then suc (available ps) else available ps

-- one round of the loop over the pods
unfoldable pub update_peer : (ℕ → Option Peer) → ℕ → Cluster → Cluster
update_peer known n s = record s { peers = put_at s.peers n (entry_of (known n)) }

-- `k` rounds, from the pod `n` on
unfoldable pub update_peers : (ℕ → Option Peer) → ℕ → ℕ → Cluster → Cluster
unfolding update_peer
update_peers known zero n s = s
update_peers known (suc k) n s = update_peers known k (suc n) (update_peer known n s)

abbrev emit : Event → Cluster → Cluster
emit e s = record s { events = e ∷ s.events }

-- the events, given the two flags before the update; `total` and `up_peers` count the peers
publish_gain : Bool → ℕ → ℕ → Cluster → Cluster
publish_gain was_initialized total up_peers s =
    let s' =
      if not was_initialized && s.initialized then emit (cluster_initialized total) s else s in
    emit (quorum_restored up_peers total) s'

unfoldable pub publish : Bool → Bool → Cluster → Cluster
unfolding publish_gain
publish was_initialized was_ready s =
    let total = length s.peers in
    let up_peers = available s.peers in
    let s' =
      if not was_ready && s.indexing_ready
      then publish_gain was_initialized total up_peers s
      else s in
    if was_ready && not s'.indexing_ready then emit (quorum_lost up_peers total) s' else s'

abbrev pub is_ready : Phase → Bool
is_ready ready = true
is_ready _ = false

module _ (rest : Rest) where
  -- after the two flags are saved; `count` is the StatefulSet's `Status.Replicas`
  take_peers : Bool → Bool → ℕ → Cluster → Fetched (ℕ → Option Peer) → Cluster × Option Err
  unfolding update_peers publish
  take_peers was_initialized was_ready count s (fails e) = (s, some e)
  take_peers was_initialized was_ready count s (found known) =
      let all = update_peers known count 0 s in
      (publish was_initialized was_ready (record all { peers = cut count all.peers }), none)

  take_info : ℕ → Cluster → Fetched ManagerInfo → Cluster × Option Err
  unfolding take_peers
  take_info count s (fails e) = (s, some e)
  take_info count s (found i) =
      take_peers s.initialized s.indexing_ready count
        (record s {
          initialized = i.is_initialized;
          indexing_ready = i.is_indexing_ready;
          service_ready = i.is_service_ready;
          maintenance_mode = i.in_maintenance;
        })
        rest.manager_peers

  -- `avail` is the StatefulSet's `Status.ReadyReplicas`
  unfoldable pub update_status : ℕ → ℕ → Cluster → Cluster × Option Err
  unfolding take_info
  update_status avail count s =
      let s' = record s { ready_replicas = avail } in
      if not (is_ready s'.manager_phase) && not (is_ready s'.master_phase)
      then (
        record s' {
          initialized = false;
          indexing_ready = false;
          service_ready = false;
          maintenance_mode = false;
        },
        some (failed "waiting for cluster manager to become ready"),
      )
      else take_info count s' rest.manager_info

  update_peers-peers :
      (known : ℕ → Option Peer) (k n : ℕ) (s : Cluster)
      → (update_peers known k n s).peers ≡ refill (λ i. entry_of (known i)) k n s.peers
  unfolding update_peers
  update_peers-peers known zero n s = refl
  update_peers-peers known (suc k) n s = update_peers-peers known k (suc n) (update_peer known n s)

  publish-peers :
      (was_initialized was_ready : Bool) (s : Cluster)
      → (publish was_initialized was_ready s).peers ≡ s.peers
  unfolding publish
  publish-peers was_initialized was_ready s = ground arith

  available-le-length : (ps : List Peer) → available ps ≤ length ps
  available-le-length [] = omega arith
  available-le-length (p ∷ ps) = ground (arith, available-le-length ps)

  -- The events of one update: none unless the cluster gains or loses its readiness to index; the
  -- numbers are those of the new list of peers.
  abbrev pub events_after : Bool → Bool → Cluster → List Event → List Event
  events_after was_initialized was_ready now old =
      let up_peers = available now.peers in
      let total = length now.peers in
      if was_ready
      then (if now.indexing_ready then old else quorum_lost up_peers total ∷ old)
      else if not now.indexing_ready
      then old
      else if not was_initialized && now.initialized
      then quorum_restored up_peers total ∷ cluster_initialized total ∷ old
      else quorum_restored up_peers total ∷ old

  -- What neither the loop over the peers nor the events change.
  abbrev pub SameFlags : Cluster → Cluster → Type 0
  SameFlags t s =
      (t.ready_replicas ≡ s.ready_replicas)
      × (t.initialized ≡ s.initialized)
      × (t.indexing_ready ≡ s.indexing_ready)
      × (t.service_ready ≡ s.service_ready)
      × (t.maintenance_mode ≡ s.maintenance_mode)

  publish-events :
      (was_initialized was_ready : Bool) (s : Cluster)
      → let after = publish was_initialized was_ready s in
        (after.events ≡ events_after was_initialized was_ready after s.events)
        × (after.peers ≡ s.peers)
        × SameFlags after s
  unfolding publish
  publish-events was_initialized was_ready s = (
    ground arith,
    ground arith,
    (ground arith, ground arith, ground arith, ground arith, ground arith),
  )

  update_peers-rest :
      (known : ℕ → Option Peer) (k n : ℕ) (s : Cluster)
      → ((update_peers known k n s).events ≡ s.events) × SameFlags (update_peers known k n s) s
  unfolding update_peers
  update_peers-rest known zero n s = (refl, (refl, refl, refl, refl, refl))
  update_peers-rest known (suc k) n s = update_peers-rest known k (suc n) (update_peer known n s)

  -- A completed update: what it was told, and what the status then shows.
  abbrev pub IsUpdate : ℕ → ℕ → Cluster → Cluster → Type 0
  IsUpdate avail count s after =
      (i : ManagerInfo) × (known : ℕ → Option Peer) × (rest.manager_info ≡ found i)
      × (rest.manager_peers ≡ found known)
      × (after.peers ≡ tabulate (λ n. entry_of (known n)) 0 count)
      × (after.ready_replicas ≡ avail)
      × (after.initialized ≡ i.is_initialized)
      × (after.indexing_ready ≡ i.is_indexing_ready)
      × (after.service_ready ≡ i.is_service_ready)
      × (after.maintenance_mode ≡ i.in_maintenance)
      × (after.events ≡ events_after s.initialized s.indexing_ready after s.events)

  take_peers_done :
      (a b : Bool) (count : ℕ) (s : Cluster) (answer : Fetched (ℕ → Option Peer))
      → let w = take_peers a b count s answer in
        w.1 ≡ none
        → (known : ℕ → Option Peer) × (answer ≡ found known)
          × (w.0.peers ≡ tabulate (λ n. entry_of (known n)) 0 count)
          × SameFlags w.0 s
          × (w.0.events ≡ events_after a b w.0 s.events)
  unfolding take_peers
  take_peers_done a b count s (fails e) h = ground arith
  take_peers_done a b count s (found known) h =
      let all = update_peers known count 0 s in
      let shown = record all { peers = cut count all.peers } in
      let (ev, ps, (av, ini, rd, sv, mm)) = publish-events a b shown in
      let (ev', (av', ini', rd', sv', mm')) = update_peers-rest known count 0 s in
      let f = λ (n : ℕ). entry_of (known n) in
      (
        known,
        refl,
        ps ∙ ap (cut count) (update_peers-peers known count 0 s) ∙ cut-refill f count s.peers,
        (av ∙ av', ini ∙ ini', rd ∙ rd', sv ∙ sv', mm ∙ mm'),
        ev ∙ ap (events_after a b (publish a b shown)) ev',
      )

  take_info-IsUpdate :
      (count : ℕ) (s : Cluster) (answer : Fetched ManagerInfo)
      → rest.manager_info ≡ answer
      → (take_info count s answer).1 ≡ none
      → IsUpdate s.ready_replicas count s (take_info count s answer).0
  unfolding take_info
  take_info-IsUpdate count s (fails e) q h = ground arith
  take_info-IsUpdate count s (found i) q h =
      let s' = record s {
        initialized = i.is_initialized;
        indexing_ready = i.is_indexing_ready;
        service_ready = i.is_service_ready;
        maintenance_mode = i.in_maintenance;
      } in
      let (known, q', ps, (av, ini, rd, sv, mm), ev) =
        take_peers_done s.initialized s.indexing_ready count s' rest.manager_peers h in
      (i, known, q, q', ps, av, ini, rd, sv, mm, ev)

  -- An update that returns no error had an answer of the cluster manager for itself and for its
  -- peers. The status then lists exactly one entry for each replica of the StatefulSet, in order:
  -- what the cluster manager knows of that pod, or an empty entry; it shows the StatefulSet's ready
  -- replicas and the four flags as the cluster manager told them. It publishes an event exactly
  -- when the readiness to index changes: a lost quorum, or a restored one, after the first
  -- initialization if that has come with it.
  pub update_status-IsUpdate :
      (avail count : ℕ) (s : Cluster)
      → (update_status avail count s).1 ≡ none
      → IsUpdate avail count s (update_status avail count s).0
  unfolding update_status
  update_status-IsUpdate avail count s h =
      let s' = record s { ready_replicas = avail } in
      elim (Bool-cases (not (is_ready s.manager_phase) && not (is_ready s.master_phase))) [
        | inl halts ↦ ground arith
        | inr runs ↦ simp runs (take_info-IsUpdate count s' rest.manager_info refl (simp runs at h))
      ]

  -- While neither the cluster manager nor a cluster master is ready, the update returns an error,
  -- clears the four flags and keeps the peers.
  pub update_status_waits :
      (avail count : ℕ) (s : Cluster)
      → is_ready s.manager_phase ≡ false
      → is_ready s.master_phase ≡ false
      → let (after, err) = update_status avail count s in
        (err ≢ none)
        × (after.initialized ≡ false)
        × (after.indexing_ready ≡ false)
        × (after.service_ready ≡ false)
        × (after.peers ≡ s.peers)
  unfolding update_status
  update_status_waits avail count s p q = ground arith
