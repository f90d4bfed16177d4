-- ===== src/SearchHead/Status.antt =====
-- `updateStatus` of the search head cluster's pod manager: the members' states and the captain's,
-- as the REST API gives them.
use native.Mathlib.Nat.{zero-add, add-zero, add-suc, suc-add}
use splunk_operator_mirror_d.SearchHead.Manager.{unset, Member, Cluster, Rest, Captain}
use splunk_operator_mirror_d.Api.{fails, found, Fetched}
use splunk_operator_mirror_d.Prelude.{
  true, zero, suc, false, refl, Bool, ℕ, ◌≡◌, ◌≢◌, ◌<◌, if◌then◌else◌, ◌&&◌, ◌==◌, put_at, refill,
  tabulate, not, cut, arith, ◌∙◌, ap, inl, inr, cut-refill, ◌⊎◌, Bool-cases, ◌+◌,
}

-- The entry of a member that could not be asked.
abbrev unknown_member : Member
unknown_member = record {
  status = unset;
  adhoc = false;
  registered = false;
  historical_searches = 0;
  realtime_searches = 0;
}

abbrev pub status_of : Fetched Member → Member
status_of (found m) = record {
  status = m.status;
  adhoc = m.adhoc;
  registered = m.registered;
  historical_searches = m.historical_searches;
  realtime_searches = m.realtime_searches;
}
status_of (fails e) = unknown_member

abbrev pub answers {ℓ} : {A : Type ℓ} → Fetched A → Bool
answers (found a) = true
answers (fails e) = false

-- The captain's answer, once a member gives it; a member that does not answer resets `captain_ready`.
unfoldable pub ask_captain : Cluster → Fetched Captain → Cluster × Bool
ask_captain s (fails e) = (record s { captain_ready = false }, false)
ask_captain s (found c) = (
  record s {
    captain = c.label;
    captain_ready = c.service_ready;
    initialized = c.is_initialized;
    min_peers_joined = c.min_peers_joined;
    maintenance_mode = c.maintenance_mode;
  },
  true,
)

module _ (rest : Rest) where
  -- one round of the loop; the Boolean is `gotCaptainInfo`
  unfoldable pub update_member : ℕ → Cluster × Bool → Cluster × Bool
  unfolding ask_captain
  update_member n (s, got) =
      let info = rest.member_info n in
      let (s', got') =
        if answers info && not got then ask_captain s (rest.captain_info n) else (s, got) in
      (record s' { members = put_at s'.members n (status_of info) }, got')

  -- `k` rounds, from the member `n` on
  unfoldable pub update_members : ℕ → ℕ → Cluster × Bool → Cluster × Bool
  update_members zero n w = w
  update_members (suc k) n w = update_members k (suc n) (update_member n w)

  -- `avail` and `count` are the StatefulSet's `Status.ReadyReplicas` and `Status.Replicas`
  unfoldable pub update_status : ℕ → ℕ → Cluster → Cluster
  unfolding update_members
  update_status avail count s =
      let fresh = record s { captain = ""; captain_ready = false; ready_replicas = avail } in
      let done = (update_members count 0 (fresh, false)).0 in
      if avail == 0 then fresh else record done { members = cut count done.members }

  update_member-members :
      (n : ℕ) (w : Cluster × Bool)
      → (update_member n w).0.members ≡ put_at w.0.members n (status_of (rest.member_info n))
  unfolding update_member
  update_member-members n w = ground arith

  update_members-members :
      (k n : ℕ) (w : Cluster × Bool)
      → (update_members k n w).0.members
        ≡ refill (λ i. status_of (rest.member_info i)) k n w.0.members
  unfolding update_members
  update_members-members zero n w = refl
  update_members-members (suc k) n w =
      update_members-members k (suc n) (update_member n w)
      ∙ ap (refill (λ i. status_of (rest.member_info i)) k (suc n)) (update_member-members n w)

  -- With a ready replica, the status lists exactly one entry for each replica of the StatefulSet,
  -- in order: what that member answered, or an empty entry if it did not. Nothing that the list
  -- held before is left, however long it was.
  pub update_status-members :
      (avail count : ℕ) (s : Cluster)
      → avail ≢ 0
      → (update_status avail count s).members
        ≡ tabulate (λ i. status_of (rest.member_info i)) 0 count
  unfolding update_status
  update_status-members avail count s h =
      let fresh = record s { captain = ""; captain_ready = false; ready_replicas = avail } in
      let f = λ (i : ℕ). status_of (rest.member_info i) in
      ground (arith, update_members-members count 0 (fresh, false), cut-refill f count s.members)

  -- A member below `n` answered for itself and told who the captain is, and `s` has its answer.
  abbrev pub CaptainSeen : ℕ → Cluster → Type 0
  CaptainSeen n s =
      (i : ℕ) × (c : Captain) × (i < n)
      × (answers (rest.member_info i) ≡ true)
      × (rest.captain_info i ≡ found c)
      × (s.captain ≡ c.label)
      × (s.captain_ready ≡ c.service_ready)
      × (s.initialized ≡ c.is_initialized)

  abbrev Seen : ℕ → Cluster × Bool → Type 0
  Seen n w = ((w.1 ≡ false) × (w.0.captain_ready ≡ false)) ⊎ ((w.1 ≡ true) × (CaptainSeen n w.0))

  ask_captain-Seen :
      (n : ℕ) (s : Cluster) (answer : Fetched Captain)
      → answers (rest.member_info n) ≡ true
      → rest.captain_info n ≡ answer
      → Seen (suc n) (ask_captain s answer)
  unfolding ask_captain
  ask_captain-Seen n s (fails e) a q = inl (refl, refl)
  ask_captain-Seen n s (found c) a q = inr (refl, (n, c, omega arith, a, q, refl, refl, refl))

  update_member-Seen : (n : ℕ) (w : Cluster × Bool) → Seen n w → Seen (suc n) (update_member n w)
  unfolding update_member
  update_member-Seen n (s, got) (inr (g, (i, c, lt, a, q, l, r, t))) =
      inr (ground arith, (i, c, omega arith, a, q, ground arith, ground arith, ground arith))
  update_member-Seen n (s, got) (inl (g, unready)) =
      elim (Bool-cases (answers (rest.member_info n))) [
        | inl yes_info ↦
            simp (yes_info, g) (ask_captain-Seen n s (rest.captain_info n) yes_info refl)
        | inr no_info ↦ simp (no_info, g) (inl (refl, unready))
      ]

  update_members-Seen :
      (k n : ℕ) (w : Cluster × Bool) → Seen n w → Seen (n + k) (update_members k n w)
  unfolding update_members
  update_members-Seen zero n w h = rw add-zero h
  update_members-Seen (suc k) n w h =
      rw (add-suc, ← suc-add)
        (update_members-Seen k (suc n) (update_member n w) (update_member-Seen n w h))

  -- The status says that the captain is ready only on the word of a member: one of the
  -- StatefulSet's replicas answered for itself and for the captain, and its answer about the
  -- captain is what the status shows.
  pub update_status-captain :
      (avail count : ℕ) (s : Cluster)
      → (update_status avail count s).captain_ready ≡ true
      → CaptainSeen count (update_status avail count s)
  unfolding update_status
  update_status-captain avail count s h =
      let fresh = record s { captain = ""; captain_ready = false; ready_replicas = avail } in
      let seen = rw zero-add at (update_members-Seen count 0 (fresh, false) (inl (refl, refl))) in
      elim (Bool-cases (avail == 0)) [
        | inl none_up ↦ ground arith
        | inr some_up ↦ elim seen [
          | inl (g, unready) ↦ ground arith
          | inr (g, (i, c, lt, a, q, l, r, t)) ↦ simp some_up (i, c, lt, a, q, l, r, t)
        ]
      ]
