-- ===== src/StatefulSet/Calls.antt =====
-- The log of one reconcile of `UpdateStatefulSetPods`: which calls take a pod away, and what a walk
-- over the pods down to one that is deleted looks like.
use splunk_operator_mirror_d.Prelude.{
  ℕ, zero, suc, ◌+◌, ◌≡◌, refl, Bool, true, false, ◌||◌, none, List, [], ◌∷◌, ◌++◌, arith, ◌==◌,
  ◌-◌,
}
use splunk_operator_mirror_d.Api.{found}
use splunk_operator_mirror_d.StatefulSet.Manager.{returns, PodManager}
use splunk_operator_mirror_d.StatefulSet.Update.{
  StatefulSet, Pod, Server, Call, updates_sts, gets_pod, deletes_pod, finishes_recycle,
  prepares_recycle, pod_ready, is_outdated,
}

-- How many of `r` replicas a call takes away: those that a write of the replica count leaves out,
-- or the pod that it deletes.
abbrev pub takes_away : ℕ → Call → ℕ
takes_away r (updates_sts n) = r - n
takes_away r (deletes_pod n) = 1
takes_away r _ = 0

abbrev pub disruptions : ℕ → List Call → ℕ
disruptions r [] = 0
disruptions r (c ∷ cs) = takes_away r c + disruptions r cs

abbrev pub has_deleted : ℕ → List Call → Bool
has_deleted n [] = false
has_deleted n (deletes_pod m ∷ cs) = m == n || has_deleted n cs
has_deleted n (_ ∷ cs) = has_deleted n cs

abbrev pub has_none : List Call → Bool
has_none [] = true
has_none (deletes_pod m ∷ cs) = false
has_none (_ ∷ cs) = has_none cs

-- The calls of a walk down to the pod `n`, without it, from the pod `n + d`.
abbrev pub walked : ℕ → ℕ → List Call
walked n zero = []
walked n (suc d) = gets_pod (suc (n + d)) ∷ finishes_recycle (suc (n + d)) ∷ walked n d

-- The calls of a walk over all pods below `k`.
abbrev pub walked_all : ℕ → List Call
walked_all zero = []
walked_all (suc k) = gets_pod k ∷ finishes_recycle k ∷ walked_all k

has_deleted-of-none : (n : ℕ) (log : List Call) → has_none log ≡ true → has_deleted n log ≡ false
has_deleted-of-none n [] h = refl
has_deleted-of-none n (c ∷ cs) h = ground (arith, has_deleted-of-none n cs)

pub kept_not_deleted :
    (n : ℕ) (log : List Call) → has_none log ≡ true → has_deleted n log ≡ true → ⊥
kept_not_deleted n log h g = cc (has_deleted-of-none n log h)

-- The manager's state after a walk down to the pod `n`, without it, from the pod `n + d`, on
-- which the manager has answered for every pod that it is finished.
abbrev pub Finishes : {S : Type 0} → PodManager S → ℕ → ℕ → S → S → Type 0
Finishes mgr n zero s t = s ≡ t
Finishes mgr n (suc d) s t =
    ((mgr.finish_recycle (suc (n + d)) s).0 ≡ returns true none)
    × Finishes mgr n d (mgr.finish_recycle (suc (n + d)) s).1 t

-- The same, with the first pod, `k`, split off.
abbrev pub FinishesFrom : {S : Type 0} → PodManager S → ℕ → ℕ → S → S → ℕ → Type 0
FinishesFrom mgr n d s t k =
    ((mgr.finish_recycle k s).0 ≡ returns true none) × Finishes mgr n d (mgr.finish_recycle k s).1 t

-- A walk over the `k` lowest pods, from the state `s` of the manager, with this log, recycles the
-- pod `n` and stops there.
abbrev pub RecyclesAt :
    {S : Type 0} → Server → PodManager S → StatefulSet → ℕ → ℕ → S → List Call → Type 0
RecyclesAt {S} server mgr sts k n s log =
    (d : ℕ) × (k ≡ suc (n + d))
    × (log ≡ walked n d ++ (gets_pod n ∷ prepares_recycle n ∷ deletes_pod n ∷ []))
    × (p : Pod) × (server.get_pod n ≡ found p)
    × (pod_ready p ≡ true)
    × (is_outdated sts p ≡ true)
    × (t : S) × (Finishes mgr n d s t)
    × ((mgr.prepare_recycle n t).0 ≡ returns true none)
