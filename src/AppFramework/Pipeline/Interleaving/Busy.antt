-- ===== src/AppFramework/Pipeline/Interleaving/Busy.antt =====
-- How many workers of a list are on a pod, and the install slots in use on it.
use splunk_operator_mirror_d.AppFramework.Pipeline.Pods.{KeepsPods}
use splunk_operator_mirror_d.AppFramework.Types.{Worker}
use splunk_operator_mirror_d.Prelude.{
  zero, some, ◌∷◌, suc, [], none, refl, ℕ, List, Option, get_elem?, replicate, if◌then◌else◌, ◌+◌,
  ◌≡◌, ◌++◌, ◌==◌, arith, set, get_elem?-set_if,
}

-- Whether a worker is on the pod `n`, as a number.
abbrev pub on_pod : ℕ → Option Worker → ℕ
on_pod n none = 0
on_pod n (some w) = if w.ordinal == n then 1 else 0

-- How many of the workers at these places are on the pod `n`.
abbrev pub busy : List Worker → ℕ → List ℕ → ℕ
busy ws n [] = 0
busy ws n (id ∷ ids) = on_pod n (get_elem? ws id) + busy ws n ids

-- The slots in use on the pod `n`; none where there is no such pod.
abbrev pub used_of : Option ℕ → ℕ
used_of none = 0
used_of (some u) = u

abbrev pub slots_used : List ℕ → ℕ → ℕ
slots_used slots n = used_of (get_elem? slots n)

abbrev pub Known : List Worker → List ℕ → Type 0
Known ws [] = Unit
Known ws (id ∷ ids) = ((w : Worker) × (get_elem? ws id ≡ some w)) × Known ws ids

pub busy-append :
    (ws : List Worker) (n : ℕ) (xs ys : List ℕ) → busy ws n (xs ++ ys) ≡ busy ws n xs + busy ws n ys
busy-append ws n [] ys = omega arith
busy-append ws n (x ∷ xs) ys = omega (arith, busy-append ws n xs ys)

pub Known-append :
    (ws : List Worker) (xs ys : List ℕ) → Known ws xs → Known ws ys → Known ws (xs ++ ys)
Known-append ws [] ys hx hy = hy
Known-append ws (x ∷ xs) ys hx hy = (hx.0, Known-append ws xs ys hx.1 hy)

pub Known-without :
    (ws : List Worker) (xs : List ℕ) (id : ℕ) (ys : List ℕ)
    → Known ws (xs ++ (id ∷ ys))
    → Known ws (xs ++ ys)
Known-without ws [] id ys h = h.1
Known-without ws (x ∷ xs) id ys h = (h.0, Known-without ws xs id ys h.1)

pub Known-KeepsPods :
    (ws vs : List Worker) (ids : List ℕ) → KeepsPods ws vs → Known ws ids → Known vs ids
Known-KeepsPods ws vs [] keep h = tt
Known-KeepsPods ws vs (id ∷ ids) keep ((w, e), rest) =
    let (v, f, same) = keep id w e in ((v, f), Known-KeepsPods ws vs ids keep rest)

pub busy-KeepsPods :
    (ws vs : List Worker) (n : ℕ) (ids : List ℕ)
    → KeepsPods ws vs
    → Known ws ids
    → busy vs n ids ≡ busy ws n ids
busy-KeepsPods ws vs n [] keep h = refl
busy-KeepsPods ws vs n (id ∷ ids) keep ((w, e), rest) =
    let (v, f, same) = keep id w e in ground (arith, busy-KeepsPods ws vs n ids keep rest)

pub slots_used-set :
    (slots : List ℕ) (o n v u : ℕ)
    → get_elem? slots o ≡ some u
    → slots_used (set slots o v) n ≡ (if o == n then v else slots_used slots n)
slots_used-set slots o n v u h = ground (arith, get_elem?-set_if slots o n v u h)

pub slots_used-replicate : (k n : ℕ) → slots_used (replicate k 0) n ≡ 0
slots_used-replicate zero n = refl
slots_used-replicate (suc k) zero = refl
slots_used-replicate (suc k) (suc n) = slots_used-replicate k n
