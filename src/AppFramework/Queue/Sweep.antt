-- ===== src/AppFramework/Queue/Sweep.antt =====
-- The loops of the phase managers over a queue from which they delete as they go.
use splunk_operator_mirror_d.AppFramework.Queue.Deletion.{get_or-set_ne, index_of-get}
use splunk_operator_mirror_d.AppFramework.Queue.{
  sweep, get_or, length, Option, Bool, index_of, overwrite, take, set, arith, delete_at, entries,
  after_body, write_at, delete_in, leb,
}
use splunk_operator_mirror_d.Prelude.{
  ◌∷◌, some, zero, none, [], inr, inl, suc, refl, List, ℕ, ◌<◌, length, Option, Bool, ◌≡◌, take,
  set, ◌+◌, ap, arith, ◌≤◌, Bool-cases, length-set, ◌∙◌, dec_lt, ◌==◌, ◌-◌, true, false,
  if◌then◌else◌, ◌⊎◌, ◌++◌, length-append, leb, ◌≢◌,
}

index_of-le :
    (w : ℕ) (q : List ℕ) (i j : ℕ) → i < length q → get_or 0 q i ≡ w → index_of w q ≡ some j → j ≤ i
index_of-le w [] i j h e f = absurd (omega arith)
index_of-le w (x ∷ q) zero j h e f = ground arith
index_of-le w (x ∷ q) (suc i) zero h e f = omega arith
index_of-le w (x ∷ q) (suc i) (suc j) h e f = ground (arith, index_of-le w q i j)

get_or-take : (len i : ℕ) (a : List ℕ) → i < len → get_or 0 (take len a) i ≡ get_or 0 a i
get_or-take zero i a h = absurd (omega arith)
get_or-take (suc len) i [] h = refl
get_or-take (suc len) zero (x ∷ a) h = refl
get_or-take (suc len) (suc i) (x ∷ a) h = get_or-take len i a (omega arith)

length-take_le : (len : ℕ) (a : List ℕ) → length (take len a) ≤ len
length-take_le zero a = omega arith
length-take_le (suc len) [] = omega arith
length-take_le (suc len) (x ∷ a) = omega (arith, length-take_le len a)

length-take_min : (len i : ℕ) (a : List ℕ) → i < len → i < length a → i < length (take len a)
length-take_min zero i a h k = absurd (omega arith)
length-take_min (suc len) i [] h k = absurd (omega arith)
length-take_min (suc len) zero (x ∷ a) h k = omega arith
length-take_min (suc len) (suc i) (x ∷ a) h k =
    omega (arith, length-take_min len i a (omega arith) (omega arith))

-- The worker that a round gets is found no later than at its own place.
found_before :
    (a : List ℕ) (len i j : ℕ)
    → i < length a
    → index_of (get_or 0 a i) (take len a) ≡ some j
    → j ≤ i
found_before a len i j h e = elim (dec_lt i len) [
  | yes p ↦
      index_of-le (get_or 0 a i) (take len a) i j (length-take_min len i a p h)
        (get_or-take len i a p) e
  | no p ↦
      let (lt, same) = index_of-get (get_or 0 a i) (take len a) j e in
      omega (arith, lt, length-take_le len a)
]

entries-set : (a : List ℕ) (j v i k : ℕ) → j < i → entries (set a j v) i k ≡ entries a i k
entries-set a j v i zero h = refl
entries-set a j v i (suc k) h =
    cc (get_or-set_ne a j i v (omega arith), entries-set a j v (suc i) k (omega arith))

entries-overwrite :
    (a : List ℕ) (len j i k : ℕ) → j < i → entries (overwrite a len j) i k ≡ entries a i k
entries-overwrite a len j i k h = elim (Bool-cases (j == len - 1)) [
  | inl last ↦ rw last refl
  | inr inner ↦ rw inner (entries-set a j (get_or 0 a (len - 1)) i k h)
]

length-overwrite : (a : List ℕ) (len j : ℕ) → length (overwrite a len j) ≡ length a
length-overwrite a len j = ground (arith, length-set a j (get_or 0 a (len - 1)))

-- A deletion in the round `i` leaves the array's later entries alone.
delete_at-entries :
    (a : List ℕ) (len i k : ℕ) (o : Option ℕ)
    → i < length a
    → index_of (get_or 0 a i) (take len a) ≡ o
    → (entries (delete_at o a len).0 (suc i) k ≡ entries a (suc i) k)
      × (length (delete_at o a len).0 ≡ length a)
delete_at-entries a len i k none h e = (refl, refl)
delete_at-entries a len i k (some j) h e =
    let le = found_before a len i j h e in
    (entries-overwrite a len j (suc i) k (omega arith), length-overwrite a len j)

entries-set_above : (a : List ℕ) (j v i k : ℕ) → i + k ≤ j → entries (set a j v) i k ≡ entries a i k
entries-set_above a j v i zero h = refl
entries-set_above a j v i (suc k) h =
    cc (get_or-set_ne a j i v (omega arith), entries-set_above a j v (suc i) k (omega arith))

entries-write_at :
    (a : List ℕ) (len : ℕ) (vs : List ℕ) (i k : ℕ)
    → i + k ≤ len
    → (entries (write_at a len vs) i k ≡ entries a i k) × (length (write_at a len vs) ≡ length a)
entries-write_at a len [] i k h = (refl, refl)
entries-write_at a len (v ∷ vs) i k h =
    let (same, size) = entries-write_at (set a len v) (suc len) vs i k (omega arith) in
    (same ∙ entries-set_above a len v i k h, size ∙ length-set a len v)

if_same : (b : Bool) (xs ys zs : List ℕ) → xs ≡ zs → ys ≡ zs → (if b then xs else ys) ≡ zs
if_same true xs ys zs h k = h
if_same false xs ys zs h k = k

kept_entries :
    (a : List ℕ) (len : ℕ) (vs : List ℕ) (i k : ℕ)
    → vs ≡ []
    → (entries (write_at a len vs) (suc i) k ≡ entries a (suc i) k)
      × (length (write_at a len vs) ≡ length a)
kept_entries a len vs i k e = rw e (refl, refl)

module _ (deletes : ℕ → Bool) (adds : ℕ → List ℕ) where
  -- Nothing is appended in a round that deletes or after it.
  abbrev pub AddsFirst : Type 0
  AddsFirst = (i j : ℕ) → i ≤ j → deletes i ≡ true → adds j ≡ []

  -- From the round `i` on nothing is appended, or the entries that are left are all in the queue.
  abbrev IsSafe : ℕ → ℕ → ℕ → Type 0
  IsSafe i k len = ((j : ℕ) → i ≤ j → adds j ≡ []) ⊎ (i + k ≤ len)

  sweep-entries :
      AddsFirst
      → (k i : ℕ) (a : List ℕ) (len : ℕ) → i + k ≤ length a
      → IsSafe i k len
      → sweep deletes adds k i a len ≡ entries a i k
  unfolding sweep after_body delete_in
  sweep-entries first zero i a len h safe = refl
  sweep-entries first (suc k) i a len h safe =
      let w = get_or 0 a i in
      elim (Bool-cases (deletes i)) [
        | inl gone ↦
            let o = index_of w (take len a) in
            let (same, size) = delete_at-entries a len i k o (omega arith) refl in
            let b = (delete_at o a len).0 in
            let m = (delete_at o a len).1 in
            let none_added = first i i (omega arith) gone in
            let after =
              sweep-entries first k (suc i) b (m + 0) (omega (arith, size))
                (inl (λ j le. first i j (omega arith) gone)) in
            rw (gone, none_added)
              (ap (λ l. w ∷ l)
                (if_same (leb (m + 0) (length b)) (sweep deletes adds k (suc i) b (m + 0))
                  (entries b (suc i) k) (entries a (suc i) k) (after ∙ same) same))
        | inr kept ↦
            let vs = adds i in
            let b = write_at a len vs in
            let finish : (entries b (suc i) k ≡ entries a (suc i) k)
                → (length b ≡ length a)
                → IsSafe (suc i) k (len + length vs)
                → (if leb (len + length vs) (length a)
                    then sweep deletes adds k (suc i) b (len + length vs)
                    else entries a (suc i) k)
                  ≡ entries a (suc i) k =
              λ same size next.
                if_same (leb (len + length vs) (length a))
                  (sweep deletes adds k (suc i) b (len + length vs)) (entries a (suc i) k)
                  (entries a (suc i) k)
                  (sweep-entries first k (suc i) b (len + length vs) (omega (arith, size)) next
                    ∙ same)
                  refl in
            rw kept (
              ap (λ l. w ∷ l)
                (elim safe [
                  | inl quiet ↦
                      let nothing = quiet i (omega arith) in
                      let (same, size) = kept_entries a len vs i k nothing in
                      finish same size (inl (λ j le. quiet j (omega arith)))
                  | inr within ↦
                      let (same, size) = entries-write_at a len vs (suc i) k (omega arith) in
                      finish same size (inr (omega arith))
                ]))
      ]

entries-cons : (x : ℕ) (a : List ℕ) (i k : ℕ) → entries (x ∷ a) (suc i) k ≡ entries a i k
entries-cons x a i zero = refl
entries-cons x a i (suc k) = ap (λ l. get_or 0 a i ∷ l) (entries-cons x a (suc i) k)

entries_all : (a spare : List ℕ) → entries (a ++ spare) 0 (length a) ≡ a
entries_all [] spare = refl
entries_all (x ∷ a) spare =
    ap (λ l. x ∷ l) (entries-cons x (a ++ spare) 0 (length a) ∙ entries_all a spare)

-- A phase manager's loop over its queue, whose array has some spare places, gets every worker of the
-- queue exactly once and in order, whichever of them its body deletes on the way, though each
-- deletion moves the last worker of the queue to the place of the deleted one in the array that the
-- loop reads; on the condition that no other goroutine appends a worker in or after a round that
-- deletes one.
pub sweep-all :
    (deletes : ℕ → Bool) (adds : ℕ → List ℕ) (q spare : List ℕ)
    → AddsFirst deletes adds
    → sweep deletes adds (length q) 0 (q ++ spare) (length q) ≡ q
sweep-all deletes adds q spare first =
    sweep-entries deletes adds first (length q) 0 (q ++ spare) (length q)
      (omega (arith, length-append q spare)) (inr (omega arith))
    ∙ entries_all q spare

-- Without that condition a worker is missed: if the first of two workers is deleted and another one
-- is appended before the second round, that round gets the new one instead of the second.
pub sweep_misses :
    (v w new : ℕ)
    → v ≢ w
    → sweep (λ i. i == 0) (λ i. if i == 0 then new ∷ [] else []) 2 0 (v ∷ w ∷ []) 2 ≡ v ∷ new ∷ []
unfolding sweep after_body delete_in
sweep_misses v w new h = ground arith
