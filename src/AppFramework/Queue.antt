-- ===== src/AppFramework/Queue.antt =====
-- `addWorkersToPipelinePhase` and `deleteWorkerFromPipelinePhase` of afwscheduler.go, on a queue of
-- worker pointers, and the loops `for _, worker := range pplnPhase.q` that delete as they go.
pub mod Deletion
pub mod Sweep
use splunk_operator_mirror_d.Prelude.{
  zero, some, ◌∷◌, [], none, true, false, suc, ℕ, List, Option, Bool, if◌then◌else◌, ◌==◌, take,
  length, ◌-◌, ◌+◌, set, ◌<◌, ◌≡◌, arith, leb,
}

abbrev pub shift : Option ℕ → Option ℕ
shift none = none
shift (some n) = some (suc n)

-- the place of the first entry that is `w`
abbrev pub index_of : ℕ → List ℕ → Option ℕ
index_of w [] = none
index_of w (x ∷ xs) = if w == x then some 0 else shift (index_of w xs)

abbrev pub get_or : ℕ → List ℕ → ℕ → ℕ
get_or d [] i = d
get_or d (x ∷ xs) zero = x
get_or d (x ∷ xs) (suc i) = get_or d xs i

-- The array behind the queue, with `len` its length: the last entry is written over the entry `i`.
abbrev pub overwrite : List ℕ → ℕ → ℕ → List ℕ
overwrite a len i = if i == len - 1 then a else set a i (get_or 0 a (len - 1))

-- what `deleteWorkerFromPipelinePhase` leaves in the array and in the length, and what it returns
abbrev pub delete_at : Option ℕ → List ℕ → ℕ → List ℕ × ℕ × Bool
delete_at none a len = (a, len, false)
delete_at (some i) a len = (overwrite a len i, len - 1, true)

unfoldable pub delete_in : ℕ → List ℕ → ℕ → List ℕ × ℕ × Bool
delete_in w a len = delete_at (index_of w (take len a)) a len

-- The queue is the part of the array that its length shows.
unfoldable pub delete_worker : ℕ → List ℕ → List ℕ × Bool
unfolding delete_in
delete_worker w q = let (a, len, hit) = delete_in w q (length q) in (take len a, hit)

-- the `k` entries of the array from the place `i` on
abbrev pub entries : List ℕ → ℕ → ℕ → List ℕ
entries a i zero = []
entries a i (suc k) = get_or 0 a i ∷ entries a (suc i) k

-- `append` in place, from the place `len` on
abbrev pub write_at : List ℕ → ℕ → List ℕ → List ℕ
write_at a len [] = a
write_at a len (v ∷ vs) = write_at (set a len v) (suc len) vs

-- the array and the length after the body of a round, which deletes its worker or does not
unfoldable pub after_body : Bool → ℕ → List ℕ → ℕ → List ℕ × ℕ
unfolding delete_in
after_body true w a len = let (a', len', hit) = delete_in w a len in (a', len')
after_body false w a len = (a, len)

-- `for _, worker := range q` with `rounds` entries left from the place `i`: Go reads each entry from
-- the array, all of its capacity, as it then is. `deletes` tells in which rounds the body deletes the
-- worker that it got, and `adds` which workers other goroutines append before the next round. An
-- append that has no room moves the queue to another array; the loop stays with the old one. The
-- result lists the workers that the body gets.
unfoldable pub sweep : (ℕ → Bool) → (ℕ → List ℕ) → ℕ → ℕ → List ℕ → ℕ → List ℕ
unfolding after_body
sweep deletes adds zero i a len = []
sweep deletes adds (suc k) i a len =
    let w = get_or 0 a i in
    let (b, m) = after_body (deletes i) w a len in
    let rest = sweep deletes adds k (suc i) (write_at b m (adds i)) (m + length (adds i)) in
    w ∷ (if leb (m + length (adds i)) (length b) then rest else entries b (suc i) k)
