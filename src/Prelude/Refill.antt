-- ===== src/Prelude/Refill.antt =====
-- A status list that is rewritten in place from its first entry on, grown at its end, and cut to
-- the number of entries that were written: the loop that both `updateStatus` methods share.
use Prim.Native.Nat.{ℕ, zero, suc, ◌+◌, ◌≤◌, ◌<◌}
use mathlib.Core.Path.{◌≡◌, refl, ap, sym, ◌∙◌}
use mathlib.Core.Logic.{inl, inr}
use mathlib.Core.List.{List, [], ◌∷◌, ◌++◌, append-nil, append_assoc}
use native.Mathlib.Omega.{arith}
use native.Mathlib.Nat.{zero-add, add-zero, add-suc, suc-add}
use splunk_operator_mirror_d.Prelude.Tests.{ltb, if◌then◌else◌, Bool-cases}
use splunk_operator_mirror_d.Prelude.Lists.{length, set, take, length-append, length-set, take_all}

module _ {ℓ} {A : Type ℓ} where
  -- `if n < len(xs) { xs[n] = v } else { xs = append(xs, v) }`
  abbrev pub put_at : List A → ℕ → A → List A
  put_at xs n v = if ltb n (length xs) then set xs n v else xs ++ v ∷ []

  -- `for ; k > 0; n++` over `put_at`
  abbrev pub refill : (ℕ → A) → ℕ → ℕ → List A → List A
  refill f zero n xs = xs
  refill f (suc k) n xs = refill f k (suc n) (put_at xs n (f n))

  -- `if k < len(xs) { xs = xs[:k] }`
  abbrev pub cut : ℕ → List A → List A
  cut k xs = if ltb k (length xs) then take k xs else xs

  abbrev pub tabulate : (ℕ → A) → ℕ → ℕ → List A
  tabulate f n zero = []
  tabulate f n (suc k) = f n ∷ tabulate f (suc n) k

  take-set :
      (xs : List A) (n : ℕ) (v : A)
      → n < length xs
      → take (suc n) (set xs n v) ≡ take n xs ++ v ∷ []
  take-set [] n v h = absurd (omega arith)
  take-set (x ∷ xs) zero v h = refl
  take-set (x ∷ xs) (suc n) v h = ap (λ l. x ∷ l) (take-set xs n v (omega arith))

  take-snoc :
      (xs : List A) (n : ℕ) (v : A)
      → n ≡ length xs
      → take (suc n) (xs ++ v ∷ []) ≡ take n xs ++ v ∷ []
  take-snoc [] zero v h = refl
  take-snoc [] (suc n) v h = absurd (omega arith)
  take-snoc (x ∷ xs) zero v h = absurd (omega arith)
  take-snoc (x ∷ xs) (suc n) v h = ap (λ l. x ∷ l) (take-snoc xs n v (omega arith))

  take-put_at :
      (xs : List A) (n : ℕ) (v : A)
      → n ≤ length xs
      → take (suc n) (put_at xs n v) ≡ take n xs ++ v ∷ []
  take-put_at xs n v h = elim (Bool-cases (ltb n (length xs))) [
    | inl lt ↦ rw lt (take-set xs n v (ground arith))
    | inr ge ↦ rw ge (take-snoc xs n v (ground arith))
  ]

  length-put_at : (xs : List A) (n : ℕ) (v : A) → n ≤ length xs → suc n ≤ length (put_at xs n v)
  length-put_at xs n v h = ground (arith, length-set xs n v, length-append xs (v ∷ []))

  take-refill :
      (f : ℕ → A) (k n : ℕ) (xs : List A)
      → n ≤ length xs
      → take (n + k) (refill f k n xs) ≡ take n xs ++ tabulate f n k
  take-refill f zero n xs h = rw (add-zero, append-nil) refl
  take-refill f (suc k) n xs h =
      let ih = take-refill f k (suc n) (put_at xs n (f n)) (length-put_at xs n (f n) h) in
      rw (add-suc, ← suc-add)
        (ih
          ∙ rw (take-put_at xs n (f n) h)
              (append_assoc (take n xs) (f n ∷ []) (tabulate f (suc n) k)))

  cut-eq-take : (k : ℕ) (xs : List A) → cut k xs ≡ take k xs
  cut-eq-take k xs = elim (Bool-cases (ltb k (length xs))) [
    | inl lt ↦ rw lt refl
    | inr ge ↦ rw ge (sym (take_all k xs (ground arith)))
  ]

  -- The list is rewritten whole, whatever it held.
  pub cut-refill : (f : ℕ → A) (k : ℕ) (xs : List A) → cut k (refill f k 0 xs) ≡ tabulate f 0 k
  cut-refill f k xs =
      cut-eq-take k (refill f k 0 xs) ∙ rw zero-add at (take-refill f k 0 xs (omega arith))
