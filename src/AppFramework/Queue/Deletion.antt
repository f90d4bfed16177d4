-- ===== src/AppFramework/Queue/Deletion.antt =====
-- Deleting a worker from a queue: what is left, whatever the order.
use splunk_operator_mirror_d.AppFramework.Queue.{
  delete_worker, get_or, index_of, length, set, take, arith, overwrite, Bool, Option, delete_at,
}
use splunk_operator_mirror_d.Prelude.{
  some, false, ◌∷◌, true, none, [], inl, suc, inr, zero, refl, ℕ, List, ◌<◌, length, ◌≢◌, ◌≡◌, set,
  take, arith, ◌⊎◌, ◌+◌, Bool-cases, ◌==◌, ◌-◌, if◌then◌else◌, length-set, Bool, Option, take_all,
  ◌∙◌, ap, sym,
}

abbrev pub count : ℕ → List ℕ → ℕ
count x [] = 0
count x (y ∷ ys) = (if x == y then 1 else 0) + count x ys

-- The one entry of a place, as a list.
abbrev at : List ℕ → ℕ → List ℕ
at a i = get_or 0 a i ∷ []

count-set :
    (x : ℕ) (a : List ℕ) (i v : ℕ)
    → i < length a
    → count x (set a i v) + count x (at a i) ≡ count x a + count x (v ∷ [])
count-set x [] i v h = absurd (omega arith)
count-set x (y ∷ a) zero v h = omega arith
count-set x (y ∷ a) (suc i) v h = omega (arith, count-set x a i v (omega arith))

count-take_pred :
    (x m : ℕ) (a : List ℕ) → length a ≡ suc m → count x (take m a) + count x (at a m) ≡ count x a
count-take_pred x m [] h = absurd (omega arith)
count-take_pred x zero (y ∷ []) h = omega arith
count-take_pred x zero (y ∷ z ∷ a) h = absurd (omega arith)
count-take_pred x (suc m) (y ∷ a) h = omega (arith, count-take_pred x m a (omega arith))

pub get_or-set_ne : (a : List ℕ) (i j v : ℕ) → i ≢ j → get_or 0 (set a i v) j ≡ get_or 0 a j
get_or-set_ne [] i j v h = refl
get_or-set_ne (x ∷ a) zero zero v h = absurd (h refl)
get_or-set_ne (x ∷ a) zero (suc j) v h = refl
get_or-set_ne (x ∷ a) (suc i) zero v h = refl
get_or-set_ne (x ∷ a) (suc i) (suc j) v h = get_or-set_ne a i j v (omega arith)

pub index_of-get :
    (w : ℕ) (q : List ℕ) (i : ℕ) → index_of w q ≡ some i → (i < length q) × (get_or 0 q i ≡ w)
index_of-get w [] i h = cc
index_of-get w (x ∷ q) zero h = ground arith
index_of-get w (x ∷ q) (suc i) h = ground (arith, index_of-get w q i)

index_of-none : (w : ℕ) (q : List ℕ) → index_of w q ≡ none → count w q ≡ 0
index_of-none w [] h = refl
index_of-none w (x ∷ q) h = ground (arith, index_of-none w q)

count-overwrite :
    (x m i : ℕ) (a : List ℕ)
    → length a ≡ suc m
    → i < suc m
    → count x (take m (overwrite a (suc m) i)) + count x (at a i) ≡ count x a
count-overwrite x m i a e h = elim (Bool-cases (i == suc m - 1)) [
  | inl last ↦ let same : i ≡ m = ground arith in rw (last, same) (count-take_pred x m a e)
  | inr inner ↦
      let ne : i ≢ m = ground arith in
      let v = get_or 0 a m in
      let size : length (set a i v) ≡ suc m = length-set a i v ∙ e in
      let whole = count-take_pred x m (set a i v) size in
      let moved = count-set x a i v (rw e h) in
      let kept = get_or-set_ne a i m v ne in
      let top : suc m - 1 ≡ m = omega arith in
      rw (inner, top) (omega (arith, whole, moved, ap (λ (l : ℕ). count x (l ∷ [])) kept))
]

-- What a deletion makes of a queue: see `count-delete_worker`.
abbrev pub IsDeletion : ℕ → List ℕ → List ℕ × Bool → Type 0
IsDeletion w q (q', hit) =
    ((hit ≡ false) × (q' ≡ q) × (count w q ≡ 0))
    ⊎ ((hit ≡ true) × ((x : ℕ) → count x q' + count x (w ∷ []) ≡ count x q))

delete_at-IsDeletion :
    (w : ℕ) (q : List ℕ) (o : Option ℕ)
    → index_of w q ≡ o
    → let (a, len, hit) = delete_at o q (length q) in IsDeletion w q (take len a, hit)
delete_at-IsDeletion w q none e =
    inl (refl, take_all (length q) q (omega arith), index_of-none w q e)
delete_at-IsDeletion w [] (some i) e = cc
delete_at-IsDeletion w (y ∷ q) (some i) e =
    let (lt, at_i) = index_of-get w (y ∷ q) i e in
    let m = length q in
    let top : suc m - 1 ≡ m = omega arith in
    inr (
      refl,
      λ x.
          let moved = rw top at (count-overwrite x m i (y ∷ q) refl lt) in
          rw top (omega (arith, moved, ap (λ (l : ℕ). count x (l ∷ [])) at_i)),
    )

-- A deletion takes one entry of the worker away and keeps every other entry as often as it was, and
-- returns true; if the worker is not in the queue, it keeps the queue and returns false.
pub delete_worker-IsDeletion : (w : ℕ) (q : List ℕ) → IsDeletion w q (delete_worker w q)
unfolding delete_worker
delete_worker-IsDeletion w q =
    let whole = take_all (length q) q (omega arith) in
    delete_at-IsDeletion w q (index_of w (take (length q) q)) (ap (index_of w) (sym whole))
