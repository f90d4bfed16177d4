-- ===== src/Merge/Settled.antt =====
-- What a merge takes over is not merged again: values, slices and probes.
pub mod Slices
pub mod Containers
use splunk_operator_mirror_d.Merge.{merge_if, Item, items_equal, slices_equal, Slice}
use splunk_operator_mirror_d.Prelude.{
  some, suc, false, [], none, inr, true, inl, ◌∷◌, refl, Bool, List, ◌≡◌, Bool-cases, length, ◌↔◌,
  same-ne, ap, ◌&&◌, arith, ◌∙◌,
}
use mathlib.Core.Logic.{∥∥₁_elim}
use mathlib.Core.HLevel.{hedberg}
use mathlib.Core.Path.{ap₂, ap}
use mathlib.Core.List.{Perm, Permᴰ}
use mathlib.Core.List.Permᴰ
use native.Mathlib.Decide.{ℕ_discrete}

-- A Boolean test of equality.
abbrev pub IsEquality : (A : Type 0) → (A → A → Bool) → Type 0
IsEquality A same = (a b : A) → (same a b ≡ true) ↔ (a ≡ b)

pub discrete : (A : Type 0) (same : A → A → Bool) → IsEquality A same → Discrete A
discrete A same law a b = elim (Bool-cases (same a b)) [
  | inl eq ↦ yes ((law a b).0 eq)
  | inr ne ↦ no (same-ne same law a b ne)
]

permᴰ-length : {A : Type 0} {xs ys : List A} → Permᴰ xs ys → length xs ≡ length ys
permᴰ-length Permᴰ.nil = refl
permᴰ-length (Permᴰ.cons e p) = ap suc (permᴰ-length p)
permᴰ-length (Permᴰ.swap e f) = refl
permᴰ-length (Permᴰ.trans p q) = permᴰ-length p ∙ permᴰ-length q

pub perm-length : {A : Type 0} {xs ys : List A} → Perm xs ys → length xs ≡ length ys
perm-length {xs = xs} {ys = ys} p =
    ∥∥₁_elim p (hedberg ℕ_discrete (length xs) (length ys)) permᴰ-length

-- A value that is taken over, or was the same before, is the same.
pub merge_if_settles :
    (A : Type 0) (same : A → A → Bool) (a b : A)
    → same b b ≡ true
    → (merge_if
        (same (merge_if (same a b) a b).current b)
        (merge_if (same a b) a b).current
        b).changed
      ≡ false
unfolding merge_if
merge_if_settles A same a b self = elim (Bool-cases (same a b)) [
  | inl eq ↦ rw (eq, eq) refl
  | inr ne ↦ rw (ne, self) refl
]

module _ {K Rest : Type 0} (same_key : K → K → Bool) (deep_equal : Rest → Rest → Bool)
    (key_law : IsEquality K same_key) (rest_law : IsEquality Rest deep_equal) where
  abbrev pub item_equal : Item K Rest → Item K Rest → Bool
  item_equal a b = same_key a.key b.key && deep_equal a.rest b.rest

  pub item_equal_law : IsEquality (Item K Rest) item_equal
  item_equal_law a b = (
    λ h.
        let keys = (key_law a.key b.key).0 (ground arith) in
        let rests = (rest_law a.rest b.rest).0 (ground arith) in
        λ i. record { key = keys i; rest = rests i },
    λ e.
        let keys = (key_law a.key b.key).1 (ap (λ x. x.key) e) in
        let rests = (rest_law a.rest b.rest).1 (ap (λ x. x.rest) e) in rw (keys, rests) refl,
  )

  items_equal_sound :
      (xs ys : List (Item K Rest)) → items_equal same_key deep_equal xs ys ≡ true → xs ≡ ys
  unfolding items_equal
  items_equal_sound [] [] h = refl
  items_equal_sound [] (y ∷ ys) h = cc
  items_equal_sound (x ∷ xs) [] h = cc
  items_equal_sound (x ∷ xs) (y ∷ ys) h =
      ap₂ ◌∷◌ ((item_equal_law x y).0 (ground arith)) (items_equal_sound xs ys (ground arith))

  items_equal_refl : (xs : List (Item K Rest)) → items_equal same_key deep_equal xs xs ≡ true
  unfolding items_equal
  items_equal_refl [] = refl
  items_equal_refl (x ∷ xs) = rw ((item_equal_law x x).1 refl, items_equal_refl xs) refl

  pub slices_equal_sound :
      (a b : Slice (Item K Rest)) → slices_equal same_key deep_equal a b ≡ true → a ≡ b
  unfolding slices_equal
  slices_equal_sound none none h = refl
  slices_equal_sound none (some ys) h = cc
  slices_equal_sound (some xs) none h = cc
  slices_equal_sound (some xs) (some ys) h = ap some (items_equal_sound xs ys h)

  pub slices_equal_refl : (a : Slice (Item K Rest)) → slices_equal same_key deep_equal a a ≡ true
  unfolding slices_equal
  slices_equal_refl none = refl
  slices_equal_refl (some xs) = items_equal_refl xs
