-- ===== src/Prelude/Keys.antt =====
-- What holds of every element, lists without repetition, and a list of texts as a set of keys.
use Prim.Native.String.{String}
use mathlib.Core.Path.{◌≡◌, refl, sym, ap, ap₂, ◌∙◌}
use native.Mathlib.Omega.{arith}
use mathlib.Core.Logic.{◌≢◌, ◌↔◌, inl, inr}
use mathlib.Core.Bool.{Bool, true, false, false≢true, ◌&&◌}
use mathlib.Core.List.{List, [], ◌∷◌, map}
use text.Mathlib.Text.{◌==◌ as str_eq}
use text.Mathlib.TextEquality.{eq_iff}
use splunk_operator_mirror_d.Prelude.Tests.{Bool-cases, if◌then◌else◌}

module _ {ℓ κ} {A : Type ℓ} where
  abbrev pub All : (A → Type κ) → List A → Type κ
  All P [] = Unit
  All P (x ∷ xs) = P x × All P xs

module _ {ℓ κ} {A : Type ℓ} where
  pub All-every : (P : A → Type κ) → ((x : A) → P x) → (xs : List A) → All P xs
  All-every P f [] = tt
  All-every P f (x ∷ xs) = (f x, All-every P f xs)

module _ {ℓ κ ι μ} {A : Type ℓ} where
  pub All-zip :
      {P : A → Type κ} {Q : A → Type ι} {R : A → Type μ}
      → ((x : A) → P x → Q x → R x)
      → (xs : List A) → All P xs
      → All Q xs
      → All R xs
  All-zip f [] ps qs = tt
  All-zip f (x ∷ xs) (p, ps) (q, qs) = (f x p q, All-zip f xs ps qs)

module _ {ℓ κ ι} {A : Type ℓ} {B : Type ι} where
  pub All-map :
      (f : B → A) (P : A → Type κ) (xs : List B) → All P (map f xs) → All (λ x. P (f x)) xs
  All-map f P [] ps = tt
  All-map f P (x ∷ xs) (p, ps) = (p, All-map f P xs ps)

module _ {ℓ} {A : Type ℓ} where
  abbrev pub Distinct : List A → Type ℓ
  Distinct [] = Unit
  Distinct (x ∷ xs) = All (λ y. x ≢ y) xs × Distinct xs

pub str_eq-refl : (s : String) → str_eq s s ≡ true
str_eq-refl s = (eq_iff s s).1 refl

-- A list as a set of keys that are compared by a Boolean test for their equality.
module _ {ℓ} {A : Type ℓ} (same : A → A → Bool) where
  -- `_, ok := seen[key]` on a map whose keys are these
  abbrev pub has_key : A → List A → Bool
  has_key key [] = false
  has_key key (k ∷ seen) = if same k key then true else has_key key seen

  abbrev pub AllNew : List A → List A → Type 0
  AllNew seen = All (λ key. has_key key seen ≡ false)

  -- Every key is new to the empty set.
  pub AllNew-nil : (keys : List A) → AllNew [] keys
  AllNew-nil [] = tt
  AllNew-nil (key ∷ keys) = (refl, AllNew-nil keys)

  module _ (same_iff : (a b : A) → (same a b ≡ true) ↔ (a ≡ b)) where
    pub same-ne : (a b : A) → same a b ≡ false → a ≢ b
    same-ne a b h eq = false≢true (sym h ∙ (same_iff a b).1 eq)

    pub ne-same : (a b : A) → a ≢ b → same a b ≡ false
    ne-same a b h = elim (Bool-cases (same a b)) [
      | inl eq ↦ absurd (h ((same_iff a b).0 eq))
      | inr other ↦ other
    ]

    -- A key is new to a set with one more key when it differs from that one and was new before.
    has_key-cons :
        (key k : A) (seen : List A)
        → (has_key key (k ∷ seen) ≡ false) ↔ ((k ≢ key) × (has_key key seen ≡ false))
    has_key-cons key k seen = (new, old)
      where
        new : has_key key (k ∷ seen) ≡ false → (k ≢ key) × (has_key key seen ≡ false)
        new h = elim (Bool-cases (same k key)) [
          | inl eq ↦ absurd (false≢true (sym h ∙ rw eq refl))
          | inr other ↦ (same-ne k key other, rw other at h)
        ]

        old : (k ≢ key) × (has_key key seen ≡ false) → has_key key (k ∷ seen) ≡ false
        old (n, h) = rw (ne-same k key n) h

    -- Keys are new to a set with one more key when they differ from that one and were new before.
    pub AllNew-cons :
        (k : A) (seen keys : List A)
        → AllNew (k ∷ seen) keys ↔ (All (λ key. k ≢ key) keys × AllNew seen keys)
    AllNew-cons k seen [] = (λ h. (tt, tt), λ h. tt)
    AllNew-cons k seen (key ∷ keys) =
        let (apart, old) = has_key-cons key k seen in
        let (aparts, olds) = AllNew-cons k seen keys in
        (
          λ (h, hs). (((apart h).0, (aparts hs).0), ((apart h).1, (aparts hs).1)),
          λ ((n, ns), (h, hs)). (old (n, h), olds (ns, hs)),
        )

pub str_eq-ne : (a b : String) → str_eq a b ≡ false → a ≢ b
str_eq-ne = same-ne str_eq eq_iff

pub ne-str_eq : (a b : String) → a ≢ b → str_eq a b ≡ false
ne-str_eq = ne-same str_eq eq_iff

-- Equality of two pairs of texts.
abbrev pub pair_eq : String × String → String × String → Bool
pair_eq (a, b) (c, d) = str_eq a c && str_eq b d

pub pair_eq_iff : (p q : String × String) → (pair_eq p q ≡ true) ↔ (p ≡ q)
pair_eq_iff (a, b) (c, d) = (
  λ h. ap₂ (λ x y. (x, y)) ((eq_iff a c).0 (ground arith)) ((eq_iff b d).0 (ground arith)),
  λ h.
      let first = (eq_iff a c).1 (ap (λ p. p.0) h) in
      let second = (eq_iff b d).1 (ap (λ p. p.1) h) in rw (first, second),
)
