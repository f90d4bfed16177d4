-- ===== src/Prelude/Sorting.antt =====
-- The order of texts, and an insertion sort for any order.
use Prim.Native.Nat.{ℕ, Ordering, compare as compare_ℕ}
use Prim.Native.Char.{code}
use Prim.Native.String.compare
use Prim.Native.String.{String, compare, then as or_else}
use mathlib.Core.Path.{◌≡◌, refl, sym, ap, subst, ◌∙◌}
use mathlib.Core.Logic.Or
use mathlib.Core.Logic.{inl, inr}
use mathlib.Core.Bool.{Bool, true, false, true≢false, Bool-set}
use mathlib.Core.List.{
  List, [], ◌∷◌, Mem, Perm, Pairwise, Pairwise-singleton, eq-or-mem_of_mem-cons,
}
use mathlib.Core.List.Perm
use native.Mathlib.Omega.{arith}
use text.Mathlib.Text.{is_lt, is_eq}
use splunk_operator_mirror_d.Prelude.Tests.{if◌then◌else◌, Bool-cases}

or_else_asymm :
    (m n : ℕ) (o p : Ordering)
    → (is_lt o ≡ true → is_lt p ≡ false)
    → is_lt (or_else (compare_ℕ m n) o) ≡ true
    → is_lt (or_else (compare_ℕ n m) p) ≡ false
or_else_asymm m n o p f h = ground arith

or_else_trans :
    (k m n : ℕ) (o p q : Ordering)
    → (is_lt o ≡ false → is_lt p ≡ false → is_lt q ≡ false)
    → is_lt (or_else (compare_ℕ m k) o) ≡ false
    → is_lt (or_else (compare_ℕ n m) p) ≡ false
    → is_lt (or_else (compare_ℕ n k) q) ≡ false
or_else_trans k m n o p q f g h = ground arith

pub text_lt_asymm : (a b : String) → is_lt (compare a b) ≡ true → is_lt (compare b a) ≡ false
text_lt_asymm String.[] String.[] h = refl
text_lt_asymm String.[] (String.◌∷◌ d t) h = rw (compare.cons-nil d t) refl
text_lt_asymm (String.◌∷◌ c s) String.[] h =
    absurd (true≢false (sym h ∙ ap is_lt (compare.cons-nil c s)))
text_lt_asymm (String.◌∷◌ c s) (String.◌∷◌ d t) h = rw (compare.cons-cons d c t s) (
    or_else_asymm (code c) (code d) (compare s t) (compare t s) (text_lt_asymm s t)
      (rw (compare.cons-cons c d s t) at h))

-- A text that does not come before another does not come before an earlier one.
pub text_lt_trans :
    (a b c : String)
    → is_lt (compare b a) ≡ false
    → is_lt (compare c b) ≡ false
    → is_lt (compare c a) ≡ false
text_lt_trans String.[] b String.[] p q = refl
text_lt_trans String.[] b (String.◌∷◌ e u) p q = rw (compare.cons-nil e u) refl
text_lt_trans (String.◌∷◌ c s) String.[] e p q =
    absurd (true≢false (ap is_lt (sym (compare.nil-cons c s)) ∙ p))
text_lt_trans (String.◌∷◌ c s) (String.◌∷◌ d t) String.[] p q =
    absurd (true≢false (ap is_lt (sym (compare.nil-cons d t)) ∙ q))
text_lt_trans (String.◌∷◌ c s) (String.◌∷◌ d t) (String.◌∷◌ e u) p q =
    rw (compare.cons-cons e c u s) (
      or_else_trans (code c) (code d) (code e) (compare t s) (compare u t) (compare u s)
        (text_lt_trans s t u) (rw (compare.cons-cons d c t s) at p)
        (rw (compare.cons-cons e d u t) at q))

or_else_tied :
    (m n : ℕ) (o p : Ordering)
    → (is_lt o ≡ false → is_lt p ≡ false → is_eq o ≡ true)
    → is_lt (or_else (compare_ℕ m n) o) ≡ false
    → is_lt (or_else (compare_ℕ n m) p) ≡ false
    → is_eq (or_else (compare_ℕ m n) o) ≡ true
or_else_tied m n o p f g h = ground arith

-- Of two texts that differ, one comes before the other.
pub text_tied :
    (a b : String)
    → is_lt (compare a b) ≡ false
    → is_lt (compare b a) ≡ false
    → is_eq (compare a b) ≡ true
text_tied String.[] String.[] p q = refl
text_tied String.[] (String.◌∷◌ d t) p q =
    absurd (true≢false (ap is_lt (sym (compare.nil-cons d t)) ∙ p))
text_tied (String.◌∷◌ c s) String.[] p q =
    absurd (true≢false (ap is_lt (sym (compare.nil-cons c s)) ∙ q))
text_tied (String.◌∷◌ c s) (String.◌∷◌ d t) p q = rw (compare.cons-cons c d s t) (
    or_else_tied (code c) (code d) (compare s t) (compare t s) (text_tied s t)
      (rw (compare.cons-cons c d s t) at p) (rw (compare.cons-cons d c t s) at q))

module _ {A : Type 0} (less : A → A → Bool) where
  unfoldable pub insert : A → List A → List A
  insert x [] = x ∷ []
  insert x (y ∷ ys) = if less y x then y ∷ insert x ys else x ∷ y ∷ ys

  unfoldable pub insertion_sort : List A → List A
  unfolding insert
  insertion_sort [] = []
  insertion_sort (x ∷ xs) = insert x (insertion_sort xs)

  insert-perm : (x : A) (ys : List A) → Perm (insert x ys) (x ∷ ys)
  unfolding insert
  insert-perm x [] = Perm.rfl
  insert-perm x (y ∷ ys) = elim (Bool-cases (less y x)) [
    | inl later ↦ rw later (Perm.trans (Perm.cons y (insert-perm x ys)) (Perm.swap x y ys))
    | inr first ↦ rw first Perm.rfl
  ]

  module _ (asymm : (a b : A) → less a b ≡ true → less b a ≡ false)
      (later : (a b c : A) → less b a ≡ false → less c b ≡ false → less c a ≡ false) where
    insert-ordered :
        (x : A) {ys : List A}
        → Pairwise (λ a b. less b a ≡ false) ys
        → Pairwise (λ a b. less b a ≡ false) (insert x ys)
    unfolding insert
    insert-ordered x Pairwise.nil = Pairwise-singleton _ x
    insert-ordered x (Pairwise.cons {a = y} {l = ys} below s) = elim (Bool-cases (less y x)) [
      | inl behind ↦ rw behind (Pairwise.cons (from behind) (insert-ordered x s))
      | inr first ↦ rw first (Pairwise.cons (front first) (Pairwise.cons below s))
    ]
      where
        from : less y x ≡ true → (z : A) → Mem z (insert x ys) → less z y ≡ false
        from behind z m =
            Or.elim (Bool-set (less z y) false)
              (eq-or-mem_of_mem-cons ((Perm.mem_iff (insert-perm x ys)).0 m))
              (λ e. subst (λ w. less w y ≡ false) (sym e) (asymm y x behind)) (below z)

        front : less y x ≡ false → (z : A) → Mem z (y ∷ ys) → less z x ≡ false
        front first z m =
            Or.elim (Bool-set (less z x) false) (eq-or-mem_of_mem-cons m)
              (λ e. subst (λ w. less w x ≡ false) (sym e) first)
              (λ n. later x y z first (below z n))

    -- A rearrangement of its input, in order.
    pub insertion_sort-sorts :
        (xs : List A)
        → Perm (insertion_sort xs) xs × Pairwise (λ a b. less b a ≡ false) (insertion_sort xs)
    unfolding insertion_sort
    insertion_sort-sorts [] = (Perm.rfl, Pairwise.nil)
    insertion_sort-sorts (x ∷ xs) =
        let (perm, ordered) = insertion_sort-sorts xs in
        (
          Perm.trans (insert-perm x (insertion_sort xs)) (Perm.cons x perm),
          insert-ordered x ordered,
        )
