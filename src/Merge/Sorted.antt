-- ===== src/Merge/Sorted.antt =====
-- Lists whose ascending order is determined: no two different elements are tied.
use splunk_operator_mirror_d.Prelude.{false, [], ◌∷◌, Bool, ◌≡◌, List, All, sym}
use mathlib.Core.Path.{subst, ap₂, sym}
use mathlib.Core.Logic.{∥∥₁_elim}
use mathlib.Core.Logic.Or
use mathlib.Core.List.{
  Mem, Perm, Pairwise, Memᴰ, mem-cons_of_mem, mem-cons_self, eq-or-mem_of_mem-cons, List,
}
use mathlib.Core.List.Perm
use mathlib.Core.List.Pairwise
use mathlib.Core.Bool.{Bool-set, Bool}

module _ {A : Type 0} (less : A → A → Bool) where
  -- Neither comes before the other.
  abbrev pub Tied : A → A → Type 0
  Tied a b = (less a b ≡ false) × (less b a ≡ false)

  abbrev pub HasNoTies : List A → Type 0
  HasNoTies xs = All (λ a. All (λ b. Tied a b → a ≡ b) xs) xs

  -- No element comes before an earlier one.
  abbrev pub IsOrdered : List A → Type 0
  IsOrdered = Pairwise (λ a b. less b a ≡ false)

  pick : (P : A → Type 0) (a : A) (xs : List A) → All P xs → Memᴰ a xs → P a
  pick P a [] _ m = elim m [ ]
  pick P a (x ∷ xs) (p, ps) (Memᴰ.head e) = subst P (sym e) p
  pick P a (x ∷ xs) (p, ps) (Memᴰ.tail m) = pick P a xs ps m

  -- The same on any two elements, wherever they stand.
  abbrev Untied : List A → Type 0
  Untied xs = (a b : A) → Mem a xs → Mem b xs → Tied a b → a ≡ b

  HasNoTies-Untied : IsSet A → (xs : List A) → HasNoTies xs → Untied xs
  HasNoTies-Untied set xs h a b ma mb tied = ∥∥₁_elim ma (set a b) λ da. ∥∥₁_elim mb (set a b) λ db.
      pick (λ y. Tied a y → a ≡ y) b xs (pick (λ x. All (λ y. Tied x y → x ≡ y) xs) a xs h da) db
        tied

  -- The head of an ordered list comes after none of its elements.
  head_first :
      ((a : A) → less a a ≡ false)
      → {a b : A} {xs : List A} → IsOrdered (a ∷ xs)
      → Mem b (a ∷ xs)
      → less b a ≡ false
  head_first irrefl {a} {b} (Pairwise.cons below s) m =
      Or.elim (Bool-set (less b a) false) (eq-or-mem_of_mem-cons m)
        (λ e. subst (λ x. less x a ≡ false) (sym e) (irrefl a)) (below b)

  ordered_unique :
      ((a : A) → less a a ≡ false)
      → {l r : List A} → Untied l
      → IsOrdered l
      → IsOrdered r
      → Perm l r
      → l ≡ r
  ordered_unique irrefl {l = []} _ _ _ p = Perm.nil-eq p
  ordered_unique irrefl {l = a ∷ l} {r = []} _ _ _ p = Perm.eq-nil p
  ordered_unique irrefl {l = a ∷ l} {r = b ∷ r} free sl sr p =
      let there : Mem b (a ∷ l) = (Perm.mem_iff p).1 mem-cons_self in
      let back : Mem a (b ∷ r) = (Perm.mem_iff p).0 mem-cons_self in
      let heads : a ≡ b =
        free a b mem-cons_self there (head_first irrefl sr back, head_first irrefl sl there) in
      let tails = Perm.cons_inv (Perm.trans p (Perm.symm (Perm.cons' heads Perm.rfl))) in
      let later : Untied l = λ x y mx my. free x y (mem-cons_of_mem a mx) (mem-cons_of_mem a my) in
      ap₂ ◌∷◌ heads (
        ordered_unique irrefl {l = l} {r = r} later (Pairwise.of_cons sl) (Pairwise.of_cons sr)
          tails)

  -- What a sort promises: the same elements, in order. It need not be stable.
  abbrev pub IsSorting : (List A → List A) → Type 0
  IsSorting sort = (xs : List A) → Perm (sort xs) xs × IsOrdered (sort xs)

  -- Two lists with the same elements, none of them tied, are sorted to the same list.
  sort-perm :
      (sort : List A → List A)
      → IsSorting sort
      → IsSet A
      → ((a : A) → less a a ≡ false)
      → (xs ys : List A) → HasNoTies ys
      → Perm xs ys
      → sort xs ≡ sort ys
  sort-perm sort sorts set irrefl xs ys free p =
      let across = Perm.trans (sorts xs).0 (Perm.trans p (Perm.symm (sorts ys).0)) in
      let untied = HasNoTies-Untied set ys free in
      let from : (x : A) → Mem x (sort xs) → Mem x ys =
        λ x m. (Perm.mem_iff (Perm.trans (sorts xs).0 p)).0 m in
      ordered_unique irrefl (λ x y mx my. untied x y (from x mx) (from y my)) (sorts xs).1
        (sorts ys).1 across

  -- A sorted list is sorted already, where there are no ties.
  pub sort-sort :
      (sort : List A → List A)
      → IsSorting sort
      → IsSet A
      → ((a : A) → less a a ≡ false)
      → (xs : List A) → HasNoTies xs
      → sort (sort xs) ≡ sort xs
  sort-sort sort sorts set irrefl xs free =
      sort-perm sort sorts set irrefl (sort xs) xs free (sorts xs).0
