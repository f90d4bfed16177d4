-- ===== src/Merge/Settled/Slices.antt =====
-- Slices and probes that a merge has taken over.
use mathlib.Core.Path.{subst, sym}
use splunk_operator_mirror_d.Merge.Sorted.{HasNoTies, IsSorting, sort-sort}
use splunk_operator_mirror_d.Merge.Settled.{
  IsEquality, slices_equal_refl, discrete, perm-length, item_equal, arith, item_equal_law, ap,
  Bool-cases, slices_equal_sound,
}
use splunk_operator_mirror_d.Merge.{
  Slice, Item, Merged, slices_equal, sort_slice, merge_slice, slice_length, merge_if, Option, Probe,
}
use splunk_operator_mirror_d.Merge.Pod.{merge_probe, has_probe_changed}
use splunk_operator_mirror_d.Prelude.{
  false, inr, true, none, some, inl, refl, Bool, ◌≡◌, List, ◌⊎◌, arith, ap, Bool-cases, ◌==◌,
  Option, Option-cases, sym, ◌∙◌,
}
use mathlib.Core.HLevel.{hedberg}
use mathlib.Core.List.{List}

-- No two different elements of the slice are tied.
abbrev pub IsDetermined : (A : Type 0) → (A → A → Bool) → Slice A → Type 0
IsDetermined A less none = Unit
IsDetermined A less (some xs) = HasNoTies less xs

module _ {K Rest : Type 0} (same_key : K → K → Bool) (deep_equal : Rest → Rest → Bool)
    (key_law : IsEquality K same_key) (rest_law : IsEquality Rest deep_equal)
    (less : Item K Rest → Item K Rest → Bool) (irrefl : (a : Item K Rest) → less a a ≡ false)
    (sort : List (Item K Rest) → List (Item K Rest)) (sorts : IsSorting less sort) where
  abbrev merge : Slice (Item K Rest) → Slice (Item K Rest) → Merged (Slice (Item K Rest))
  merge = merge_slice same_key deep_equal sort

  self_equal : (b : Slice (Item K Rest)) → slices_equal same_key deep_equal b b ≡ true
  self_equal = slices_equal_refl same_key deep_equal key_law rest_law

  sort_slice-length :
      (b : Slice (Item K Rest))
      → slice_length (sort_slice same_key deep_equal sort b) ≡ slice_length b
  unfolding sort_slice slice_length
  sort_slice-length none = refl
  sort_slice-length (some xs) = perm-length (sorts xs).0

  sort_slice_twice :
      (b : Slice (Item K Rest))
      → IsDetermined (Item K Rest) less b
      → sort_slice same_key deep_equal sort (sort_slice same_key deep_equal sort b)
        ≡ sort_slice same_key deep_equal sort b
  unfolding sort_slice
  sort_slice_twice none free = refl
  sort_slice_twice (some xs) free =
      let set = hedberg (
        discrete (Item K Rest) (item_equal same_key deep_equal key_law rest_law)
          (item_equal_law same_key deep_equal key_law rest_law)) in
      ap some (sort-sort less sort sorts set irrefl xs free)

  pub unchanged_itself : (b : Slice (Item K Rest)) → (merge b b).changed ≡ false
  unfolding merge_slice merge_if
  unchanged_itself b =
      let equal = self_equal (sort_slice same_key deep_equal sort b) in ground arith

  pub unchanged_sorted :
      (b : Slice (Item K Rest))
      → IsDetermined (Item K Rest) less b
      → (merge (sort_slice same_key deep_equal sort b) b).changed ≡ false
  unfolding merge_slice merge_if
  unchanged_sorted b free =
      let equal = self_equal (sort_slice same_key deep_equal sort b) in
      rw (sort_slice-length b, sort_slice_twice b free, equal) (ground arith)

  -- What a merge leaves on the stored side.
  taken_over :
      (a b : Slice (Item K Rest))
      → ((merge a b).current ≡ b) ⊎ ((merge a b).current ≡ sort_slice same_key deep_equal sort b)
  unfolding merge_slice merge_if
  taken_over a b =
      let sa = sort_slice same_key deep_equal sort a in
      let sb = sort_slice same_key deep_equal sort b in
      elim (Bool-cases (slice_length a == slice_length b)) [
        | inr other ↦ inl (rw other refl)
        | inl same ↦ elim (Bool-cases (slices_equal same_key deep_equal sa sb)) [
          | inl equal ↦ inr (
              rw (same, equal)
                (slices_equal_sound same_key deep_equal key_law rest_law sa sb equal))
          | inr differ ↦ inr (rw (same, differ) refl)
        ]
      ]

  -- A slice that has been merged once is not changed again.
  pub merge_slice_settles :
      (a b : Slice (Item K Rest))
      → IsDetermined (Item K Rest) less b
      → (merge (merge a b).current b).changed ≡ false
  merge_slice_settles a b free = elim (taken_over a b) [
    | inl taken ↦ rw taken (unchanged_itself b)
    | inr sorted ↦ rw sorted (unchanged_sorted b free)
  ]

-- The merge of a probe that was left on the stored side changes nothing.
abbrev pub IsSettled : (Rest : Type 0) → Option (Probe Rest) → Option (Probe Rest) → Type 0
IsSettled Rest c r =
    (n : Merged (Option (Probe Rest))) × (merge_probe c r ≡ some n) × (n.changed ≡ false)

has_probe_changed_self :
    (Rest : Type 0) (r : Option (Probe Rest)) → has_probe_changed r r ≡ some false
unfolding has_probe_changed
has_probe_changed_self Rest none = refl
has_probe_changed_self Rest (some r) = ground arith

pub IsSettled-self : (Rest : Type 0) (r : Option (Probe Rest)) → IsSettled Rest r r
unfolding merge_probe merge_if
IsSettled-self Rest r = (merge_if true r r, rw (has_probe_changed_self Rest r) refl, refl)

IsSettled-from :
    (Rest : Type 0) (r c : Option (Probe Rest)) (x m : Merged (Option (Probe Rest)))
    → some x ≡ some m
    → x.current ≡ c
    → IsSettled Rest c r
    → IsSettled Rest m.current r
IsSettled-from Rest r c x m h e ok =
    let first : x ≡ m = cc in subst (λ p. IsSettled Rest p r) (sym e ∙ ap (λ y. y.current) first) ok

-- A probe that has been merged once is not changed again.
pub merge_probe_settles :
    (Rest : Type 0) (c r : Option (Probe Rest)) (m : Merged (Option (Probe Rest)))
    → merge_probe c r ≡ some m
    → (n : Merged (Option (Probe Rest))) × (merge_probe m.current r ≡ some n) × (n.changed ≡ false)
unfolding merge_probe merge_if
merge_probe_settles Rest c r m h = elim (Option-cases (has_probe_changed c r)) [
  | inl panic ↦ absurd (ground arith)
  | inr (true, differ) ↦
      IsSettled-from Rest r r (merge_if false c r) m (rw differ at h) refl (IsSettled-self Rest r)
  | inr (false, same) ↦
      IsSettled-from Rest r c (merge_if true c r) m (rw same at h) refl
        (merge_if true c r, rw same refl, refl)
]
