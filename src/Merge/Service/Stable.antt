-- ===== src/Merge/Service/Stable.antt =====
-- A Service that has been merged once is not changed again.
use splunk_operator_mirror_d.Merge.Settled.Containers.{merge_ports_settles}
use splunk_operator_mirror_d.Merge.Settled.Slices.{IsDetermined}
use splunk_operator_mirror_d.Merge.Pod.{by_name, by_port}
use splunk_operator_mirror_d.Merge.Settled.{discrete, IsEquality, perm-length, merge_if_settles}
use splunk_operator_mirror_d.Merge.Sorted.{HasNoTies, IsSorting, sort-sort, Tied}
use text.Mathlib.TextPositions.{compare_refl}
use splunk_operator_mirror_d.Merge.{Slice, Bool, str_eq, Item, ℕ, Merged, slice_length, merge_if}
use splunk_operator_mirror_d.Merge.Service.{
  texts_equal, text_slices_equal, Slice, sort_texts, merge_texts, merge_service_spec_updates,
  ServiceSpec,
}
use splunk_operator_mirror_d.Prelude.{
  [], none, some, true, ◌∷◌, refl, List, String, ◌≡◌, str_eq-refl, eq_iff, ap, arith, Bool,
  All-every, All, str_eq, text_tied, inr, false, inl, ℕ, ◌⊎◌, Bool-cases, ◌==◌,
}
use mathlib.Core.Path.{ap₂, ap}
use mathlib.Core.HLevel.{hedberg}
use mathlib.Core.List.{List}
use Prim.Native.String.{compare, String}
use text.Mathlib.Text.{is_lt}

texts_equal_self : (xs : List String) → texts_equal xs xs ≡ true
unfolding texts_equal
texts_equal_self [] = refl
texts_equal_self (x ∷ xs) = rw (str_eq-refl x, texts_equal_self xs) refl

texts_equal_sound : (xs ys : List String) → texts_equal xs ys ≡ true → xs ≡ ys
unfolding texts_equal
texts_equal_sound [] [] h = refl
texts_equal_sound [] (y ∷ ys) h = cc
texts_equal_sound (x ∷ xs) [] h = cc
texts_equal_sound (x ∷ xs) (y ∷ ys) h =
    ap₂ ◌∷◌ ((eq_iff x y).0 (ground arith)) (texts_equal_sound xs ys (ground arith))

text_slices_equal_self : (a : Slice String) → text_slices_equal a a ≡ true
unfolding text_slices_equal
text_slices_equal_self none = refl
text_slices_equal_self (some xs) = texts_equal_self xs

text_slices_equal_sound : (a b : Slice String) → text_slices_equal a b ≡ true → a ≡ b
unfolding text_slices_equal
text_slices_equal_sound none none h = refl
text_slices_equal_sound none (some ys) h = cc
text_slices_equal_sound (some xs) none h = cc
text_slices_equal_sound (some xs) (some ys) h = ap some (texts_equal_sound xs ys h)

abbrev pub text_order : String → String → Bool
text_order a b = is_lt (compare a b)

texts_untied : (xs : List String) → HasNoTies text_order xs
texts_untied xs =
    All-every (λ a. All (λ b. Tied text_order a b → a ≡ b) xs)
      (λ a.
        All-every (λ b. Tied text_order a b → a ≡ b)
          (λ b (p, q). (eq_iff a b).0 (text_tied a b p q)) xs)
      xs

module _ (sort_strings : List String → List String)
    (sorts : IsSorting text_order sort_strings) where
  sort_strings_twice : (xs : List String) → sort_strings (sort_strings xs) ≡ sort_strings xs
  sort_strings_twice xs =
      sort-sort text_order sort_strings sorts (hedberg (discrete String str_eq eq_iff))
        (λ a. rw (compare_refl a) refl) xs (texts_untied xs)

module _ {Rest : Type 0} (same_json deep_equal : Rest → Rest → Bool)
    (sort : (A : Type 0) → (A → A → Bool) → List A → List A)
    (sort_strings : List String → List String) (json_self : (a : Rest) → same_json a a ≡ true)
    (rest_law : IsEquality Rest deep_equal)
    (sorts_names : IsSorting by_name (sort (Item String Rest) by_name))
    (sorts_ports : IsSorting by_port (sort (Item ℕ Rest) by_port))
    (sorts_texts : IsSorting text_order sort_strings) where
  abbrev texts_of : Slice String → Slice String → Merged (Slice String)
  texts_of = merge_texts same_json deep_equal sort sort_strings

  abbrev sorted_texts : Slice String → Slice String
  sorted_texts = sort_texts same_json deep_equal sort sort_strings

  sort_texts-length : (b : Slice String) → slice_length (sorted_texts b) ≡ slice_length b
  unfolding sort_texts slice_length
  sort_texts-length none = refl
  sort_texts-length (some xs) = perm-length (sorts_texts xs).0

  sort_texts_twice : (b : Slice String) → sorted_texts (sorted_texts b) ≡ sorted_texts b
  unfolding sort_texts
  sort_texts_twice none = refl
  sort_texts_twice (some xs) = ap some (sort_strings_twice sort_strings sorts_texts xs)

  merge_texts_self : (b : Slice String) → (texts_of b b).changed ≡ false
  unfolding merge_texts merge_if
  merge_texts_self b = let equal = text_slices_equal_self (sorted_texts b) in ground arith

  merge_texts_sorted : (b : Slice String) → (texts_of (sorted_texts b) b).changed ≡ false
  unfolding merge_texts merge_if
  merge_texts_sorted b =
      let equal = text_slices_equal_self (sorted_texts b) in
      rw (sort_texts-length b, sort_texts_twice b, equal) (ground arith)

  texts_taken_over :
      (a b : Slice String)
      → ((texts_of a b).current ≡ b) ⊎ ((texts_of a b).current ≡ sorted_texts b)
  unfolding merge_texts merge_if
  texts_taken_over a b = elim (Bool-cases (slice_length a == slice_length b)) [
    | inr other ↦ inl (rw other refl)
    | inl same ↦ elim (Bool-cases (text_slices_equal (sorted_texts a) (sorted_texts b))) [
      | inl equal ↦
          inr (rw (same, equal) (text_slices_equal_sound (sorted_texts a) (sorted_texts b) equal))
      | inr differ ↦ inr (rw (same, differ) refl)
    ]
  ]

  merge_texts_settles : (a b : Slice String) → (texts_of (texts_of a b).current b).changed ≡ false
  merge_texts_settles a b = elim (texts_taken_over a b) [
    | inl taken ↦ rw taken (merge_texts_self b)
    | inr sorted ↦ rw sorted (merge_texts_sorted b)
  ]

  -- The spec of a Service that has been merged once is not changed again, if no two different ports
  -- have the same number.
  pub merge_service_spec_updates_settles :
      (c r : ServiceSpec Rest)
      → IsDetermined (Item ℕ Rest) by_port r.ports
      → (merge_service_spec_updates same_json deep_equal sort sort_strings
          (merge_service_spec_updates same_json deep_equal sort sort_strings c r).current
          r).changed
        ≡ false
  unfolding merge_service_spec_updates
  merge_service_spec_updates_settles c r free =
      rw
        (
          merge_if_settles String str_eq c.service_type r.service_type (str_eq-refl r.service_type),
          merge_if_settles String str_eq c.external_name r.external_name
              (str_eq-refl r.external_name),
          merge_if_settles String str_eq c.external_traffic_policy r.external_traffic_policy
              (str_eq-refl r.external_traffic_policy),
          merge_texts_settles c.external_ips r.external_ips,
          merge_ports_settles same_json deep_equal sort json_self rest_law sorts_names sorts_ports
              c.ports r.ports free,
        )
        refl
