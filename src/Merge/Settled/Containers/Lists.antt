-- ===== src/Merge/Settled/Containers/Lists.antt =====
-- Lists of containers and of init containers that a merge has taken over.
use splunk_operator_mirror_d.Merge.Settled.Slices.{IsSettled-self, unchanged_itself}
use splunk_operator_mirror_d.Merge.Settled.Containers.{
  ContainerIsDetermined, eq_iff, by_name_irrefl, number_law, by_port_irrefl, str_eq-refl,
  Option-cases, merge_container_settles,
}
use splunk_operator_mirror_d.Merge.{
  Item, String, ℕ, Container, Merged, merge_if, length, str_eq, ◌==◌, InitContainer,
}
use splunk_operator_mirror_d.Merge.Pod.{
  by_name, by_port, merge_container, merge_each, merged_container, merge_names, merge_ports,
  merge_containers, merge_init_images, merge_init_containers,
}
use splunk_operator_mirror_d.Merge.Sorted.{IsSorting}
use splunk_operator_mirror_d.Merge.Settled.{IsEquality, arith, Bool-cases, merge_if_settles}
use splunk_operator_mirror_d.Prelude.{
  some, ◌∷◌, false, [], true, refl, Bool, List, ◌≡◌, String, ℕ, ◌||◌, All, length, str_eq, eq_iff,
  ◌==◌, str_eq-refl, suc, inr, inl, arith, Option-cases, Bool-cases, ap,
}
use mathlib.Core.Path.{subst, ap}

module _ {Rest : Type 0} (same_json deep_equal : Rest → Rest → Bool)
    (sort : (A : Type 0) → (A → A → Bool) → List A → List A)
    (json_self : (a : Rest) → same_json a a ≡ true) (rest_law : IsEquality Rest deep_equal)
    (sorts_names : IsSorting by_name (sort (Item String Rest) by_name))
    (sorts_ports : IsSorting by_port (sort (Item ℕ Rest) by_port)) where
  -- A container is not changed by itself.
  self_container :
      (r : Container Rest)
      → (n : Merged (Container Rest)) × (merge_container same_json deep_equal sort r r ≡ some n)
        × (n.changed ≡ false)
  unfolding merge_container merged_container merge_names merge_ports merge_if
  self_container r =
      let (l, hl, fl) = IsSettled-self Rest r.liveness_probe in
      let (d, hd, fd) = IsSettled-self Rest r.readiness_probe in
      let (s, hs, fs) = IsSettled-self Rest r.startup_probe in
      let names =
        unchanged_itself str_eq deep_equal eq_iff rest_law by_name (by_name_irrefl Rest)
          (sort (Item String Rest) by_name) sorts_names in
      let ports =
        unchanged_itself ◌==◌ deep_equal number_law rest_law by_port (by_port_irrefl Rest)
          (sort (Item ℕ Rest) by_port) sorts_ports in
      let found_there : merge_container same_json deep_equal sort r r
          ≡ some (merged_container same_json deep_equal sort r r l d s) =
        rw (hl, hd, hs) refl in
      let quiet : (merged_container same_json deep_equal sort r r l d s).changed ≡ false =
        rw
          (
            str_eq-refl r.image,
            ports r.ports,
            names r.volume_mounts,
            json_self r.resources,
            names r.env,
            fl,
            fd,
            fs,
          )
          refl in
      (merged_container same_json deep_equal sort r r l d s, found_there, quiet)

  -- The containers of one template, merged one by one with the other's, change nothing.
  abbrev pub AreSettled : List (Container Rest) → List (Container Rest) → Type 0
  AreSettled cs rs =
      (n : Merged (List (Container Rest))) × (merge_each same_json deep_equal sort cs rs ≡ some n)
      × (n.changed ≡ false)

  pub settled_cons :
      (c r : Container Rest) (cs rs : List (Container Rest))
      → ((n : Merged (Container Rest)) × (merge_container same_json deep_equal sort c r ≡ some n)
          × (n.changed ≡ false))
      → AreSettled cs rs
      → AreSettled (c ∷ cs) (r ∷ rs)
  unfolding merge_each
  settled_cons c r cs rs (one, ho, fo) (others, hs, fs) =
      let whole : Merged (List (Container Rest)) = record {
        changed = one.changed || others.changed;
        current = one.current ∷ others.current;
        revised = one.revised ∷ others.revised;
      } in
      let found_there : merge_each same_json deep_equal sort (c ∷ cs) (r ∷ rs) ≡ some whole =
        rw (ho, hs) refl in
      (whole, found_there, rw (fo, fs) refl)

  pub self_containers : (rs : List (Container Rest)) → AreSettled rs rs
  unfolding merge_each
  self_containers [] = (record { changed = false; current = []; revised = [] }, refl, refl)
  self_containers (r ∷ rs) = settled_cons r r rs rs (self_container r) (self_containers rs)

  abbrev both_of :
      Merged (Container Rest) → Merged (List (Container Rest)) → Merged (List (Container Rest))
  both_of one others = record {
    changed = one.changed || others.changed;
    current = one.current ∷ others.current;
    revised = one.revised ∷ others.revised;
  }

  -- Containers that have been merged one by one are not changed again, and are as many as before.
  merge_each_settles :
      (cs rs : List (Container Rest)) (m : Merged (List (Container Rest)))
      → length cs ≡ length rs
      → All (ContainerIsDetermined Rest) rs
      → merge_each same_json deep_equal sort cs rs ≡ some m
      → AreSettled m.current rs × (length m.current ≡ length rs)
  unfolding merge_each
  merge_each_settles [] [] m same free h =
      let first : record { changed = false; current = []; revised = [] } ≡ m = cc in
      subst (λ x. AreSettled x.current [] × (length x.current ≡ 0)) first (self_containers [], refl)
  merge_each_settles [] (r ∷ rs) m same free h = absurd (omega arith)
  merge_each_settles (c ∷ cs) [] m same free h = absurd (omega arith)
  merge_each_settles (c ∷ cs) (r ∷ rs) m same (free, frees) h =
      elim (Option-cases (merge_container same_json deep_equal sort c r)) [
        | inl panic ↦ absurd (ground arith)
        | inr (one, ho) ↦ elim (Option-cases (merge_each same_json deep_equal sort cs rs)) [
          | inl panic ↦ absurd (ground arith)
          | inr (others, hs) ↦
              let first : both_of one others ≡ m = whole one others (rw (ho, hs) at h) in
              let (ok, size) = merge_each_settles cs rs others (omega arith) frees hs in
              let again =
                merge_container_settles same_json deep_equal sort json_self rest_law sorts_names
                  sorts_ports c r one free ho in
              subst (λ x. AreSettled x.current (r ∷ rs) × (length x.current ≡ suc (length rs)))
                first (settled_cons one.current r others.current rs again ok, ap suc size)
        ]
      ]
    where
      whole :
          (one : Merged (Container Rest)) (others : Merged (List (Container Rest)))
          → some (both_of one others) ≡ some m
          → both_of one others ≡ m
      whole one others e = cc

  -- Containers that have been merged once are not changed again.
  pub merge_containers_settles :
      (cs rs : List (Container Rest)) (m : Merged (List (Container Rest)))
      → All (ContainerIsDetermined Rest) rs
      → merge_containers same_json deep_equal sort cs rs ≡ some m
      → (n : Merged (List (Container Rest))) × (merge_containers same_json deep_equal sort m.current
            rs
          ≡ some n)
        × (n.changed ≡ false)
  unfolding merge_containers merge_if
  merge_containers_settles cs rs m free h = elim (Bool-cases (length cs == length rs)) [
    | inl same ↦
        let (ok, size) = merge_each_settles cs rs m (ground arith) free (rw same at h) in
        let (n, found_there, quiet) = ok in
        let equal : (length m.current == length rs) ≡ true = ground arith in
        (n, rw equal found_there, quiet)
    | inr other ↦
        let first : merge_if false cs rs ≡ m = taken (rw other at h) in
        let (n, found_there, quiet) = self_containers rs in
        let equal : (length rs == length rs) ≡ true = ground arith in
        subst
          (λ x.
            (n : Merged (List (Container Rest))) × (merge_containers same_json deep_equal sort
                x.current rs
              ≡ some n)
            × (n.changed ≡ false))
          first (n, rw equal found_there, quiet)
  ]
    where
      taken : some (merge_if false cs rs) ≡ some m → merge_if false cs rs ≡ m
      taken e = cc

-- Init containers that have been merged once are not changed again.
pub merge_init_images_self :
    (Rest : Type 0) (rs : List (InitContainer Rest)) → (merge_init_images rs rs).0 ≡ false
unfolding merge_init_images merge_if
merge_init_images_self Rest [] = refl
merge_init_images_self Rest (r ∷ rs) = rw (str_eq-refl r.image, merge_init_images_self Rest rs) refl

merge_init_images_settles :
    (Rest : Type 0) (cs rs : List (InitContainer Rest))
    → ((merge_init_images (merge_init_images cs rs).1 rs).0 ≡ false)
      × (length (merge_init_images cs rs).1 ≡ length cs)
unfolding merge_init_images
merge_init_images_settles Rest [] rs = (refl, refl)
merge_init_images_settles Rest (c ∷ cs) [] = (refl, refl)
merge_init_images_settles Rest (c ∷ cs) (r ∷ rs) =
    let (quiet, size) = merge_init_images_settles Rest cs rs in
    let one = merge_if_settles String str_eq c.image r.image (str_eq-refl r.image) in
    (rw (one, quiet) refl, ap suc size)

pub merge_init_containers_settles :
    (Rest : Type 0) (cs rs : List (InitContainer Rest))
    → (merge_init_containers (merge_init_containers cs rs).1 rs).0 ≡ false
unfolding merge_init_containers
merge_init_containers_settles Rest cs rs = elim (Bool-cases (length cs == length rs)) [
  | inl same ↦
      let (quiet, size) = merge_init_images_settles Rest cs rs in
      let equal : (length (merge_init_images cs rs).1 == length rs) ≡ true = ground arith in
      rw (same, equal) quiet
  | inr other ↦
      let equal : (length rs == length rs) ≡ true = ground arith in
      rw (other, equal) (merge_init_images_self Rest rs)
]
