-- ===== src/Merge/Settled/Containers.antt =====
-- Containers and templates that a merge has taken over.
pub mod Lists
pub mod Template
use mathlib.Core.Path.{subst}
use splunk_operator_mirror_d.Merge.Sorted.{IsSorting}
use splunk_operator_mirror_d.Merge.Settled.Slices.{
  IsDetermined, merge_slice_settles, merge_probe_settles,
}
use splunk_operator_mirror_d.Merge.Settled.{IsEquality, arith, merge_if_settles}
use splunk_operator_mirror_d.Merge.{
  Container, Item, ℕ, List, String, ◌==◌, Slice, Option, Merged, str_eq, Probe,
}
use splunk_operator_mirror_d.Merge.Pod.{
  by_name, by_port, merge_names, merge_ports, merge_container, merged_container, merge_probe,
}
use splunk_operator_mirror_d.Prelude.{
  inr, false, true, inl, some, refl, Bool, ℕ, List, String, ◌≡◌, ◌==◌, arith, Option, str_eq,
  Option-cases, eq_iff, str_eq-refl,
}
use text.Mathlib.TextPositions.{compare_refl}

-- The slices of a container have no ties.
abbrev pub ContainerIsDetermined : (Rest : Type 0) → Container Rest → Type 0
ContainerIsDetermined Rest r =
    IsDetermined (Item ℕ Rest) by_port r.ports
    × IsDetermined (Item String Rest) by_name r.volume_mounts
    × IsDetermined (Item String Rest) by_name r.env

pub by_name_irrefl : (Rest : Type 0) (a : Item String Rest) → by_name a a ≡ false
unfolding by_name
by_name_irrefl Rest a = rw (compare_refl a.key) refl

pub by_port_irrefl : (Rest : Type 0) (a : Item ℕ Rest) → by_port a a ≡ false
unfolding by_port
by_port_irrefl Rest a = ground arith

pub number_law : IsEquality ℕ ◌==◌
number_law a b = (λ h. ground arith, λ e. ground arith)

module _ {Rest : Type 0} (same_json deep_equal : Rest → Rest → Bool)
    (sort : (A : Type 0) → (A → A → Bool) → List A → List A)
    (json_self : (a : Rest) → same_json a a ≡ true) (rest_law : IsEquality Rest deep_equal)
    (sorts_names : IsSorting by_name (sort (Item String Rest) by_name))
    (sorts_ports : IsSorting by_port (sort (Item ℕ Rest) by_port)) where
  abbrev pub names_of :
      Slice (Item String Rest) → Slice (Item String Rest) → Merged (Slice (Item String Rest))
  names_of = merge_names same_json deep_equal sort

  abbrev pub ports_of : Slice (Item ℕ Rest) → Slice (Item ℕ Rest) → Merged (Slice (Item ℕ Rest))
  ports_of = merge_ports same_json deep_equal sort

  abbrev pub container_of : Container Rest → Container Rest → Option (Merged (Container Rest))
  container_of = merge_container same_json deep_equal sort

  pub merge_names_settles :
      (a b : Slice (Item String Rest))
      → IsDetermined (Item String Rest) by_name b
      → (names_of (names_of a b).current b).changed ≡ false
  unfolding merge_names
  merge_names_settles =
      merge_slice_settles str_eq deep_equal eq_iff rest_law by_name (by_name_irrefl Rest)
        (sort (Item String Rest) by_name) sorts_names

  pub merge_ports_settles :
      (a b : Slice (Item ℕ Rest))
      → IsDetermined (Item ℕ Rest) by_port b
      → (ports_of (ports_of a b).current b).changed ≡ false
  unfolding merge_ports
  merge_ports_settles =
      merge_slice_settles ◌==◌ deep_equal number_law rest_law by_port (by_port_irrefl Rest)
        (sort (Item ℕ Rest) by_port) sorts_ports

  abbrev pub Probes : Type 0
  Probes = Merged (Option (Probe Rest))

  abbrev pub left_of :
      Container Rest → Container Rest → Probes → Probes → Probes → Merged (Container Rest)
  left_of = merged_container same_json deep_equal sort

  kept :
      (c r : Container Rest) (l d s : Probes)
      → ((left_of c r l d s).current.liveness_probe ≡ l.current)
        × ((left_of c r l d s).current.readiness_probe ≡ d.current)
        × ((left_of c r l d s).current.startup_probe ≡ s.current)
  unfolding merged_container
  kept c r l d s = (refl, refl, refl)

  merged_container_settles :
      (c r : Container Rest) (l d s l' d' s' : Probes)
      → ContainerIsDetermined Rest r
      → l'.changed ≡ false
      → d'.changed ≡ false
      → s'.changed ≡ false
      → (left_of (left_of c r l d s).current r l' d' s').changed ≡ false
  unfolding merged_container
  merged_container_settles c r l d s l' d' s' (ports, mounts, env) el ed es =
      rw
        (
          merge_if_settles String str_eq c.image r.image (str_eq-refl r.image),
          merge_ports_settles c.ports r.ports ports,
          merge_names_settles c.volume_mounts r.volume_mounts mounts,
          merge_if_settles Rest same_json c.resources r.resources (json_self r.resources),
          merge_names_settles c.env r.env env,
          el,
          ed,
          es,
        )
        refl

  -- A container that has been merged once is not changed again.
  pub merge_container_settles :
      (c r : Container Rest) (m : Merged (Container Rest))
      → ContainerIsDetermined Rest r
      → container_of c r ≡ some m
      → (n : Merged (Container Rest)) × (container_of m.current r ≡ some n) × (n.changed ≡ false)
  unfolding merge_container
  merge_container_settles c r m free h =
      elim (Option-cases (merge_probe c.liveness_probe r.liveness_probe)) [
        | inl panic ↦ absurd (ground arith)
        | inr (l, el) ↦ elim (Option-cases (merge_probe c.readiness_probe r.readiness_probe)) [
          | inl panic ↦ absurd (ground arith)
          | inr (d, ed) ↦ elim (Option-cases (merge_probe c.startup_probe r.startup_probe)) [
            | inl panic ↦ absurd (ground arith)
            | inr (s, es) ↦ again l d s el ed es (rw (el, ed, es) at h)
          ]
        ]
      ]
    where
      again :
          (l d s : Probes)
          → merge_probe c.liveness_probe r.liveness_probe ≡ some l
          → merge_probe c.readiness_probe r.readiness_probe ≡ some d
          → merge_probe c.startup_probe r.startup_probe ≡ some s
          → some (left_of c r l d s) ≡ some m
          → (n : Merged (Container Rest)) × (container_of m.current r ≡ some n)
            × (n.changed ≡ false)
      again l d s el ed es first =
          let (l', hl, fl) = merge_probe_settles Rest c.liveness_probe r.liveness_probe l el in
          let (d', hd, fd) = merge_probe_settles Rest c.readiness_probe r.readiness_probe d ed in
          let (s', hs, fs) = merge_probe_settles Rest c.startup_probe r.startup_probe s es in
          let left : left_of c r l d s ≡ m = cc in
          let probes = kept c r l d s in
          let result : container_of (left_of c r l d s).current r
              ≡ some (left_of (left_of c r l d s).current r l' d' s') =
            rw (probes.0, probes.1, probes.2, hl, hd, hs) refl in
          subst
            (λ x.
              (n : Merged (Container Rest)) × (container_of x.current r ≡ some n)
              × (n.changed ≡ false))
            left
            (
              left_of (left_of c r l d s).current r l' d' s',
              result,
              merged_container_settles c r l d s l' d' s' free fl fd fs,
            )
