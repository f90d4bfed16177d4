-- ===== src/Merge/Settled/Containers/Template.antt =====
-- A pod template that has been merged once is not changed again.
use splunk_operator_mirror_d.Merge.Settled.Containers.Lists.{
  merge_containers_settles, merge_init_containers_settles,
}
use splunk_operator_mirror_d.Merge.Settled.Containers.{
  ContainerIsDetermined, merge_names_settles, Option-cases, str_eq-refl,
}
use splunk_operator_mirror_d.Merge.Sorted.{IsSorting}
use splunk_operator_mirror_d.Merge.Settled.{IsEquality, merge_if_settles, arith}
use splunk_operator_mirror_d.Merge.Settled.Slices.{IsDetermined}
use splunk_operator_mirror_d.Merge.{PodTemplate, List, Item, String, ℕ, Merged, Container, str_eq}
use splunk_operator_mirror_d.Merge.Pod.{
  by_name, by_port, merged_template, merge_pod_updates, merge_containers,
}
use splunk_operator_mirror_d.Prelude.{
  false, true, some, inr, inl, refl, Bool, List, ◌≡◌, String, All, ℕ, Option-cases, str_eq, arith,
  str_eq-refl,
}
use mathlib.Core.Path.{subst}

-- No slice of the template has ties.
abbrev pub TemplateIsDetermined : (Rest : Type 0) → PodTemplate Rest → Type 0
TemplateIsDetermined Rest r =
    IsDetermined (Item String Rest) by_name r.tolerations
    × IsDetermined (Item String Rest) by_name r.topology_spread_constraints
    × IsDetermined (Item String Rest) by_name r.image_pull_secrets
    × IsDetermined (Item String Rest) by_name r.volumes
    × All (ContainerIsDetermined Rest) r.containers

module _ {Rest : Type 0} (same_json deep_equal : Rest → Rest → Bool)
    (sort : (A : Type 0) → (A → A → Bool) → List A → List A)
    (json_self : (a : Rest) → same_json a a ≡ true) (rest_law : IsEquality Rest deep_equal)
    (sorts_names : IsSorting by_name (sort (Item String Rest) by_name))
    (sorts_ports : IsSorting by_port (sort (Item ℕ Rest) by_port)) where
  abbrev Containers : Type 0
  Containers = Merged (List (Container Rest))

  abbrev result_of : PodTemplate Rest → PodTemplate Rest → Containers → Merged (PodTemplate Rest)
  result_of = merged_template same_json deep_equal sort

  merged_template_containers :
      (c r : PodTemplate Rest) (m : Containers) → (result_of c r m).current.containers ≡ m.current
  unfolding merged_template
  merged_template_containers c r m = refl

  merged_template_settles :
      (c r : PodTemplate Rest) (m n : Containers)
      → TemplateIsDetermined Rest r
      → n.changed ≡ false
      → (result_of (result_of c r m).current r n).changed ≡ false
  unfolding merged_template
  merged_template_settles c r m n (tolerations, spread, secrets, volumes, containers) quiet =
      let names =
        merge_names_settles same_json deep_equal sort json_self rest_law sorts_names sorts_ports in
      rw
        (
          merge_if_settles String str_eq c.service_account_name r.service_account_name
              (str_eq-refl r.service_account_name),
          merge_if_settles Rest same_json c.affinity r.affinity (json_self r.affinity),
          names c.tolerations r.tolerations tolerations,
          names c.topology_spread_constraints r.topology_spread_constraints spread,
          names c.image_pull_secrets r.image_pull_secrets secrets,
          merge_if_settles String str_eq c.scheduler_name r.scheduler_name
              (str_eq-refl r.scheduler_name),
          names c.volumes r.volumes volumes,
          merge_init_containers_settles Rest c.init_containers r.init_containers,
          quiet,
          merge_if_settles Rest deep_equal c.annotations r.annotations
              ((rest_law r.annotations r.annotations).1 refl),
          merge_if_settles Rest deep_equal c.labels r.labels ((rest_law r.labels r.labels).1 refl),
        )
        refl

  -- A template that has been merged once is not changed again.
  pub merge_pod_updates_settles :
      (c r : PodTemplate Rest) (m : Merged (PodTemplate Rest))
      → TemplateIsDetermined Rest r
      → merge_pod_updates same_json deep_equal sort c r ≡ some m
      → (n : Merged (PodTemplate Rest)) × (merge_pod_updates same_json deep_equal sort m.current r
          ≡ some n)
        × (n.changed ≡ false)
  unfolding merge_pod_updates
  merge_pod_updates_settles c r m free h =
      elim (Option-cases (merge_containers same_json deep_equal sort c.containers r.containers)) [
        | inl panic ↦ absurd (ground arith)
        | inr (k, there) ↦
            let first : result_of c r k ≡ m = whole k (rw there at h) in
            let (n, again, quiet) =
              merge_containers_settles same_json deep_equal sort json_self rest_law sorts_names
                sorts_ports c.containers r.containers k free.4 there in
            let repeated : merge_pod_updates same_json deep_equal sort (result_of c r k).current r
                ≡ some (result_of (result_of c r k).current r n) =
              rw (merged_template_containers c r k, again) refl in
            subst
              (λ x.
                (n : Merged (PodTemplate Rest)) × (merge_pod_updates same_json deep_equal sort
                    x.current r
                  ≡ some n)
                × (n.changed ≡ false))
              first
              (
                result_of (result_of c r k).current r n,
                repeated,
                merged_template_settles c r k n free quiet,
              )
      ]
    where
      whole : (k : Containers) → some (result_of c r k) ≡ some m → result_of c r k ≡ m
      whole k e = cc
