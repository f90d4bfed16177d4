-- ===== src/Merge/Apply/Created.antt =====
-- The template of a StatefulSet that has just been created.
use splunk_operator_mirror_d.Merge.Settled.Containers.Template.{TemplateIsDetermined}
use splunk_operator_mirror_d.Merge.Settled.Containers.Lists.{
  AreSettled, merge_init_images_self, settled_cons,
}
use splunk_operator_mirror_d.Merge.Settled.Containers.{
  ContainerIsDetermined, by_name_irrefl, number_law, by_port_irrefl,
}
use splunk_operator_mirror_d.Merge.Settled.Slices.{IsDetermined, unchanged_sorted, IsSettled-self}
use splunk_operator_mirror_d.Merge.Apply.{sort_names, sort_stateful_set_slices, sort_container, map}
use splunk_operator_mirror_d.Merge.{
  Item, String, ℕ, Container, InitContainer, Slice, length, merge_if, PodTemplate, Merged, str_eq,
}
use splunk_operator_mirror_d.Merge.Pod.{
  by_name, by_port, merge_names, merge_container, merge_each, merge_init_containers,
  merge_pod_updates, merged_container, merged_template, merge_ports, merge_containers,
}
use splunk_operator_mirror_d.Merge.Sorted.{IsSorting}
use splunk_operator_mirror_d.Merge.Settled.{IsEquality}
use splunk_operator_mirror_d.Prelude.{
  suc, [], ◌∷◌, some, true, false, refl, Bool, List, ◌≡◌, String, ℕ, All, length, ◌==◌, arith,
  str_eq, map, eq_iff, str_eq-refl, ap,
}

module _ {Rest : Type 0} (same_json deep_equal : Rest → Rest → Bool)
    (sort : (A : Type 0) → (A → A → Bool) → List A → List A)
    (json_self : (a : Rest) → same_json a a ≡ true) (rest_law : IsEquality Rest deep_equal)
    (sorts_names : IsSorting by_name (sort (Item String Rest) by_name))
    (sorts_ports : IsSorting by_port (sort (Item ℕ Rest) by_port)) where
  names_sorted :
      (b : Slice (Item String Rest))
      → IsDetermined (Item String Rest) by_name b
      → (merge_names same_json deep_equal sort (sort_names same_json deep_equal sort b) b).changed
        ≡ false
  unfolding merge_names sort_names
  names_sorted =
      unchanged_sorted str_eq deep_equal eq_iff rest_law by_name (by_name_irrefl Rest)
        (sort (Item String Rest) by_name) sorts_names

  sorted_container :
      (r : Container Rest)
      → ContainerIsDetermined Rest r
      → (n : Merged (Container Rest)) × (merge_container same_json deep_equal sort
            (sort_container same_json deep_equal sort r)
            r
          ≡ some n)
        × (n.changed ≡ false)
  unfolding merge_container merged_container merge_ports merge_if sort_container
  sorted_container r (ports, mounts, env) =
      let (l, hl, fl) = IsSettled-self Rest r.liveness_probe in
      let (d, hd, fd) = IsSettled-self Rest r.readiness_probe in
      let (s, hs, fs) = IsSettled-self Rest r.startup_probe in
      let ports_sorted =
        unchanged_sorted ◌==◌ deep_equal number_law rest_law by_port (by_port_irrefl Rest)
          (sort (Item ℕ Rest) by_port) sorts_ports r.ports ports in
      let c = sort_container same_json deep_equal sort r in
      let there : merge_container same_json deep_equal sort c r
          ≡ some (merged_container same_json deep_equal sort c r l d s) =
        rw (hl, hd, hs) refl in
      let quiet : (merged_container same_json deep_equal sort c r l d s).changed ≡ false =
        rw
          (
            str_eq-refl r.image,
            ports_sorted,
            names_sorted r.volume_mounts mounts,
            json_self r.resources,
            names_sorted r.env env,
            fl,
            fd,
            fs,
          )
          refl in
      (merged_container same_json deep_equal sort c r l d s, there, quiet)

  sorted_containers :
      (rs : List (Container Rest))
      → All (ContainerIsDetermined Rest) rs
      → AreSettled same_json deep_equal sort json_self rest_law sorts_names sorts_ports
          (map (sort_container same_json deep_equal sort) rs)
          rs
        × (length (map (sort_container same_json deep_equal sort) rs) ≡ length rs)
  unfolding merge_each
  sorted_containers [] free =
      ((record { changed = false; current = []; revised = [] }, refl, refl), refl)
  sorted_containers (r ∷ rs) (one, others) =
      let (ok, size) = sorted_containers rs others in
      (
        settled_cons same_json deep_equal sort json_self rest_law sorts_names sorts_ports
            (sort_container same_json deep_equal sort r) r
            (map (sort_container same_json deep_equal sort) rs) rs (sorted_container r one) ok,
        ap suc size,
      )

  init_self : (rs : List (InitContainer Rest)) → (merge_init_containers rs rs).0 ≡ false
  unfolding merge_init_containers
  init_self rs =
      let equal : (length rs == length rs) ≡ true = ground arith in
      rw equal (merge_init_images_self Rest rs)

  -- A template is not changed by the one that it was sorted from.
  pub sort_stateful_set_slices_settles :
      (r : PodTemplate Rest)
      → TemplateIsDetermined Rest r
      → (n : Merged (PodTemplate Rest)) × (merge_pod_updates same_json deep_equal sort
            (sort_stateful_set_slices same_json deep_equal sort r)
            r
          ≡ some n)
        × (n.changed ≡ false)
  unfolding merge_pod_updates merged_template merge_containers sort_stateful_set_slices merge_if
  sort_stateful_set_slices_settles r (tolerations, spread, secrets, volumes, containers) =
      let ((n, each, quiet), size) = sorted_containers r.containers containers in
      let cs = map (sort_container same_json deep_equal sort) r.containers in
      let equal : (length cs == length r.containers) ≡ true = ground arith in
      let c = sort_stateful_set_slices same_json deep_equal sort r in
      let there : merge_pod_updates same_json deep_equal sort c r
          ≡ some (merged_template same_json deep_equal sort c r n) =
        rw (equal, each) refl in
      let unchanged : (merged_template same_json deep_equal sort c r n).changed ≡ false =
        rw
          (
            str_eq-refl r.service_account_name,
            json_self r.affinity,
            names_sorted r.tolerations tolerations,
            names_sorted r.topology_spread_constraints spread,
            names_sorted r.image_pull_secrets secrets,
            str_eq-refl r.scheduler_name,
            names_sorted r.volumes volumes,
            init_self r.init_containers,
            quiet,
            (rest_law r.annotations r.annotations).1 refl,
            (rest_law r.labels r.labels).1 refl,
          )
          refl in
      (merged_template same_json deep_equal sort c r n, there, unchanged)
