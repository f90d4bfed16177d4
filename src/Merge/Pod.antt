-- ===== src/Merge/Pod.antt =====
-- `MergePodUpdates` of pkg/splunk/splkcontroller/util.go with its parts: probes, init containers,
-- containers and the template.
use splunk_operator_mirror_d.Merge.{
  Item, Probe, InitContainer, Slice, Container, PodTemplate, ℕ, Merged, merge_if, not, ltb,
  merge_slice, str_eq, length,
}
use Prim.Native.String.{compare, String}
use text.Mathlib.Text.{is_lt}
use splunk_operator_mirror_d.Prelude.{
  ◌>>=◌, false, ◌∷◌, true, some, none, Option, List, Bool, String, ℕ, not, if◌then◌else◌, ltb, ◌==◌,
  str_eq, length, ◌||◌, ◌&&◌,
}

module _ {Rest : Type 0} where
  -- `hasProbeChanged`: none is the panic on a probe that is missing from the new template only.
  unfoldable pub has_probe_changed : Option (Probe Rest) → Option (Probe Rest) → Option Bool
  has_probe_changed none none = some false
  has_probe_changed none (some r) = some true
  has_probe_changed (some c) none = none
  has_probe_changed (some c) (some r) = some (
      not (
        (c.initial_delay_seconds == r.initial_delay_seconds)
        && ((c.timeout_seconds == r.timeout_seconds)
            && ((c.period_seconds == r.period_seconds)
                && (c.failure_threshold == r.failure_threshold)))))

  unfoldable pub merge_probe :
      Option (Probe Rest) → Option (Probe Rest) → Option (Merged (Option (Probe Rest)))
  merge_probe c r = do changed ← has_probe_changed c r; some (merge_if (not changed) c r)

  unfoldable pub merge_init_images :
      List (InitContainer Rest) → List (InitContainer Rest) → Bool × List (InitContainer Rest)
  merge_init_images (c ∷ cs) (r ∷ rs) =
      let image = merge_if (str_eq c.image r.image) c.image r.image in
      let (changed, merged) = merge_init_images cs rs in
      (image.changed || changed, record c { image = image.current } ∷ merged)
  merge_init_images cs rs = (false, cs)

  unfoldable pub merge_init_containers :
      List (InitContainer Rest) → List (InitContainer Rest) → Bool × List (InitContainer Rest)
  merge_init_containers cs rs =
      if length cs == length rs then merge_init_images cs rs else (true, rs)

-- The order of the names and of the ports.
unfoldable pub by_name : {Rest : Type 0} → Item String Rest → Item String Rest → Bool
by_name a b = is_lt (compare a.key b.key)

unfoldable pub by_port : {Rest : Type 0} → Item ℕ Rest → Item ℕ Rest → Bool
by_port a b = ltb a.key b.key

module _ {Rest : Type 0} (same_json deep_equal : Rest → Rest → Bool)
    (sort : (A : Type 0) → (A → A → Bool) → List A → List A) where
  unfoldable pub merge_names :
      Slice (Item String Rest) → Slice (Item String Rest) → Merged (Slice (Item String Rest))
  merge_names = merge_slice str_eq deep_equal (sort (Item String Rest) by_name)

  unfoldable pub merge_ports :
      Slice (Item ℕ Rest) → Slice (Item ℕ Rest) → Merged (Slice (Item ℕ Rest))
  merge_ports = merge_slice ◌==◌ deep_equal (sort (Item ℕ Rest) by_port)

  -- What one round leaves, after the three probes.
  unfoldable pub merged_container :
      Container Rest
      → Container Rest
      → Merged (Option (Probe Rest))
      → Merged (Option (Probe Rest))
      → Merged (Option (Probe Rest))
      → Merged (Container Rest)
  merged_container c r liveness readiness startup =
      let image = merge_if (str_eq c.image r.image) c.image r.image in
      let ports = merge_ports c.ports r.ports in
      let mounts = merge_names c.volume_mounts r.volume_mounts in
      let resources = merge_if (same_json c.resources r.resources) c.resources r.resources in
      let env = merge_names c.env r.env in
      record {
        changed =
            image.changed
            || (ports.changed
                || (mounts.changed
                    || (resources.changed
                        || (env.changed
                            || (liveness.changed || (readiness.changed || startup.changed))))));
        current = record c {
          image = image.current;
          ports = ports.current;
          volume_mounts = mounts.current;
          resources = resources.current;
          env = env.current;
          liveness_probe = liveness.current;
          readiness_probe = readiness.current;
          startup_probe = startup.current;
        };
        revised = record r {
          ports = ports.revised;
          volume_mounts = mounts.revised;
          env = env.revised;
        };
      }

  -- One round of the loop over the containers.
  unfoldable pub merge_container :
      Container Rest → Container Rest → Option (Merged (Container Rest))
  merge_container c r = do
    liveness ← merge_probe c.liveness_probe r.liveness_probe
    readiness ← merge_probe c.readiness_probe r.readiness_probe
    startup ← merge_probe c.startup_probe r.startup_probe
    some (merged_container c r liveness readiness startup)

  unfoldable pub merge_each :
      List (Container Rest) → List (Container Rest) → Option (Merged (List (Container Rest)))
  merge_each (c ∷ cs) (r ∷ rs) = do
    one ← merge_container c r
    others ← merge_each cs rs
    some record {
      changed = one.changed || others.changed;
      current = one.current ∷ others.current;
      revised = one.revised ∷ others.revised;
    }
  merge_each cs rs = some record { changed = false; current = cs; revised = rs }

  unfoldable pub merge_containers :
      List (Container Rest) → List (Container Rest) → Option (Merged (List (Container Rest)))
  merge_containers cs rs =
      let each = merge_each cs rs in
      if length cs == length rs then each else some (merge_if false cs rs)

  -- What is left after the containers.
  unfoldable pub merged_template :
      PodTemplate Rest
      → PodTemplate Rest
      → Merged (List (Container Rest))
      → Merged (PodTemplate Rest)
  merged_template c r containers =
      let account =
        merge_if (str_eq c.service_account_name r.service_account_name) c.service_account_name
          r.service_account_name in
      let affinity = merge_if (same_json c.affinity r.affinity) c.affinity r.affinity in
      let tolerations = merge_names c.tolerations r.tolerations in
      let spread = merge_names c.topology_spread_constraints r.topology_spread_constraints in
      let secrets = merge_names c.image_pull_secrets r.image_pull_secrets in
      let scheduler =
        merge_if (str_eq c.scheduler_name r.scheduler_name) c.scheduler_name r.scheduler_name in
      let volumes = merge_names c.volumes r.volumes in
      let inits = merge_init_containers c.init_containers r.init_containers in
      let annotations =
        merge_if (deep_equal c.annotations r.annotations) c.annotations r.annotations in
      let labels = merge_if (deep_equal c.labels r.labels) c.labels r.labels in
      record {
        changed =
            account.changed
            || (affinity.changed
                || (tolerations.changed
                    || (spread.changed
                        || (secrets.changed
                            || (scheduler.changed
                                || (volumes.changed
                                    || (inits.0
                                        || (containers.changed
                                            || (annotations.changed || labels.changed)))))))));
        current = record c {
          annotations = annotations.current;
          labels = labels.current;
          service_account_name = account.current;
          affinity = affinity.current;
          tolerations = tolerations.current;
          topology_spread_constraints = spread.current;
          image_pull_secrets = secrets.current;
          scheduler_name = scheduler.current;
          volumes = volumes.current;
          init_containers = inits.1;
          containers = containers.current;
        };
        revised = record r {
          tolerations = tolerations.revised;
          topology_spread_constraints = spread.revised;
          image_pull_secrets = secrets.revised;
          volumes = volumes.revised;
          containers = containers.revised;
        };
      }

  -- `MergePodUpdates`: `MergePodSpecUpdates`, then `MergePodMetaUpdates`.
  unfoldable pub merge_pod_updates :
      PodTemplate Rest → PodTemplate Rest → Option (Merged (PodTemplate Rest))
  merge_pod_updates c r = do
    containers ← merge_containers c.containers r.containers
    some (merged_template c r containers)
