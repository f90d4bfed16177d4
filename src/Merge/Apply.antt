-- ===== src/Merge/Apply.antt =====
-- `ApplyStatefulSet` of pkg/splunk/splkcontroller/statefulset.go, with `SortStatefulSetSlices` of
-- pkg/splunk/splkcontroller/util.go. The answers of the API server are a record.
pub mod Created
pub mod Stable
use splunk_operator_mirror_d.Merge.{
  PodTemplate, Option, List, Slice, Container, Merged, Item, sort_slice, String, ◌==◌, str_eq, ℕ,
}
use splunk_operator_mirror_d.Merge.Pod.{by_name, by_port, merge_pod_updates}
use splunk_operator_mirror_d.Api.{found, pending, fails, updating, ready, Fetched, Phase, Err}
use splunk_operator_mirror_d.Prelude.{
  ◌>>=◌, ◌∷◌, some, [], none, Bool, Option, List, map, if◌then◌else◌, String, ◌==◌, str_eq, ℕ,
}

-- `others` is what is not in the pod template.
pub record StatefulSet (Rest : Type 0) : Type 0 where
  pub template : PodTemplate Rest
  pub others : Rest

-- What the client returns: `c.Get`, `CreateResource`, `UpdateResource` and the second `c.Get`.
pub record Answers (Rest : Type 0) : Type 0 where
  pub stored : Fetched (StatefulSet Rest)
  pub create_err : Option Err
  pub update_err : Option Err
  pub latest : Fetched (StatefulSet Rest)

-- The writes.
pub data Write (Rest : Type 0) : Type 0 where
  creates updates : StatefulSet Rest → Write Rest

abbrev pub written : {Rest : Type 0} → Write Rest → StatefulSet Rest
written (creates s) = s
written (updates s) = s

-- What is returned, what `revised` points to afterwards, and the writes.
pub record Applied (Rest : Type 0) : Type 0 where
  pub phase : Phase
  pub err : Option Err
  pub object : StatefulSet Rest
  pub writes : List (Write Rest)

module _ {Rest : Type 0} (same_json deep_equal : Rest → Rest → Bool)
    (sort : (A : Type 0) → (A → A → Bool) → List A → List A) where
  unfoldable pub sort_names : Slice (Item String Rest) → Slice (Item String Rest)
  sort_names = sort_slice str_eq deep_equal (sort (Item String Rest) by_name)

  unfoldable pub sort_container : Container Rest → Container Rest
  sort_container c = record c {
    ports = sort_slice ◌==◌ deep_equal (sort (Item ℕ Rest) by_port) c.ports;
    volume_mounts = sort_names c.volume_mounts;
    env = sort_names c.env;
  }

  -- `SortStatefulSetSlices`
  unfoldable pub sort_stateful_set_slices : PodTemplate Rest → PodTemplate Rest
  sort_stateful_set_slices t = record t {
    tolerations = sort_names t.tolerations;
    topology_spread_constraints = sort_names t.topology_spread_constraints;
    volumes = sort_names t.volumes;
    image_pull_secrets = sort_names t.image_pull_secrets;
    containers = map sort_container t.containers;
  }

  -- After the update: the phase is `PhaseUpdating` either way.
  unfoldable pub after_write :
      Option Err → Fetched (StatefulSet Rest) → StatefulSet Rest → Applied Rest
  after_write (some e) latest s = record {
    phase = updating;
    err = some e;
    object = s;
    writes = updates s ∷ [];
  }
  after_write none (fails e) s = record {
    phase = updating;
    err = some e;
    object = s;
    writes = updates s ∷ [];
  }
  after_write none (found latest) s = record {
    phase = updating;
    err = none;
    object = latest;
    writes = updates s ∷ [];
  }

  unfoldable pub after_merge :
      Answers Rest → StatefulSet Rest → Merged (PodTemplate Rest) → Applied Rest
  after_merge server stored m =
      let merged = record stored { template = m.current } in
      if m.changed
      then after_write server.update_err server.latest merged
      else record { phase = ready; err = none; object = merged; writes = [] }

  -- `if err != nil`: whatever the error of the first read is, the object is created.
  unfoldable pub after_get :
      Answers Rest → StatefulSet Rest → Fetched (StatefulSet Rest) → Option (Applied Rest)
  after_get server revised (fails e) =
      let sorted = record revised { template = sort_stateful_set_slices revised.template } in
      some record {
        phase = pending;
        err = server.create_err;
        object = sorted;
        writes = creates sorted ∷ [];
      }
  after_get server revised (found stored) = do
    m ← merge_pod_updates same_json deep_equal sort stored.template revised.template
    some (after_merge server stored m)

  -- None is a panic.
  unfoldable pub apply_stateful_set : Answers Rest → StatefulSet Rest → Option (Applied Rest)
  apply_stateful_set server revised = after_get server revised server.stored
