-- ===== src/Merge/Scenarios.antt =====
-- Applies of a small StatefulSet.
use splunk_operator_mirror_d.Merge.Settled.Containers.Template.{TemplateIsDetermined}
use mathlib.Core.Bool.{true≢false}
use splunk_operator_mirror_d.Merge.Sorted.{IsSorting}
use splunk_operator_mirror_d.Merge.Apply.Stable.{IsQuiet, apply_stateful_set-IsQuiet}
use splunk_operator_mirror_d.Merge.{
  Item, str_eq, Container, PodTemplate, ℕ, merge_slice, merge_if, slice_length, slices_equal,
  items_equal, sort_slice, Probe,
}
use splunk_operator_mirror_d.Merge.Pod.{
  by_name, by_port, merge_pod_updates, merged_template, merge_containers, merge_each,
  merge_container, merged_container, merge_names, merge_ports, merge_init_containers,
  merge_init_images, merge_probe, has_probe_changed,
}
use splunk_operator_mirror_d.Merge.Apply.{
  updates, StatefulSet, Applied, apply_stateful_set, Answers, after_get, after_merge, after_write,
}
use splunk_operator_mirror_d.Api.{updating, found}
use splunk_operator_mirror_d.Prelude.{
  [], some, ◌∷◌, none, refl, Bool, String, List, insertion_sort, str_eq, insertion_sort-sorts, ℕ,
  str_eq-refl, text_lt_asymm, arith, eq_iff, text_lt_trans, insert, ◌≡◌, true,
}

abbrev by_sort : (A : Type 0) → (A → A → Bool) → List A → List A
by_sort A less xs = insertion_sort less xs

sorts_names : IsSorting by_name (by_sort (Item String String) by_name)
unfolding by_name
sorts_names =
    insertion_sort-sorts by_name (λ a b. text_lt_asymm a.key b.key)
      (λ a b c. text_lt_trans a.key b.key c.key)

sorts_ports : IsSorting by_port (by_sort (Item ℕ String) by_port)
unfolding by_port
sorts_ports = insertion_sort-sorts by_port (λ a b h. ground arith) (λ a b c p q. ground arith)

abbrev item : String → String → Item String String
item key rest = record { key = key; rest = rest }

abbrev container : List (Item String String) → Container String
container env = record {
  image = "splunk/splunk:9.1.0";
  ports = some (record { key = 8089; rest = "splunkd" } ∷ []);
  volume_mounts = some (item "mnt-splunk-etc" "/opt/splunk/etc" ∷ []);
  resources = "4 cpu";
  env = some env;
  liveness_probe = none;
  readiness_probe = none;
  startup_probe = none;
  others = "splunk";
}

abbrev template : List (Item String String) → PodTemplate String
template env = record {
  annotations = "{}";
  labels = "{}";
  service_account_name = "";
  affinity = "none";
  tolerations = none;
  topology_spread_constraints = none;
  image_pull_secrets = none;
  scheduler_name = "default";
  volumes = none;
  init_containers = [];
  containers = container env ∷ [];
  others = "";
}

abbrev set_of : List (Item String String) → StatefulSet String
set_of env = record { template = template env; others = "3 replicas" }

-- The new template has its variables in another order, and one more.
abbrev old_env : List (Item String String)
old_env = item "SPLUNK_HOME" "/opt/splunk" ∷ []

abbrev new_env : List (Item String String)
new_env = item "SPLUNK_ROLE" "splunk_indexer" ∷ item "SPLUNK_HOME" "/opt/splunk" ∷ []

abbrev answers : StatefulSet String → Answers String
answers s = record { stored = found s; create_err = none; update_err = none; latest = found s }

abbrev merged_set : StatefulSet String
merged_set = set_of new_env

abbrev first_apply : Applied String
first_apply = record {
  phase = updating;
  err = none;
  object = set_of old_env;
  writes = updates merged_set ∷ [];
}

-- The apply; a slice that is empty in the new template and nil in the stored one, which counts as a
-- change; and a probe that the new template lacks, which is a panic.
first_apply_runs :
    (apply_stateful_set str_eq str_eq by_sort (answers (set_of old_env)) (set_of new_env)
      ≡ some first_apply)
    × ((merge_names {Rest = String} str_eq str_eq by_sort none (some [])).changed ≡ true)
    × ((p : Probe String) → merge_probe (some p) none ≡ none)
unfolding apply_stateful_set after_get after_merge after_write merge_pod_updates merged_template
    merge_containers merge_each merge_container merged_container merge_names merge_ports merge_slice
    merge_if merge_init_containers merge_init_images merge_probe has_probe_changed slice_length
    slices_equal items_equal sort_slice by_port by_name insertion_sort insert
first_apply_runs = (refl, refl, λ p. refl)

new_env-determined : TemplateIsDetermined String (template new_env)
unfolding by_name
new_env-determined = (
  tt,
  tt,
  tt,
  tt,
  (
    (
      ((λ t. refl, tt), tt),
      ((λ t. refl, tt), tt),
      (
        (λ t. refl, (λ t. absurd (true≢false t.1), tt)),
        ((λ t. absurd (true≢false t.0), (λ t. refl, tt)), tt),
      ),
    ),
    tt,
  ),
)

apply_stateful_set-IsQuiet_example :
    IsQuiet str_eq str_eq by_sort str_eq-refl eq_iff sorts_names sorts_ports
      (answers merged_set)
      (set_of new_env)
apply_stateful_set-IsQuiet_example =
    apply_stateful_set-IsQuiet str_eq str_eq by_sort str_eq-refl eq_iff sorts_names sorts_ports
      (answers (set_of old_env)) (answers merged_set) (set_of new_env) first_apply
      (updates merged_set) new_env-determined first_apply_runs.0 refl refl
