-- ===== src/Merge/Service.antt =====
-- `ApplyService` of pkg/splunk/splkcontroller/service.go, with `MergeServiceSpecUpdates` of
-- pkg/splunk/splkcontroller/util.go and `CompareSortedStrings` of pkg/splunk/common/util.go.
pub mod Stable
use splunk_operator_mirror_d.Merge.Pod.{merge_ports}
use splunk_operator_mirror_d.Merge.{Slice, Item, Merged, str_eq, slice_length, merge_if, ℕ}
use splunk_operator_mirror_d.Prelude.{
  none, [], true, some, ◌∷◌, false, String, List, Option, Bool, str_eq, if◌then◌else◌, ℕ, ◌&&◌,
  ◌==◌, ◌||◌,
}
use splunk_operator_mirror_d.Api.{found, fails, not_found, Fetched, Err}

-- `corev1.ServiceSpec`; `others` are the fields that are not merged.
pub record ServiceSpec (Rest : Type 0) : Type 0 where
  pub service_type : String
  pub external_name : String
  pub external_traffic_policy : String
  pub external_ips : Slice String
  pub ports : Slice (Item ℕ Rest)
  pub others : Rest

unfoldable pub texts_equal : List String → List String → Bool
texts_equal [] [] = true
texts_equal (x ∷ xs) (y ∷ ys) = str_eq x y && texts_equal xs ys
texts_equal xs ys = false

-- `reflect.DeepEqual` of two `[]string`
unfoldable pub text_slices_equal : Slice String → Slice String → Bool
text_slices_equal none none = true
text_slices_equal (some xs) (some ys) = texts_equal xs ys
text_slices_equal a b = false

-- What the client returns: the two reads, the creation and the update.
pub record ServiceAnswers (Rest : Type 0) : Type 0 where
  pub stored : Fetched (ServiceSpec Rest)
  pub create_err : Option Err
  pub update_err : Option Err
  pub latest : Fetched (ServiceSpec Rest)

pub data ServiceWrite (Rest : Type 0) : Type 0 where
  creates_service updates_service : ServiceSpec Rest → ServiceWrite Rest

-- The error that is returned, what `revised` points to afterwards, and the writes.
pub record ServiceApplied (Rest : Type 0) : Type 0 where
  pub err : Option Err
  pub object : ServiceSpec Rest
  pub writes : List (ServiceWrite Rest)

module _ {Rest : Type 0} (same_json deep_equal : Rest → Rest → Bool)
    (sort : (A : Type 0) → (A → A → Bool) → List A → List A)
    (sort_strings : List String → List String) where
  unfoldable pub sort_texts : Slice String → Slice String
  sort_texts none = none
  sort_texts (some xs) = some (sort_strings xs)

  -- The branch on `CompareSortedStrings`.
  unfoldable pub merge_texts : Slice String → Slice String → Merged (Slice String)
  merge_texts a b =
      if slice_length a == slice_length b
      then merge_if (text_slices_equal (sort_texts a) (sort_texts b)) (sort_texts a) (sort_texts b)
      else merge_if false a b

  unfoldable pub merge_service_spec_updates :
      ServiceSpec Rest → ServiceSpec Rest → Merged (ServiceSpec Rest)
  merge_service_spec_updates c r =
      let kind = merge_if (str_eq c.service_type r.service_type) c.service_type r.service_type in
      let name =
        merge_if (str_eq c.external_name r.external_name) c.external_name r.external_name in
      let policy =
        merge_if (str_eq c.external_traffic_policy r.external_traffic_policy)
          c.external_traffic_policy r.external_traffic_policy in
      let ips = merge_texts c.external_ips r.external_ips in
      let ports = merge_ports same_json deep_equal sort c.ports r.ports in
      record {
        changed =
            kind.changed || (name.changed || (policy.changed || (ips.changed || ports.changed)));
        current = record c {
          service_type = kind.current;
          external_name = name.current;
          external_traffic_policy = policy.current;
          external_ips = ips.current;
          ports = ports.current;
        };
        revised = record r { external_ips = ips.revised; ports = ports.revised };
      }

  unfoldable pub after_service_update :
      Option Err → Fetched (ServiceSpec Rest) → ServiceSpec Rest → ServiceApplied Rest
  after_service_update (some e) latest s = record {
    err = some e;
    object = s;
    writes = updates_service s ∷ [];
  }
  after_service_update none (fails e) s = record {
    err = some e;
    object = s;
    writes = updates_service s ∷ [];
  }
  after_service_update none (found latest) s = record {
    err = none;
    object = latest;
    writes = updates_service s ∷ [];
  }

  unfoldable pub after_service_get :
      ServiceAnswers Rest → ServiceSpec Rest → Fetched (ServiceSpec Rest) → ServiceApplied Rest
  after_service_get server revised (fails not_found) = record {
    err = server.create_err;
    object = revised;
    writes = creates_service revised ∷ [];
  }
  after_service_get server revised (fails e) = record {
    err = some e;
    object = revised;
    writes = [];
  }
  after_service_get server revised (found stored) =
      let m = merge_service_spec_updates stored revised in
      if m.changed
      then after_service_update server.update_err server.latest m.current
      else record { err = none; object = m.current; writes = [] }

  unfoldable pub apply_service : ServiceAnswers Rest → ServiceSpec Rest → ServiceApplied Rest
  apply_service server revised = after_service_get server revised server.stored
