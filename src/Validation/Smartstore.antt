-- ===== src/Validation/Smartstore.antt =====
-- pkg/splunk/enterprise/configuration.go: `ValidateSplunkSmartstoreSpec` with
-- `validateSplunkIndexesSpec`.
pub mod Indexes
use splunk_operator_mirror_d.Validation.Volumes.Lookup.{Exists, Exists-found, found-Exists}
use splunk_operator_mirror_d.Validation.Volumes.{
  VolumeSpec, check_if_volume_exists, validate_remote_volume_spec,
}
use splunk_operator_mirror_d.Prelude.{
  inl, suc, inr, [], some, ◌∷◌, true, none, false, refl, String, Option, List, Bool, ◌||◌, ℕ,
  if◌then◌else◌, ◌≢◌, not, str_eq, ltb, ◌≡◌, has_key, length, ◌⊎◌, ◌↔◌, ◌&&◌, arith, All, ◌==◌,
  Bool-cases, str_eq-ne, Distinct, eq_iff, map, Option-cases, ne-str_eq, AllNew, AllNew-cons,
}
use splunk_operator_mirror_d.Validation.{
  duplicate_index_name, invalid_index, invalid_default_volume, volume_does_not_exist,
  index_volume_missing, accepts, volumes_missing, index_name_missing, rejects, Validity, Reason,
  refuse_if, ◌and_then◌, and_then-accepts,
}

-- `IndexSpec` and `IndexConfDefaultsSpec` of api/v4/common_types.go, as far as they are validated.
pub record IndexSpec : Type 0 where
  pub name : String
  pub vol_name : String

-- The lists are none for a nil slice; `default_vol_name` is `Defaults.VolName`.
pub record SmartStoreSpec : Type 0 where
  pub vol_list : Option (List VolumeSpec)
  pub index_list : Option (List IndexSpec)
  pub default_vol_name : String

abbrev pub entries {ℓ} : {A : Type ℓ} → Option (List A) → List A
entries none = []
entries (some xs) = xs

abbrev is_set {ℓ} : {A : Type ℓ} → Option A → Bool
is_set none = false
is_set (some a) = true

unfoldable pub is_smartstore_configured : Option SmartStoreSpec → Bool
is_smartstore_configured none = false
is_smartstore_configured (some s) =
    is_set s.index_list || (is_set s.vol_list || not (str_eq s.default_vol_name ""))

module _ (vols : List VolumeSpec) (default_vol_name : String) where
  known_volume : (Reason → Reason) → String → Validity
  known_volume wrapped vol_name =
      if str_eq vol_name "" then accepts else elim (check_if_volume_exists vols vol_name) [
        | none ↦ rejects (wrapped (volume_does_not_exist vol_name))
        | some i ↦ accepts
      ]

  -- One round of the loop; `seen` are the names in `duplicateChecker`.
  check_index : List String → ℕ → IndexSpec → Validity
  check_index seen i x =
      refuse_if (str_eq x.name "") (index_name_missing i)
      and_then refuse_if (has_key str_eq x.name seen) (duplicate_index_name x.name)
      and_then refuse_if (str_eq x.vol_name "" && str_eq default_vol_name "")
          (index_volume_missing x.name)
      and_then known_volume (invalid_index x.name) x.vol_name

  validate_splunk_indexes_spec : List String → ℕ → List IndexSpec → Validity
  validate_splunk_indexes_spec seen i [] = accepts
  validate_splunk_indexes_spec seen i (x ∷ xs) =
      check_index seen i x and_then validate_splunk_indexes_spec (x.name ∷ seen) (suc i) xs

pub validate_splunk_smartstore_spec : Option SmartStoreSpec → Validity
unfolding is_smartstore_configured
validate_splunk_smartstore_spec none = accepts
validate_splunk_smartstore_spec (some s) =
    let vols = entries s.vol_list in
    let indexes = entries s.index_list in
    if is_smartstore_configured (some s)
    then (refuse_if (ltb 0 (length indexes) && (length vols == 0))
          (volumes_missing (length indexes) (length vols))
        and_then validate_remote_volume_spec vols false
        and_then known_volume vols s.default_vol_name invalid_default_volume s.default_vol_name
        and_then validate_splunk_indexes_spec vols s.default_vol_name [] 0 indexes)
    else accepts
