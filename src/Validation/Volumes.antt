-- ===== src/Validation/Volumes.antt =====
-- pkg/splunk/enterprise/configuration.go: `validateRemoteVolumeSpec` with the tests of the storage
-- type and the provider, and `CheckIfVolumeExists` of pkg/splunk/client/util.go.
pub mod Accepted
pub mod Lookup
use mathlib.Core.Option
use mathlib.Core.Path.{subst, subst⁻¹}
use splunk_operator_mirror_d.Validation.{
  volume_endpoint_missing, accepts, bad_provider, duplicate_volume_name, bad_combination,
  volume_name_missing, volume_path_missing, bad_storage_type, Validity, refuse_if, ◌and_then◌,
  and_then-accepts,
}
use splunk_operator_mirror_d.Prelude.{
  true, some, suc, none, [], ◌∷◌, String, List, Bool, Option, not, str_eq, ℕ, ◌≢◌, if◌then◌else◌,
  ◌&&◌, has_key, ◌≡◌, ◌||◌, inl, inr, refl, Bool-cases, arith, eq_iff, ◌↔◌, false, str_eq-ne, All,
  ne-str_eq, Distinct, map, AllNew, AllNew-nil, AllNew-cons,
}

-- `VolumeSpec` of api/v4/common_types.go.
pub record VolumeSpec : Type 0 where
  pub name : String
  pub endpoint : String
  pub path : String
  pub secret_ref : String
  pub storage_type : String
  pub provider : String
  pub region : String

-- The index of the volume, or the error.
unfoldable pub check_if_volume_exists : List VolumeSpec → String → Option ℕ
check_if_volume_exists [] vol_name = none
check_if_volume_exists (v ∷ vs) vol_name =
    let rest = check_if_volume_exists vs vol_name in
    if str_eq v.name vol_name then some 0 else Option.map suc rest

is_valid_storage_type : String → Bool
is_valid_storage_type s =
    not (str_eq s "") && (str_eq s "s3" || (str_eq s "blob" || str_eq s "gcs"))

is_valid_provider : String → Bool
is_valid_provider p =
    not (str_eq p "")
    && (str_eq p "aws" || (str_eq p "minio" || (str_eq p "azure" || str_eq p "gcp")))

is_valid_provider_for_storage_type : String → String → Bool
is_valid_provider_for_storage_type s p =
    (str_eq s "s3" && (str_eq p "aws" || str_eq p "minio"))
    || ((str_eq s "blob" && str_eq p "azure") || (str_eq s "gcs" && str_eq p "gcp"))

check_storage : VolumeSpec → Validity
check_storage v =
    refuse_if (not (is_valid_storage_type v.storage_type)) (bad_storage_type v.storage_type)
    and_then refuse_if (not (is_valid_provider v.provider)) (bad_provider v.provider)
    and_then refuse_if (not (is_valid_provider_for_storage_type v.storage_type v.provider))
        (bad_combination v.storage_type v.provider)

-- One round of the loop; `seen` are the names in `duplicateChecker`.
check_volume : Bool → List String → ℕ → VolumeSpec → Validity
check_volume is_app_framework seen i v =
    refuse_if (has_key str_eq v.name seen) (duplicate_volume_name v.name)
    and_then refuse_if (str_eq v.name "") (volume_name_missing i)
    and_then refuse_if (str_eq v.endpoint "") volume_endpoint_missing
    and_then refuse_if (str_eq v.path "") volume_path_missing
    and_then (if is_app_framework then check_storage v else accepts)

check_volumes : Bool → List String → ℕ → List VolumeSpec → Validity
check_volumes is_app_framework seen i [] = accepts
check_volumes is_app_framework seen i (v ∷ vs) =
    check_volume is_app_framework seen i v
    and_then check_volumes is_app_framework (v.name ∷ seen) (suc i) vs

pub validate_remote_volume_spec : List VolumeSpec → Bool → Validity
unfolding check_volumes
validate_remote_volume_spec vol_list is_app_framework = check_volumes is_app_framework [] 0 vol_list
