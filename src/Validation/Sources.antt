-- ===== src/Validation/Sources.antt =====
-- pkg/splunk/enterprise/configuration.go: the look-ups of the app sources, and
-- `validateSplunkAppSources` with the inputs of a premium app; `GetAppSrcVolume` of
-- pkg/splunk/client/util.go.
pub mod Accepted
pub mod Whole
pub mod Resolve
pub mod Total
use splunk_operator_mirror_d.Validation.Volumes.{VolumeSpec, check_if_volume_exists}
use mathlib.Core.Option.{Option}
use splunk_operator_mirror_d.Prelude.{
  ◌>>=◌, suc, ◌∷◌, some, [], none, String, ℤ, List, Option, Bool, if◌then◌else◌, str_eq, ℕ, ◌||◌,
  not, ◌&&◌, has_key, pair_eq, get_elem?,
}
use splunk_operator_mirror_d.Validation.{
  volume_does_not_exist, default_scope_of_other_kind, source_volume_missing, cluster_ssl_auto,
  location_missing, unknown_default_scope, accepts, duplicate_source_name, bad_ssl_enablement,
  unknown_scope, bad_premium_type, scope_of_other_kind, rejects, panics, invalid_source_volume,
  duplicate_location, source_name_missing, invalid_default_volume, scope_missing, Validity, Reason,
  refuse_if, ◌and_then◌,
}
use Prim.Native.String.{◌++◌ as text_append, String}

-- `PremiumAppsProps` and `EsDefaults` of api/v4/common_types.go.
pub record EsDefaults : Type 0 where
  pub ssl_enablement : String

pub record PremiumAppsProps : Type 0 where
  pub app_type : String
  pub es_defaults : EsDefaults

pub record AppSourceDefaultSpec : Type 0 where
  pub vol_name : String
  pub scope : String
  pub premium_apps_props : PremiumAppsProps

-- `own` is the embedded `AppSourceDefaultSpec`.
pub record AppSourceSpec : Type 0 where
  pub name : String
  pub location : String
  pub own : AppSourceDefaultSpec

-- `app_sources` is none for a nil slice. `apps_repo_poll_interval` is an int64.
pub record AppFrameworkSpec : Type 0 where
  pub defaults : AppSourceDefaultSpec
  pub apps_repo_poll_interval : ℤ
  pub vol_list : List VolumeSpec
  pub app_sources : Option (List AppSourceSpec)
  pub max_concurrent_app_downloads : ℕ

-- What `range` visits: a nil slice is empty.
unfoldable pub sources_of : AppFrameworkSpec → List AppSourceSpec
sources_of fw = elim fw.app_sources [ none ↦ [] | some sources ↦ sources ]

-- The loop of `getAppSrcScope`, which leaves at the first source of this name.
unfoldable pub scope_in : String → String → List AppSourceSpec → String
scope_in default_scope app_src_name [] = default_scope
scope_in default_scope app_src_name (s ∷ sources) =
    let rest = scope_in default_scope app_src_name sources in
    if str_eq s.name app_src_name
    then (if str_eq s.own.scope "" then default_scope else s.own.scope)
    else rest

unfoldable pub get_app_src_scope : AppFrameworkSpec → String → String
get_app_src_scope fw app_src_name = scope_in fw.defaults.scope app_src_name (sources_of fw)

unfoldable pub get_app_src_spec : List AppSourceSpec → String → Option AppSourceSpec
get_app_src_spec [] app_src_name = none
get_app_src_spec (s ∷ sources) app_src_name =
    let rest = get_app_src_spec sources app_src_name in
    if str_eq s.name app_src_name then some s else rest

-- `none` is the error: the named volume does not exist.
unfoldable pub get_app_src_volume : AppSourceSpec → AppFrameworkSpec → Option VolumeSpec
get_app_src_volume s fw = do
  let vol_name = if str_eq s.own.vol_name "" then fw.defaults.vol_name else s.own.vol_name
  index ← check_if_volume_exists fw.vol_list vol_name
  get_elem? fw.vol_list index

unfoldable pub is_app_source_scope_valid : String → Bool
is_app_source_scope_valid scope =
    str_eq scope "local"
    || (str_eq scope "cluster"
        || (str_eq scope "premiumApps" || str_eq scope "clusterWithPreConfig"))

unfoldable pub is_local_or_premium : String → Bool
is_local_or_premium scope = str_eq scope "local" || str_eq scope "premiumApps"

unfoldable pub is_ssl_enablement : String → Bool
is_ssl_enablement ssl = str_eq ssl "auto" || (str_eq ssl "ignore" || str_eq ssl "strict")

unfoldable pub validate_premium_apps_inputs : AppSourceSpec → String → Validity
unfolding is_ssl_enablement
validate_premium_apps_inputs s cr_kind =
    let props = s.own.premium_apps_props in
    let ssl = props.es_defaults.ssl_enablement in
    refuse_if (not (str_eq props.app_type "enterpriseSecurity")) bad_premium_type
    and_then refuse_if (not (str_eq ssl "") && not (is_ssl_enablement ssl)) bad_ssl_enablement
    and_then refuse_if
        (str_eq cr_kind "SearchHeadCluster"
          && (str_eq props.app_type "enterpriseSecurity" && str_eq ssl "auto"))
        (cluster_ssl_auto s.name)

module _ (fw : AppFrameworkSpec) (local_or_prem_scope : Bool) (cr_kind : String) where
  -- `vol` and `scope` after the checks of one round
  abbrev pub volume_of : AppSourceSpec → String
  volume_of s = if str_eq s.own.vol_name "" then fw.defaults.vol_name else s.own.vol_name

  abbrev pub scope_of_source : AppSourceSpec → String
  scope_of_source s = if str_eq s.own.scope "" then fw.defaults.scope else s.own.scope

  -- The entry in `duplicateAppSourceStorageChecker`: the scope and `vol+appSrc.Location`.
  abbrev pub storage_key : AppSourceSpec → String × String
  storage_key s = (scope_of_source s, text_append (volume_of s) s.location)

  unfoldable pub volume_exists : String → (Reason → Reason) → Validity
  volume_exists vol_name wrapped = elim (check_if_volume_exists fw.vol_list vol_name) [
    | none ↦ rejects (wrapped (volume_does_not_exist vol_name))
    | some index ↦ accepts
  ]

  unfoldable pub check_source_volume : AppSourceSpec → Validity
  check_source_volume s =
      if str_eq s.own.vol_name ""
      then refuse_if (str_eq fw.defaults.vol_name "") (source_volume_missing s.name)
      else volume_exists s.own.vol_name (invalid_source_volume s.name)

  unfoldable pub check_source_scope : AppSourceSpec → Validity
  check_source_scope s =
      if str_eq s.own.scope ""
      then refuse_if (str_eq fw.defaults.scope "") (scope_missing s.name)
      else (refuse_if (local_or_prem_scope && not (is_local_or_premium s.own.scope))
            (scope_of_other_kind s.name)
          and_then refuse_if (not (is_app_source_scope_valid s.own.scope)) (unknown_scope s.name)
          and_then (if str_eq s.own.scope "premiumApps" || str_eq fw.defaults.scope "premiumApps"
              then validate_premium_apps_inputs s cr_kind
              else accepts))

  -- `duplicateAppSourceStorageChecker[scope]` is a nil map for a scope other than the four that are
  -- made: an assignment to its entry panics.
  unfoldable pub write_entry : AppSourceSpec → Validity
  write_entry s = if is_app_source_scope_valid (scope_of_source s) then accepts else panics

  -- One round of the loop; `names` and `stored` are the keys of the two maps of duplicates.
  unfoldable pub check_source : List String → List (String × String) → ℕ → AppSourceSpec → Validity
  check_source names stored i s =
      refuse_if (str_eq s.name "") (source_name_missing i)
      and_then refuse_if (has_key str_eq s.name names) (duplicate_source_name s.name)
      and_then refuse_if (str_eq s.location "") (location_missing s.name)
      and_then check_source_volume s
      and_then check_source_scope s
      and_then refuse_if (has_key pair_eq (storage_key s) stored)
          (duplicate_location (volume_of s) s.location)
      and_then write_entry s

  unfoldable pub check_sources :
      List String → List (String × String) → ℕ → List AppSourceSpec → Validity
  check_sources names stored i [] = accepts
  check_sources names stored i (s ∷ sources) =
      check_source names stored i s
      and_then check_sources (s.name ∷ names) (storage_key s ∷ stored) (suc i) sources

  -- What follows the loop.
  unfoldable pub check_defaults : Validity
  check_defaults =
      refuse_if
        (local_or_prem_scope
          && (not (str_eq fw.defaults.scope "") && not (is_local_or_premium fw.defaults.scope)))
        default_scope_of_other_kind
      and_then refuse_if
          (not (str_eq fw.defaults.scope "") && not (is_app_source_scope_valid fw.defaults.scope))
          (unknown_default_scope fw.defaults.scope)
      and_then (if str_eq fw.defaults.vol_name ""
          then accepts
          else volume_exists fw.defaults.vol_name invalid_default_volume)

  unfoldable pub validate_splunk_app_sources : Validity
  unfolding check_sources check_defaults
  validate_splunk_app_sources = check_sources [] [] 0 (sources_of fw) and_then check_defaults
