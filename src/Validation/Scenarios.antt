-- ===== src/Validation/Scenarios.antt =====
-- Runs of the validation on small specs.
use splunk_operator_mirror_d.Validation.Sources.Total.{validate_splunk_app_sources-panics}
use splunk_operator_mirror_d.Validation.Sources.Accepted.{cluster_scope}
use splunk_operator_mirror_d.Validation.Smartstore.Indexes.{
  HasVolume, validate_splunk_smartstore_spec-HasVolume,
}
use splunk_operator_mirror_d.Validation.Volumes.Lookup.{Exists}
use splunk_operator_mirror_d.Validation.Volumes.Accepted.{IsComplete}
use splunk_operator_mirror_d.Validation.Sources.Resolve.{
  Resolves, validate_splunk_app_sources-Resolves,
}
use splunk_operator_mirror_d.Validation.Smartstore.{
  SmartStoreSpec, is_smartstore_configured, validate_splunk_smartstore_spec,
}
use splunk_operator_mirror_d.Validation.Framework.{
  Context, is_app_framework_configured, validate_app_framework_spec, IsValid,
  validate_app_framework_spec-IsValid,
}
use splunk_operator_mirror_d.Validation.Volumes.{VolumeSpec, check_if_volume_exists}
use splunk_operator_mirror_d.Validation.Sources.{
  PremiumAppsProps, AppFrameworkSpec, validate_splunk_app_sources, AppSourceDefaultSpec,
  AppSourceSpec, check_sources, check_source, sources_of, check_source_volume, check_source_scope,
  write_entry, check_defaults, volume_exists, is_app_source_scope_valid, is_local_or_premium,
}
use splunk_operator_mirror_d.Validation.{accepts, panics, refuse_if, ◌and_then◌}
use splunk_operator_mirror_d.Prelude.{
  some, true, false, ◌∷◌, pos, [], refl, String, List, All, ◌≡◌, ◌↔◌, Distinct, ◌⊎◌, inr, ◌≢◌,
}

abbrev no_props : PremiumAppsProps
no_props = record { app_type = ""; es_defaults = record { ssl_enablement = "" } }

abbrev scoped : String → String → AppSourceDefaultSpec
scoped vol_name scope = record { vol_name = vol_name; scope = scope; premium_apps_props = no_props }

abbrev source : String → String → AppSourceDefaultSpec → AppSourceSpec
source name location own = record { name = name; location = location; own = own }

abbrev bucket : VolumeSpec
bucket = record {
  name = "apps";
  endpoint = "https://s3-eu-central-1.amazonaws.com";
  path = "bucket/apps";
  secret_ref = "";
  storage_type = "s3";
  provider = "aws";
  region = "eu-central-1";
}

-- Two sources: the first with a scope of its own, the second with the defaults.
abbrev framework : String → List AppSourceSpec → AppFrameworkSpec
framework default_scope sources = record {
  defaults = scoped "apps" default_scope;
  apps_repo_poll_interval = pos 30;
  vol_list = bucket ∷ [];
  app_sources = some sources;
  max_concurrent_app_downloads = 0;
}

abbrev two_sources : List AppSourceSpec
two_sources =
    source "admin" "adminApps/" (scoped "apps" "local")
    ∷ source "search" "searchApps/" (scoped "" "")
    ∷ []

abbrev usual : AppFrameworkSpec
usual = framework "cluster" two_sources

abbrev nothing_yet : Context
nothing_yet = record { apps_repo_status_poll_interval = pos 0; max_concurrent_app_downloads = 0 }

usual-configured : is_app_framework_configured (some usual) ≡ true
unfolding is_app_framework_configured
usual-configured = refl

validate_app_framework_spec-IsValid_example :
    ((validate_app_framework_spec false false "ClusterManager" (some usual) nothing_yet).0
      ≡ accepts)
    ↔ IsValid false false "ClusterManager" usual
validate_app_framework_spec-IsValid_example =
    validate_app_framework_spec-IsValid false false "ClusterManager" usual nothing_yet
      usual-configured

-- The usual spec; a default scope that is none of the four, with a source that has no scope; and a
-- premium app whose source leaves the scope to the default: its type is not looked at.
app_source_runs :
    (validate_splunk_app_sources usual false "ClusterManager" ≡ accepts)
    × (validate_splunk_app_sources (framework "clustr" two_sources) false "ClusterManager" ≡ panics)
    × (validate_splunk_app_sources
          (framework "premiumApps" (source "es" "esApps/" (scoped "" "") ∷ []))
          true
          "Standalone"
        ≡ accepts)
unfolding validate_splunk_app_sources check_sources check_source check_source_volume
    check_source_scope write_entry check_defaults volume_exists sources_of is_app_source_scope_valid
    is_local_or_premium check_if_volume_exists refuse_if ◌and_then◌
app_source_runs = (refl, refl, refl)

validate_splunk_app_sources-Resolves_example :
    All (Resolves usual false "ClusterManager") (sources_of usual)
validate_splunk_app_sources-Resolves_example =
    validate_splunk_app_sources-Resolves usual false "ClusterManager" app_source_runs.0

abbrev store : SmartStoreSpec
store = record {
  vol_list = some (bucket ∷ []);
  index_list = some (record { name = "main"; vol_name = "" } ∷ []);
  default_vol_name = "apps";
}

store-configured : is_smartstore_configured (some store) ≡ true
unfolding is_smartstore_configured
store-configured = refl

validate_splunk_smartstore_spec-HasVolume_example :
    (validate_splunk_smartstore_spec (some store) ≡ accepts) ↔ (
      (All (IsComplete false) (bucket ∷ []) × Distinct {A = String} ("apps" ∷ []))
      × ((Path String "apps" "") ⊎ Exists (bucket ∷ []) "apps")
      × All (HasVolume (bucket ∷ []) "apps") (record { name = "main"; vol_name = "" } ∷ [])
      × Distinct {A = String} ("main" ∷ []))
validate_splunk_smartstore_spec-HasVolume_example =
    validate_splunk_smartstore_spec-HasVolume store store-configured

validate_splunk_app_sources-panics_example :
    validate_splunk_app_sources usual false "ClusterManager" ≢ panics
validate_splunk_app_sources-panics_example =
    validate_splunk_app_sources-panics usual false "ClusterManager" (inr cluster_scope)
