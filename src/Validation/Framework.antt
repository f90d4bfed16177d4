-- ===== src/Validation/Framework.antt =====
-- pkg/splunk/enterprise/configuration.go: `ValidateAppFrameworkSpec`. Whether the volume for the
-- downloads is missing on the operator's pod is an argument.
use Prim.Native.Nat.{min, max}
use splunk_operator_mirror_d.Validation.Sources.Whole.{validate_splunk_app_sources-IsSound}
use splunk_operator_mirror_d.Validation.Volumes.{validate_remote_volume_spec}
use splunk_operator_mirror_d.Validation.Volumes.Accepted.{
  IsComplete, validate_remote_volume_spec-IsComplete,
}
use splunk_operator_mirror_d.Validation.Sources.{
  AppFrameworkSpec, validate_splunk_app_sources, sources_of, storage_key,
}
use splunk_operator_mirror_d.Validation.{
  accepts, download_volume_missing, Validity, refuse_if, ◌and_then◌, and_then-accepts,
  refuse_if-accepts,
}
use splunk_operator_mirror_d.Validation.Sources.Accepted.{IsSound, HasDefaults}
use splunk_operator_mirror_d.Prelude.{
  some, false, negsuc, pos, none, true, ℤ, Option, ℕ, Bool, if◌then◌else◌, String, ◌==◌, ◌≡◌, ltb,
  All, ◌↔◌, ◌≤◌, Distinct, map, suc, zero, inl, inr, refl, ◌⊎◌, arith,
}

-- The fields of `AppDeploymentContext` that the validation writes: an int64 and an uint64.
pub record Context : Type 0 where
  pub apps_repo_status_poll_interval : ℤ
  pub max_concurrent_app_downloads : ℕ

unfoldable pub is_app_framework_configured : Option AppFrameworkSpec → Bool
is_app_framework_configured none = false
is_app_framework_configured (some fw) = elim fw.app_sources [ none ↦ false | some sources ↦ true ]

-- `MinAppsRepoPollInterval` and `MaxAppsRepoPollInterval` are 60 and 86400.
poll_interval : ℤ → ℤ
poll_interval (negsuc n) = pos 0
poll_interval (pos n) =
    if n == 0
    then pos 0
    else (if ltb n 60 then pos 60 else (if ltb 86400 n then pos 86400 else pos n))

-- `DefaultMaxConcurrentAppDownloads` is 5.
concurrent_downloads : ℕ → ℕ
concurrent_downloads n = if n == 0 then 5 else n

-- What is written to the status.
written_context : AppFrameworkSpec → Context
written_context fw = record {
  apps_repo_status_poll_interval = poll_interval fw.apps_repo_poll_interval;
  max_concurrent_app_downloads = concurrent_downloads fw.max_concurrent_app_downloads;
}

-- The poll interval that is written for a configured one.
abbrev pub IsPoll : ℤ → ℤ → Type 0
IsPoll configured written =
    (((configured ≡ pos 0) ⊎ ((n : ℕ) × (configured ≡ negsuc n))) × (written ≡ pos 0))
    ⊎ ((n : ℕ) × (configured ≡ pos n) × (1 ≤ n) × (written ≡ pos (max 60 (min n 86400))))

module _ (no_download_volume local_scope : Bool) (cr_kind : String) where
  check_framework : AppFrameworkSpec → Validity
  check_framework fw =
      refuse_if no_download_volume download_volume_missing
      and_then validate_remote_volume_spec fw.vol_list true
      and_then validate_splunk_app_sources fw local_scope cr_kind

  pub validate_app_framework_spec : Option AppFrameworkSpec → Context → Validity × Context
  unfolding is_app_framework_configured
  validate_app_framework_spec none context = (accepts, context)
  validate_app_framework_spec (some fw) context =
      if is_app_framework_configured (some fw)
      then (check_framework fw, written_context fw)
      else (accepts, context)

  -- Every volume is complete and every source is sound, alone and beside the others.
  abbrev pub IsValid : AppFrameworkSpec → Type 0
  IsValid fw =
      (no_download_volume ≡ false)
      × (All (IsComplete true) fw.vol_list × Distinct (map (λ v. v.name) fw.vol_list))
      × (All (IsSound fw local_scope cr_kind) (sources_of fw)
          × Distinct (map (λ s. s.name) (sources_of fw))
          × Distinct (map (storage_key fw local_scope cr_kind) (sources_of fw))
          × HasDefaults fw local_scope cr_kind)

  -- An app framework spec that has app sources is accepted exactly if the volume for the downloads
  -- is there, its volumes all have a name of their own, an endpoint, a path and a supported
  -- combination of storage type and provider, and its app sources are sound: each has a name of its
  -- own, a location, a volume that exists or a default one, a scope for this kind of custom resource
  -- or a default one, with fitting inputs where the source names a scope and that or the default one
  -- is of premium apps; no two share scope and text of volume and location; and the defaults that
  -- are set are a scope for this kind and a volume that exists.
  pub validate_app_framework_spec-IsValid :
      (fw : AppFrameworkSpec) (context : Context)
      → is_app_framework_configured (some fw) ≡ true
      → ((validate_app_framework_spec (some fw) context).0 ≡ accepts) ↔ IsValid fw
  unfolding validate_app_framework_spec check_framework
  validate_app_framework_spec-IsValid fw context configured =
      let rest =
        validate_remote_volume_spec fw.vol_list true
        and_then validate_splunk_app_sources fw local_scope cr_kind in
      let first = and_then-accepts (refuse_if no_download_volume download_volume_missing) rest in
      let second =
        and_then-accepts (validate_remote_volume_spec fw.vol_list true)
          (validate_splunk_app_sources fw local_scope cr_kind) in
      let there = refuse_if-accepts no_download_volume download_volume_missing in
      let volumes = validate_remote_volume_spec-IsComplete fw.vol_list true in
      let valid = validate_splunk_app_sources-IsSound fw local_scope cr_kind in
      rw configured (
        λ h.
            let (a, next) = first.0 h in
            let (b, c) = second.0 next in (there.0 a, volumes.0 b, valid.0 c),
        λ (a, b, c). first.1 (there.1 a, second.1 (volumes.1 b, valid.1 c)),
      )

  -- The validation of a spec with app sources, whatever its verdict, turns polling off if the
  -- configured interval is not positive and else brings it between 60 and 86400 seconds, and
  -- allows at least one download at a time.
  pub validate_app_framework_spec-bounds :
      (fw : AppFrameworkSpec) (context : Context)
      → is_app_framework_configured (some fw) ≡ true
      → let after = (validate_app_framework_spec (some fw) context).1 in
        IsPoll fw.apps_repo_poll_interval after.apps_repo_status_poll_interval
        × (1 ≤ after.max_concurrent_app_downloads)
  unfolding validate_app_framework_spec written_context concurrent_downloads poll_interval
  validate_app_framework_spec-bounds fw context configured =
      rw configured (poll fw.apps_repo_poll_interval, ground arith)
    where
      clamp : (n : ℕ) → poll_interval (pos (suc n)) ≡ pos (max 60 (min (suc n) 86400))
      clamp n = ground arith

      poll : (z : ℤ) → IsPoll z (poll_interval z)
      poll (negsuc n) = inl (inr (n, refl), refl)
      poll (pos zero) = inl (inl refl, refl)
      poll (pos (suc n)) = inr (suc n, refl, omega arith, clamp n)
