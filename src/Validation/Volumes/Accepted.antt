-- ===== src/Validation/Volumes/Accepted.antt =====
-- Which remote volumes pass the validation.
use splunk_operator_mirror_d.Validation.Volumes.{
  validate_remote_volume_spec, VolumeSpec, is_valid_provider_for_storage_type,
  is_valid_storage_type, check_storage, check_volume, check_volumes, is_valid_provider,
}
use splunk_operator_mirror_d.Prelude.{
  suc, inl, false, true, [], ◌∷◌, inr, refl, String, Bool, str_eq, List, ◌≢◌, ◌≡◌, if◌then◌else◌, ℕ,
  eq_iff, Bool-cases, arith, ◌↔◌, has_key, All, str_eq-ne, Distinct, ne-str_eq, map, AllNew,
  AllNew-nil, AllNew-cons,
}
use splunk_operator_mirror_d.Validation.{accepts, refuse_if, ◌and_then◌, and_then-accepts}
use mathlib.Core.Path.{subst, subst⁻¹}

-- The combinations of storage type and provider that the documentation of the volumes names.
pub data IsSupported : String → String → Type 0 where
  s3_aws : IsSupported "s3" "aws"
  s3_minio : IsSupported "s3" "minio"
  blob_azure : IsSupported "blob" "azure"
  gcs_gcp : IsSupported "gcs" "gcp"

abbrev pub IsComplete : Bool → VolumeSpec → Type 0
IsComplete is_app_framework v =
    (v.name ≢ "")
    × (v.endpoint ≢ "")
    × (v.path ≢ "")
    × (is_app_framework ≡ true → IsSupported v.storage_type v.provider)

module _ (p : String) where
  provider_is : (s q : String) → str_eq p q ≡ true → IsSupported s q → IsSupported s p
  provider_is s q same h = subst⁻¹ (λ y. IsSupported s y) ((eq_iff p q).0 same) h

  IsSupported-s3 : is_valid_provider_for_storage_type "s3" p ≡ true → IsSupported "s3" p
  unfolding is_valid_provider_for_storage_type
  IsSupported-s3 h = elim (Bool-cases (str_eq p "aws")) [
    | inl aws ↦ provider_is "s3" "aws" aws s3_aws
    | inr other ↦ provider_is "s3" "minio" (ground arith) s3_minio
  ]

  IsSupported-blob : is_valid_provider_for_storage_type "blob" p ≡ true → IsSupported "blob" p
  unfolding is_valid_provider_for_storage_type
  IsSupported-blob h = provider_is "blob" "azure" (ground arith) blob_azure

  IsSupported-gcs : is_valid_provider_for_storage_type "gcs" p ≡ true → IsSupported "gcs" p
  unfolding is_valid_provider_for_storage_type
  IsSupported-gcs h = provider_is "gcs" "gcp" (ground arith) gcs_gcp

  supported :
      (s : String)
      → is_valid_storage_type s ≡ true
      → is_valid_provider_for_storage_type s p ≡ true
      → IsSupported s p
  unfolding is_valid_storage_type
  supported s t h = elim (Bool-cases (str_eq s "s3")) [
    | inl s3 ↦ at_type "s3" s3 IsSupported-s3
    | inr other ↦ elim (Bool-cases (str_eq s "blob")) [
      | inl blob ↦ at_type "blob" blob IsSupported-blob
      | inr not_blob ↦ at_type "gcs" (ground arith) IsSupported-gcs
    ]
  ]
    where
      at_type :
          (literal : String)
          → str_eq s literal ≡ true
          → (is_valid_provider_for_storage_type literal p ≡ true → IsSupported literal p)
          → IsSupported s p
      at_type literal same f =
          let e = (eq_iff s literal).0 same in
          subst⁻¹ (λ x. IsSupported x p) e
            (f (subst (λ x. is_valid_provider_for_storage_type x p ≡ true) e h))

check_supported :
    (s p : String)
    → IsSupported s p
    → (is_valid_storage_type s ≡ true)
      × (is_valid_provider p ≡ true)
      × (is_valid_provider_for_storage_type s p ≡ true)
unfolding is_valid_storage_type is_valid_provider is_valid_provider_for_storage_type
check_supported s p s3_aws = (refl, refl, refl)
check_supported s p s3_minio = (refl, refl, refl)
check_supported s p blob_azure = (refl, refl, refl)
check_supported s p gcs_gcp = (refl, refl, refl)

check_storage-IsSupported :
    (v : VolumeSpec) → (check_storage v ≡ accepts) ↔ IsSupported v.storage_type v.provider
unfolding check_storage refuse_if ◌and_then◌
check_storage-IsSupported v = (sound, complete)
  where
    sound : check_storage v ≡ accepts → IsSupported v.storage_type v.provider
    sound h = supported v.provider v.storage_type (ground arith) (ground arith)

    complete : IsSupported v.storage_type v.provider → check_storage v ≡ accepts
    complete h = let known = check_supported v.storage_type v.provider h in ground arith

storage_step :
    (is_app_framework : Bool) (v : VolumeSpec)
    → ((if is_app_framework then check_storage v else accepts) ≡ accepts)
      ↔ (is_app_framework ≡ true → IsSupported v.storage_type v.provider)
storage_step true v =
    (λ h s. (check_storage-IsSupported v).0 h, λ f. (check_storage-IsSupported v).1 (f refl))
storage_step false v = (λ h s. cc, λ f. refl)

check_volume-IsComplete :
    (is_app_framework : Bool) (seen : List String) (i : ℕ) (v : VolumeSpec)
    → (check_volume is_app_framework seen i v ≡ accepts)
      ↔ ((has_key str_eq v.name seen ≡ false) × IsComplete is_app_framework v)
unfolding check_volume refuse_if ◌and_then◌
check_volume-IsComplete is_app_framework seen i v = (sound, complete)
  where
    sound :
        check_volume is_app_framework seen i v ≡ accepts
        → (has_key str_eq v.name seen ≡ false) × IsComplete is_app_framework v
    sound h = (
      ground arith,
      (
        str_eq-ne v.name "" (ground arith),
        str_eq-ne v.endpoint "" (ground arith),
        str_eq-ne v.path "" (ground arith),
        (storage_step is_app_framework v).0 (ground arith),
      ),
    )

    complete :
        (has_key str_eq v.name seen ≡ false) × IsComplete is_app_framework v
        → check_volume is_app_framework seen i v ≡ accepts
    complete (new, (name, endpoint, path, fit)) =
        let a = ne-str_eq v.name "" name in
        let b = ne-str_eq v.endpoint "" endpoint in
        let c = ne-str_eq v.path "" path in
        let d = (storage_step is_app_framework v).1 fit in rw (new, a, b, c, d)

check_volumes-IsComplete :
    (is_app_framework : Bool) (seen : List String) (i : ℕ) (vs : List VolumeSpec)
    → (check_volumes is_app_framework seen i vs ≡ accepts) ↔ (
        All (IsComplete is_app_framework) vs
        × Distinct (map (λ v. v.name) vs)
        × AllNew str_eq seen (map (λ v. v.name) vs))
unfolding check_volumes
check_volumes-IsComplete is_app_framework seen i [] = (λ h. (tt, tt, tt), λ h. refl)
check_volumes-IsComplete is_app_framework seen i (v ∷ vs) =
    let names = map (λ w. w.name) vs in
    let head = check_volume-IsComplete is_app_framework seen i v in
    let rest = check_volumes-IsComplete is_app_framework (v.name ∷ seen) (suc i) vs in
    let keys = AllNew-cons str_eq eq_iff v.name seen names in
    let both =
      and_then-accepts (check_volume is_app_framework seen i v)
        (check_volumes is_app_framework (v.name ∷ seen) (suc i) vs) in
    (
      λ h.
          let (new, ok) = head.0 (both.0 h).0 in
          let (oks, distinct, news) = rest.0 (both.0 h).1 in
          ((ok, oks), ((keys.0 news).0, distinct), (new, (keys.0 news).1)),
      λ ((ok, oks), (apart, distinct), (new, news)).
          both.1 (head.1 (new, ok), rest.1 (oks, distinct, keys.1 (apart, news))),
    )

-- The volumes of a spec are accepted exactly if every one of them has a name, an endpoint and a
-- path and, in the app framework, a supported combination of storage type and provider, and if no
-- two have the same name.
pub validate_remote_volume_spec-IsComplete :
    (vol_list : List VolumeSpec) (is_app_framework : Bool)
    → (validate_remote_volume_spec vol_list is_app_framework ≡ accepts)
      ↔ (All (IsComplete is_app_framework) vol_list × Distinct (map (λ v. v.name) vol_list))
unfolding validate_remote_volume_spec
validate_remote_volume_spec-IsComplete vol_list is_app_framework =
    let (sound, complete) = check_volumes-IsComplete is_app_framework [] 0 vol_list in
    (
      λ h. ((sound h).0, (sound h).1),
      λ (ok, distinct). complete (ok, distinct, AllNew-nil str_eq (map (λ v. v.name) vol_list)),
    )
