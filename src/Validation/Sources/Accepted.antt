-- ===== src/Validation/Sources/Accepted.antt =====
-- Which app sources pass the validation.
use splunk_operator_mirror_d.Validation.Volumes.{check_if_volume_exists}
use splunk_operator_mirror_d.Validation.Volumes.Lookup.{Exists, Exists-found, found-Exists}
use splunk_operator_mirror_d.Validation.Sources.{
  AppFrameworkSpec, is_app_source_scope_valid, is_local_or_premium, AppSourceSpec,
  validate_premium_apps_inputs, volume_exists, check_source_volume, check_if_volume_exists,
  check_source_scope, write_entry,
}
use splunk_operator_mirror_d.Validation.{
  accepts, Reason, refuse_if, invalid_source_volume, ◌and_then◌,
}
use splunk_operator_mirror_d.Prelude.{
  false, inr, true, inl, refl, Bool, String, ◌≡◌, str_eq, ◌≢◌, ◌⊎◌, eq_iff, ◌&&◌, not, Bool-cases,
  arith, ◌↔◌, Option-cases, str_eq-ne, ◌||◌, if◌then◌else◌, ne-str_eq,
}
use mathlib.Core.Path.{subst⁻¹}

-- The scopes that a custom resource may use: the flag says that it takes no cluster scope.
pub data IsAllowed : Bool → String → Type 0 where
  local_scope : {only : Bool} → IsAllowed only "local"
  premium_scope : {only : Bool} → IsAllowed only "premiumApps"
  cluster_scope : IsAllowed false "cluster"
  pre_config_scope : IsAllowed false "clusterWithPreConfig"

module _ (fw : AppFrameworkSpec) (local_or_prem_scope : Bool) (cr_kind : String) where
  -- A source names a volume that exists, or leaves it to the default, which is set.
  abbrev pub HasVolume : AppSourceSpec → Type 0
  HasVolume s =
      ((s.own.vol_name ≡ "") × (fw.defaults.vol_name ≢ ""))
      ⊎ ((s.own.vol_name ≢ "") × Exists fw.vol_list s.own.vol_name)

  abbrev pub IsPremium : AppSourceSpec → Type 0
  IsPremium s = (s.own.scope ≡ "premiumApps") ⊎ (fw.defaults.scope ≡ "premiumApps")

  -- A source names a scope of its kind of custom resource, with fitting inputs where a premium app
  -- is meant, or leaves it to the default, which is a scope.
  abbrev pub HasScope : AppSourceSpec → Type 0
  HasScope s =
      ((s.own.scope ≡ "") × IsAllowed false fw.defaults.scope)
      ⊎ ((s.own.scope ≢ "")
          × IsAllowed local_or_prem_scope s.own.scope
          × (IsPremium s → validate_premium_apps_inputs s cr_kind ≡ accepts))

  abbrev pub IsSound : AppSourceSpec → Type 0
  IsSound s = (s.name ≢ "") × (s.location ≢ "") × HasVolume s × HasScope s

  abbrev pub HasDefaults : Type 0
  HasDefaults =
      ((fw.defaults.scope ≡ "") ⊎ IsAllowed local_or_prem_scope fw.defaults.scope)
      × ((fw.defaults.vol_name ≡ "") ⊎ Exists fw.vol_list fw.defaults.vol_name)

IsAllowed-literal :
    (only : Bool) (s literal : String)
    → str_eq s literal ≡ true
    → IsAllowed only literal
    → IsAllowed only s
IsAllowed-literal only s literal same h = subst⁻¹ (IsAllowed only) ((eq_iff s literal).0 same) h

pub is_allowed :
    (only : Bool) (s : String)
    → is_app_source_scope_valid s ≡ true
    → (only && not (is_local_or_premium s)) ≡ false
    → IsAllowed only s
unfolding is_app_source_scope_valid is_local_or_premium
is_allowed only s valid fit = elim (Bool-cases (str_eq s "local")) [
  | inl loc ↦ IsAllowed-literal only s "local" loc local_scope
  | inr a ↦ elim (Bool-cases (str_eq s "premiumApps")) [
    | inl prem ↦ IsAllowed-literal only s "premiumApps" prem premium_scope
    | inr b ↦
        let free : only ≡ false = ground arith in
        subst⁻¹ (λ o. IsAllowed o s) free
          (elim (Bool-cases (str_eq s "cluster")) [
            | inl cl ↦ IsAllowed-literal false s "cluster" cl cluster_scope
            | inr c ↦
                IsAllowed-literal false s "clusterWithPreConfig" (ground arith) pre_config_scope
          ])
  ]
]

pub allowed-valid :
    (only : Bool) (s : String)
    → IsAllowed only s
    → (is_app_source_scope_valid s ≡ true)
      × ((only && not (is_local_or_premium s)) ≡ false)
      × (str_eq s "" ≡ false)
unfolding is_app_source_scope_valid is_local_or_premium
allowed-valid false s local_scope = (refl, refl, refl)
allowed-valid true s local_scope = (refl, refl, refl)
allowed-valid false s premium_scope = (refl, refl, refl)
allowed-valid true s premium_scope = (refl, refl, refl)
allowed-valid only s cluster_scope = (refl, refl, refl)
allowed-valid only s pre_config_scope = (refl, refl, refl)

module _ (fw : AppFrameworkSpec) (local_or_prem_scope : Bool) (cr_kind : String) where
  pub volume_exists-Exists :
      (vol_name : String) (wrapped : Reason → Reason)
      → (volume_exists fw local_or_prem_scope cr_kind vol_name wrapped ≡ accepts)
        ↔ Exists fw.vol_list vol_name
  unfolding volume_exists
  volume_exists-Exists vol_name wrapped =
      elim (Option-cases (check_if_volume_exists fw.vol_list vol_name)) [
        | inl none_there ↦ (
          λ h. absurd (ground arith),
          λ ex. let (i, at) = Exists-found fw.vol_list vol_name ex in absurd (ground arith),
        )
        | inr (i, at) ↦ (
          λ h.
              let (v, there, named) = found-Exists fw.vol_list vol_name i at in
              (i, v, there, named),
          λ ex. rw (at, volume_exists) refl,
        )
      ]

  pub check_source_volume-HasVolume :
      (s : AppSourceSpec)
      → (check_source_volume fw local_or_prem_scope cr_kind s ≡ accepts)
        ↔ HasVolume fw local_or_prem_scope cr_kind s
  unfolding check_source_volume refuse_if
  check_source_volume-HasVolume s = (sound, complete)
    where
      exists :
          (volume_exists fw local_or_prem_scope cr_kind s.own.vol_name
              (invalid_source_volume s.name)
            ≡ accepts)
          ↔ Exists fw.vol_list s.own.vol_name
      exists = volume_exists-Exists s.own.vol_name (invalid_source_volume s.name)

      sound :
          check_source_volume fw local_or_prem_scope cr_kind s ≡ accepts
          → HasVolume fw local_or_prem_scope cr_kind s
      sound h = elim (Bool-cases (str_eq s.own.vol_name "")) [
        | inl blank ↦
            inl
              ((eq_iff s.own.vol_name "").0 blank, str_eq-ne fw.defaults.vol_name "" (ground arith))
        | inr own ↦ inr (str_eq-ne s.own.vol_name "" own, exists.0 (rw own at h))
      ]

      complete :
          HasVolume fw local_or_prem_scope cr_kind s
          → check_source_volume fw local_or_prem_scope cr_kind s ≡ accepts
      complete (inl (blank, set_there)) =
          rw ((eq_iff s.own.vol_name "").1 blank, ne-str_eq fw.defaults.vol_name "" set_there) refl
      complete (inr (own, ex)) = rw (ne-str_eq s.own.vol_name "" own, exists.1 ex) refl

  -- The test of the code for the inputs of a premium app.
  abbrev premium_test : AppSourceSpec → Bool
  premium_test s = str_eq s.own.scope "premiumApps" || str_eq fw.defaults.scope "premiumApps"

  IsPremium-inputs :
      (s : AppSourceSpec)
      → ((if premium_test s then validate_premium_apps_inputs s cr_kind else accepts) ≡ accepts) ↔ (
          IsPremium fw local_or_prem_scope cr_kind s
          → validate_premium_apps_inputs s cr_kind ≡ accepts)
  IsPremium-inputs s = (sound, complete)
    where
      sound :
          (if premium_test s then validate_premium_apps_inputs s cr_kind else accepts) ≡ accepts
          → IsPremium fw local_or_prem_scope cr_kind s
          → validate_premium_apps_inputs s cr_kind ≡ accepts
      sound h (inl own) = let same = (eq_iff s.own.scope "premiumApps").1 own in ground arith
      sound h (inr default) =
          let same = (eq_iff fw.defaults.scope "premiumApps").1 default in ground arith

      complete :
          (IsPremium fw local_or_prem_scope cr_kind s
            → validate_premium_apps_inputs s cr_kind ≡ accepts)
          → (if premium_test s then validate_premium_apps_inputs s cr_kind else accepts) ≡ accepts
      complete f = elim (Bool-cases (str_eq s.own.scope "premiumApps")) [
        | inl own ↦ let ok = f (inl ((eq_iff s.own.scope "premiumApps").0 own)) in rw (own, ok) refl
        | inr other ↦ elim (Bool-cases (str_eq fw.defaults.scope "premiumApps")) [
          | inl default ↦
              let ok = f (inr ((eq_iff fw.defaults.scope "premiumApps").0 default)) in
              rw (other, default, ok) refl
          | inr neither ↦ rw (other, neither) refl
        ]
      ]

  pub check_source_scope-HasScope :
      (s : AppSourceSpec)
      → ((check_source_scope fw local_or_prem_scope cr_kind s ≡ accepts)
          × (write_entry fw local_or_prem_scope cr_kind s ≡ accepts))
        ↔ HasScope fw local_or_prem_scope cr_kind s
  unfolding check_source_scope write_entry refuse_if ◌and_then◌
  check_source_scope-HasScope s = (sound, complete)
    where
      sound :
          (check_source_scope fw local_or_prem_scope cr_kind s ≡ accepts)
            × (write_entry fw local_or_prem_scope cr_kind s ≡ accepts)
          → HasScope fw local_or_prem_scope cr_kind s
      sound (h, w) = elim (Bool-cases (str_eq s.own.scope "")) [
        | inl blank ↦ inl (
          (eq_iff s.own.scope "").0 blank,
          is_allowed false fw.defaults.scope (ground arith) refl,
        )
        | inr own ↦ inr (
          str_eq-ne s.own.scope "" own,
          is_allowed local_or_prem_scope s.own.scope (ground arith) (ground arith),
          (IsPremium-inputs s).0 (ground arith),
        )
      ]

      complete :
          HasScope fw local_or_prem_scope cr_kind s
          → (check_source_scope fw local_or_prem_scope cr_kind s ≡ accepts)
            × (write_entry fw local_or_prem_scope cr_kind s ≡ accepts)
      complete (inl (blank, default)) =
          let unset_here = (eq_iff s.own.scope "").1 blank in
          let (valid, fit, there) = allowed-valid false fw.defaults.scope default in
          (rw (unset_here, there) refl, rw (unset_here, valid) refl)
      complete (inr (own, allowed, premium)) =
          let named = ne-str_eq s.own.scope "" own in
          let (valid, fit, there) = allowed-valid local_or_prem_scope s.own.scope allowed in
          let ok = (IsPremium-inputs s).1 premium in
          (rw (named, fit, valid, ok) refl, rw (named, valid) refl)
