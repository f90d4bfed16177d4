-- ===== src/Validation/Sources/Total.antt =====
-- When `validateSplunkAppSources` does not panic.
use splunk_operator_mirror_d.Validation.Volumes.{check_if_volume_exists}
use splunk_operator_mirror_d.Validation.Sources.Accepted.{IsAllowed, allowed-valid}
use splunk_operator_mirror_d.Validation.Sources.{
  AppFrameworkSpec, volume_exists, check_source_volume, check_source_scope, check_source,
  AppSourceSpec, validate_premium_apps_inputs, write_entry, check_if_volume_exists, check_sources,
  check_defaults, validate_splunk_app_sources, storage_key, sources_of,
}
use splunk_operator_mirror_d.Validation.{
  invalid_source_volume, source_volume_missing, accepts, panics, Reason, refuse_if, ◌and_then◌,
  refuse_if-panics, invalid_default_volume, and_then-panics,
}
use splunk_operator_mirror_d.Prelude.{
  inr, inl, false, Bool, String, ◌≡◌, ◌⊎◌, ◌≢◌, Option-cases, Bool-cases, arith, eq_iff, List,
  str_eq, ℕ, suc, ◌∷◌, [],
}

module _ (fw : AppFrameworkSpec) (local_or_prem_scope : Bool) (cr_kind : String) where
  -- The default scope is not set, or is one of the four.
  abbrev pub HasKnownDefault : Type 0
  HasKnownDefault = (fw.defaults.scope ≡ "") ⊎ IsAllowed false fw.defaults.scope

  volume_exists-panics :
      (vol_name : String) (wrapped : Reason → Reason)
      → volume_exists fw local_or_prem_scope cr_kind vol_name wrapped ≢ panics
  unfolding volume_exists
  volume_exists-panics vol_name wrapped p =
      elim (Option-cases (check_if_volume_exists fw.vol_list vol_name)) [
        | inl nowhere ↦ ground arith
        | inr (i, at) ↦ ground arith
      ]

  check_source_volume-panics :
      (s : AppSourceSpec) → check_source_volume fw local_or_prem_scope cr_kind s ≢ panics
  unfolding check_source_volume
  check_source_volume-panics s p = elim (Bool-cases (str_eq s.own.vol_name "")) [
    | inl blank ↦
        refuse_if-panics (str_eq fw.defaults.vol_name "") (source_volume_missing s.name)
          (rw blank at p)
    | inr own ↦ volume_exists-panics s.own.vol_name (invalid_source_volume s.name) (rw own at p)
  ]

  check_source_scope-panics :
      (s : AppSourceSpec) → check_source_scope fw local_or_prem_scope cr_kind s ≢ panics
  unfolding check_source_scope validate_premium_apps_inputs ◌and_then◌ refuse_if
  check_source_scope-panics s p = ground arith

  -- A source whose scope is accepted has its map of duplicates.
  write_entry-accepts :
      (s : AppSourceSpec)
      → HasKnownDefault
      → check_source_scope fw local_or_prem_scope cr_kind s ≡ accepts
      → write_entry fw local_or_prem_scope cr_kind s ≡ accepts
  unfolding check_source_scope write_entry ◌and_then◌ refuse_if
  write_entry-accepts s (inl blank) h =
      let none_there = (eq_iff fw.defaults.scope "").1 blank in ground arith
  write_entry-accepts s (inr known) h =
      let (valid, fit, there) = allowed-valid false fw.defaults.scope known in ground arith

  check_source-panics :
      (names : List String) (stored : List (String × String)) (i : ℕ) (s : AppSourceSpec)
      → HasKnownDefault
      → check_source fw local_or_prem_scope cr_kind names stored i s ≢ panics
  unfolding check_source refuse_if ◌and_then◌
  check_source-panics names stored i s known p =
      let volume = check_source_volume-panics s in
      let scope = check_source_scope-panics s in
      let entry = write_entry-accepts s known in ground arith

  check_sources-panics :
      (names : List String) (stored : List (String × String)) (i : ℕ) (sources : List AppSourceSpec)
      → HasKnownDefault
      → check_sources fw local_or_prem_scope cr_kind names stored i sources ≢ panics
  unfolding check_sources
  check_sources-panics names stored i [] known = λ p. cc
  check_sources-panics names stored i (s ∷ sources) known =
      let key = storage_key fw local_or_prem_scope cr_kind s in
      and_then-panics (check_source fw local_or_prem_scope cr_kind names stored i s)
        (check_sources fw local_or_prem_scope cr_kind (s.name ∷ names) (key ∷ stored) (suc i)
          sources)
        (check_source-panics names stored i s known)
        (λ ok. check_sources-panics (s.name ∷ names) (key ∷ stored) (suc i) sources known)

  check_defaults-panics : check_defaults fw local_or_prem_scope cr_kind ≢ panics
  unfolding check_defaults refuse_if ◌and_then◌
  check_defaults-panics p =
      let volume = volume_exists-panics fw.defaults.vol_name invalid_default_volume in ground arith

  -- The validation of the app sources returns, with nil or an error, if the default scope is not set
  -- or is one of the four scopes.
  pub validate_splunk_app_sources-panics :
      (fw.defaults.scope ≡ "") ⊎ IsAllowed false fw.defaults.scope
      → validate_splunk_app_sources fw local_or_prem_scope cr_kind ≢ panics
  unfolding validate_splunk_app_sources
  validate_splunk_app_sources-panics known =
      and_then-panics (check_sources fw local_or_prem_scope cr_kind [] [] 0 (sources_of fw))
        (check_defaults fw local_or_prem_scope cr_kind)
        (check_sources-panics [] [] 0 (sources_of fw) known) (λ ok. check_defaults-panics)
