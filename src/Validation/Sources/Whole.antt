-- ===== src/Validation/Sources/Whole.antt =====
-- `validateSplunkAppSources` as a whole: what it accepts.
use splunk_operator_mirror_d.Validation.Volumes.Lookup.{Exists}
use splunk_operator_mirror_d.Validation.Sources.Accepted.{
  IsSound, HasDefaults, IsAllowed, is_allowed, check_source_volume-HasVolume,
  check_source_scope-HasScope, allowed-valid, volume_exists-Exists,
}
use splunk_operator_mirror_d.Validation.Sources.{
  AppFrameworkSpec, AppSourceSpec, check_source, check_sources, check_defaults, storage_key,
  check_source_volume, check_source_scope, write_entry, validate_splunk_app_sources, volume_exists,
  sources_of,
}
use splunk_operator_mirror_d.Prelude.{
  false, suc, ◌∷◌, true, inl, inr, [], refl, Bool, String, List, ℕ, ◌≡◌, ◌↔◌, has_key, All, str_eq,
  Distinct, pair_eq, map, ◌⊎◌, AllNew, arith, AllNew-cons, eq_iff, pair_eq_iff, Bool-cases,
  str_eq-ne, ne-str_eq, if◌then◌else◌, AllNew-nil,
}
use splunk_operator_mirror_d.Validation.{
  accepts, refuse_if, Validity, ◌and_then◌, and_then-accepts, invalid_default_volume,
}

module _ (fw : AppFrameworkSpec) (local_or_prem_scope : Bool) (cr_kind : String) where
  abbrev check_of : List String → List (String × String) → ℕ → AppSourceSpec → Validity
  check_of = check_source fw local_or_prem_scope cr_kind

  abbrev key_of : AppSourceSpec → String × String
  key_of = storage_key fw local_or_prem_scope cr_kind

  abbrev Sound : AppSourceSpec → Type 0
  Sound = IsSound fw local_or_prem_scope cr_kind

  check_source-IsSound :
      (names : List String) (stored : List (String × String)) (i : ℕ) (s : AppSourceSpec)
      → (check_of names stored i s ≡ accepts) ↔ (
          (has_key str_eq s.name names ≡ false)
          × (has_key pair_eq (key_of s) stored ≡ false)
          × Sound s)
  unfolding check_source refuse_if ◌and_then◌
  check_source-IsSound names stored i s = (sound, complete)
    where
      sound :
          check_of names stored i s ≡ accepts
          → (has_key str_eq s.name names ≡ false)
            × (has_key pair_eq (key_of s) stored ≡ false)
            × Sound s
      sound h =
          let volume : check_source_volume fw local_or_prem_scope cr_kind s ≡ accepts =
            ground arith in
          let scope : check_source_scope fw local_or_prem_scope cr_kind s ≡ accepts =
            ground arith in
          let written : write_entry fw local_or_prem_scope cr_kind s ≡ accepts = ground arith in
          (
            ground arith,
            ground arith,
            (
              str_eq-ne s.name "" (ground arith),
              str_eq-ne s.location "" (ground arith),
              (check_source_volume-HasVolume fw local_or_prem_scope cr_kind s).0 volume,
              (check_source_scope-HasScope fw local_or_prem_scope cr_kind s).0 (scope, written),
            ),
          )

      complete :
          (has_key str_eq s.name names ≡ false)
            × (has_key pair_eq (key_of s) stored ≡ false)
            × Sound s
          → check_of names stored i s ≡ accepts
      complete (new, fresh, (name, location, volume, scope)) =
          let a = ne-str_eq s.name "" name in
          let b = ne-str_eq s.location "" location in
          let c = (check_source_volume-HasVolume fw local_or_prem_scope cr_kind s).1 volume in
          let (d, e) = (check_source_scope-HasScope fw local_or_prem_scope cr_kind s).1 scope in
          rw (new, fresh, a, b, c, d, e)

  check_sources-IsSound :
      (names : List String) (stored : List (String × String)) (i : ℕ) (sources : List AppSourceSpec)
      → (check_sources fw local_or_prem_scope cr_kind names stored i sources ≡ accepts) ↔ (
          All Sound sources
          × (Distinct (map (λ s. s.name) sources) × AllNew str_eq names (map (λ s. s.name) sources))
          × (Distinct (map key_of sources) × AllNew pair_eq stored (map key_of sources)))
  unfolding check_sources
  check_sources-IsSound names stored i [] = (λ h. (tt, (tt, tt), (tt, tt)), λ h. refl)
  check_sources-IsSound names stored i (s ∷ sources) =
      let head = check_source-IsSound names stored i s in
      let rest = check_sources-IsSound (s.name ∷ names) (key_of s ∷ stored) (suc i) sources in
      let keys = AllNew-cons str_eq eq_iff s.name names (map (λ s. s.name) sources) in
      let places = AllNew-cons pair_eq pair_eq_iff (key_of s) stored (map key_of sources) in
      let both = and_then-accepts (check_of names stored i s) (
        check_sources fw local_or_prem_scope cr_kind (s.name ∷ names) (key_of s ∷ stored) (suc i)
          sources) in
      (
        λ h.
            let (new, fresh, ok) = head.0 (both.0 h).0 in
            let (oks, (distinct, news), (apart, freshes)) = rest.0 (both.0 h).1 in
            (
              (ok, oks),
              (((keys.0 news).0, distinct), (new, (keys.0 news).1)),
              (((places.0 freshes).0, apart), (fresh, (places.0 freshes).1)),
            ),
        λ ((ok, oks), ((others, distinct), (new, news)), ((elsewhere, apart), (fresh, freshes))).
            both.1 (
              head.1 (new, fresh, ok),
              rest.1
                  (oks, (distinct, keys.1 (others, news)), (apart, places.1 (elsewhere, freshes))),
            ),
      )

  default_volume-Exists :
      ((if str_eq fw.defaults.vol_name ""
          then accepts
          else volume_exists fw local_or_prem_scope cr_kind fw.defaults.vol_name
              invalid_default_volume)
        ≡ accepts)
      ↔ ((fw.defaults.vol_name ≡ "") ⊎ Exists fw.vol_list fw.defaults.vol_name)
  default_volume-Exists = elim (Bool-cases (str_eq fw.defaults.vol_name "")) [
    | inl blank ↦ (λ h. inl ((eq_iff fw.defaults.vol_name "").0 blank), λ ok. rw blank refl)
    | inr there ↦ (
      λ h. inr (
          (volume_exists-Exists fw local_or_prem_scope cr_kind fw.defaults.vol_name
              invalid_default_volume).0
            (rw there at h)),
      λ ok. elim ok [
        | inl blank ↦ absurd (str_eq-ne fw.defaults.vol_name "" there blank)
        | inr ex ↦
            let found_there =
              (volume_exists-Exists fw local_or_prem_scope cr_kind fw.defaults.vol_name
                  invalid_default_volume).1
                ex in
            rw (there, found_there) refl
      ],
    )
  ]

  check_defaults-HasDefaults :
      (check_defaults fw local_or_prem_scope cr_kind ≡ accepts)
      ↔ HasDefaults fw local_or_prem_scope cr_kind
  unfolding check_defaults refuse_if ◌and_then◌
  check_defaults-HasDefaults = (sound, complete)
    where
      sound :
          check_defaults fw local_or_prem_scope cr_kind ≡ accepts
          → HasDefaults fw local_or_prem_scope cr_kind
      sound h =
          (scope (Bool-cases (str_eq fw.defaults.scope "")), default_volume-Exists.0 (ground arith))
        where
          scope :
              (str_eq fw.defaults.scope "" ≡ true) ⊎ (str_eq fw.defaults.scope "" ≡ false)
              → (fw.defaults.scope ≡ "") ⊎ IsAllowed local_or_prem_scope fw.defaults.scope
          scope (inl blank) = inl ((eq_iff fw.defaults.scope "").0 blank)
          scope (inr there) =
              inr (is_allowed local_or_prem_scope fw.defaults.scope (ground arith) (ground arith))

      complete :
          HasDefaults fw local_or_prem_scope cr_kind
          → check_defaults fw local_or_prem_scope cr_kind ≡ accepts
      complete (inl blank, volume) =
          let a = (eq_iff fw.defaults.scope "").1 blank in
          let b = default_volume-Exists.1 volume in ground arith
      complete (inr allowed, volume) =
          let (valid, fit, there) = allowed-valid local_or_prem_scope fw.defaults.scope allowed in
          let b = default_volume-Exists.1 volume in ground arith

  -- The app sources of a spec are accepted exactly if: every source has a name and a location; the
  -- volume that it names exists, or it names none and the default volume is set; the scope that it
  -- names is one for its kind of custom resource, with fitting inputs where its scope or the default
  -- one is that of premium apps, or it names none and the default scope is one of the four; no two
  -- sources have the same name, or the same scope with the same text of volume and location; and
  -- the default scope and the default volume, if set, are a scope for this kind and a volume that
  -- exists.
  pub validate_splunk_app_sources-IsSound :
      (validate_splunk_app_sources fw local_or_prem_scope cr_kind ≡ accepts) ↔ (
        All (IsSound fw local_or_prem_scope cr_kind) (sources_of fw)
        × Distinct (map (λ s. s.name) (sources_of fw))
        × Distinct (map (storage_key fw local_or_prem_scope cr_kind) (sources_of fw))
        × HasDefaults fw local_or_prem_scope cr_kind)
  unfolding validate_splunk_app_sources
  validate_splunk_app_sources-IsSound =
      let sources = sources_of fw in
      let loop = check_sources-IsSound [] [] 0 sources in
      let both =
        and_then-accepts (check_sources fw local_or_prem_scope cr_kind [] [] 0 sources)
          (check_defaults fw local_or_prem_scope cr_kind) in
      (
        λ h.
            let (ok, (distinct, new), (apart, fresh)) = loop.0 (both.0 h).0 in
            (ok, distinct, apart, check_defaults-HasDefaults.0 (both.0 h).1),
        λ (ok, distinct, apart, defaults). both.1 (
          loop.1 (
            ok,
            (distinct, AllNew-nil str_eq (map (λ s. s.name) sources)),
            (apart, AllNew-nil pair_eq (map key_of sources)),
          ),
          check_defaults-HasDefaults.1 defaults,
        ),
      )
