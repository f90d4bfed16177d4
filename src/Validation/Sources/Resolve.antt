-- ===== src/Validation/Sources/Resolve.antt =====
-- What the look-ups of an app source give once its spec has been accepted.
use splunk_operator_mirror_d.Validation.Sources.Whole.{validate_splunk_app_sources-IsSound}
use splunk_operator_mirror_d.Validation.Sources.Accepted.{
  HasDefaults, IsAllowed, HasScope, HasVolume, allowed-valid, IsSound,
}
use splunk_operator_mirror_d.Validation.{accepts}
use mathlib.Core.Path.{subst⁻¹}
use splunk_operator_mirror_d.Validation.Volumes.{VolumeSpec}
use splunk_operator_mirror_d.Validation.Volumes.Lookup.{Exists, Exists-found, found-Exists}
use splunk_operator_mirror_d.Validation.Sources.{
  scope_in, get_app_src_spec, get_app_src_volume, AppSourceSpec, AppFrameworkSpec, VolumeSpec,
  sources_of, get_app_src_scope, validate_splunk_app_sources, volume_of,
}
use splunk_operator_mirror_d.Prelude.{
  some, inr, inl, [], ◌∷◌, refl, String, List, if◌then◌else◌, ◌≡◌, Distinct, str_eq, Bool-cases,
  map, All, ◌≢◌, ne-str_eq, str_eq-refl, All-map, All-zip, false, Bool, eq_iff, str_eq-ne,
}

scope_or : String → AppSourceSpec → String
scope_or default_scope s = if str_eq s.own.scope "" then default_scope else s.own.scope

-- The look-up of the scope goes to the same source as that of the spec.
scope_in-get_app_src_spec :
    (default_scope app_src_name : String) (sources : List AppSourceSpec)
    → (s : AppSourceSpec) → get_app_src_spec sources app_src_name ≡ some s
    → scope_in default_scope app_src_name sources ≡ scope_or default_scope s
unfolding scope_in get_app_src_spec scope_or
scope_in-get_app_src_spec default_scope app_src_name [] s h = cc
scope_in-get_app_src_spec default_scope app_src_name (t ∷ sources) s h =
    elim (Bool-cases (str_eq t.name app_src_name)) [
      | inl same ↦
          let first : some t ≡ some s = rw same at h in
          let here : t ≡ s = cc in rw (same, here) refl
      | inr other ↦
          rw other (scope_in-get_app_src_spec default_scope app_src_name sources s (rw other at h))
    ]

-- Where no two sources have the same name, each is found by its own.
get_app_src_spec_each :
    (sources : List AppSourceSpec)
    → Distinct (map (λ s. s.name) sources)
    → All (λ s. get_app_src_spec sources s.name ≡ some s) sources
unfolding get_app_src_spec
get_app_src_spec_each [] h = tt
get_app_src_spec_each (t ∷ sources) (apart, distinct) =
    let here : get_app_src_spec (t ∷ sources) t.name ≡ some t = rw (str_eq-refl t.name) refl in
    let others = All-map (λ s. s.name) (λ name. t.name ≢ name) sources apart in
    let later = get_app_src_spec_each sources distinct in
    (here, All-zip behind sources others later)
  where
    behind :
        (s : AppSourceSpec)
        → t.name ≢ s.name
        → get_app_src_spec sources s.name ≡ some s
        → get_app_src_spec (t ∷ sources) s.name ≡ some s
    behind s other found_later = rw (ne-str_eq t.name s.name other, found_later) refl

get_app_src_volume-Exists :
    (fw : AppFrameworkSpec) (s : AppSourceSpec) (vol_name : String)
    → (if str_eq s.own.vol_name "" then fw.defaults.vol_name else s.own.vol_name) ≡ vol_name
    → Exists fw.vol_list vol_name
    → (v : VolumeSpec) × (get_app_src_volume s fw ≡ some v) × (v.name ≡ vol_name)
unfolding get_app_src_volume
get_app_src_volume-Exists fw s vol_name which ex =
    let (i, at) = Exists-found fw.vol_list vol_name ex in
    let (v, there, named) = found-Exists fw.vol_list vol_name i at in
    let result : get_app_src_volume s fw ≡ some v = rw (which, at) there in (v, result, named)

module _ (fw : AppFrameworkSpec) (local_or_prem_scope : Bool) (cr_kind : String) where
  -- The spec, the scope and the volume that the look-ups give for a source.
  abbrev pub Resolves : AppSourceSpec → Type 0
  Resolves s =
      (get_app_src_spec (sources_of fw) s.name ≡ some s)
      × IsAllowed local_or_prem_scope (get_app_src_scope fw s.name)
      × ((v : VolumeSpec) × (get_app_src_volume s fw ≡ some v)
          × (v.name ≡ volume_of fw local_or_prem_scope cr_kind s))

  scope-IsAllowed :
      (s : AppSourceSpec)
      → HasDefaults fw local_or_prem_scope cr_kind
      → HasScope fw local_or_prem_scope cr_kind s
      → IsAllowed local_or_prem_scope (scope_or fw.defaults.scope s)
  unfolding scope_or
  scope-IsAllowed s defaults (inl (blank, default)) =
      let (valid, fit, there) = allowed-valid false fw.defaults.scope default in
      rw ((eq_iff s.own.scope "").1 blank) (elim defaults.0 [
        | inl no_scope ↦ absurd (str_eq-ne fw.defaults.scope "" there no_scope)
        | inr allowed ↦ allowed
      ])
  scope-IsAllowed s defaults (inr (own, allowed, premium)) =
      rw (ne-str_eq s.own.scope "" own) allowed

  volume-Exists :
      (s : AppSourceSpec)
      → HasDefaults fw local_or_prem_scope cr_kind
      → HasVolume fw local_or_prem_scope cr_kind s
      → Exists fw.vol_list (volume_of fw local_or_prem_scope cr_kind s)
  volume-Exists s defaults (inl (blank, default)) =
      rw ((eq_iff s.own.vol_name "").1 blank)
        (elim defaults.1 [ inl no_volume ↦ absurd (default no_volume) | inr ex ↦ ex ])
  volume-Exists s defaults (inr (own, ex)) = rw (ne-str_eq s.own.vol_name "" own) ex

  -- Once the app sources of a spec have been accepted, every one of them is found by its name, the
  -- scope that is looked up for it is one that this kind of custom resource may use, and the
  -- volume that is looked up for it is found and is the one that it names, or else the default one.
  pub validate_splunk_app_sources-Resolves :
      validate_splunk_app_sources fw local_or_prem_scope cr_kind ≡ accepts
      → All Resolves (sources_of fw)
  unfolding get_app_src_scope
  validate_splunk_app_sources-Resolves h =
      let (sound, distinct, apart, defaults) =
        (validate_splunk_app_sources-IsSound fw local_or_prem_scope cr_kind).0 h in
      All-zip (each defaults) (sources_of fw) sound (get_app_src_spec_each (sources_of fw) distinct)
    where
      each :
          HasDefaults fw local_or_prem_scope cr_kind
          → (s : AppSourceSpec) → IsSound fw local_or_prem_scope cr_kind s
          → get_app_src_spec (sources_of fw) s.name ≡ some s
          → Resolves s
      each defaults s (name, location, volume, scope) by_name =
          let looked_up =
            scope_in-get_app_src_spec fw.defaults.scope s.name (sources_of fw) s by_name in
          (
            by_name,
            subst⁻¹ (IsAllowed local_or_prem_scope) looked_up (scope-IsAllowed s defaults scope),
            get_app_src_volume-Exists fw s (volume_of fw local_or_prem_scope cr_kind s) refl
                (volume-Exists s defaults volume),
          )
