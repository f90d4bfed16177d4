-- ===== src/Validation/Volumes/Lookup.antt =====
-- What `CheckIfVolumeExists` finds.
-- A volume of this name is among the volumes.
use splunk_operator_mirror_d.Validation.Volumes.{check_if_volume_exists, VolumeSpec}
use splunk_operator_mirror_d.Prelude.{
  suc, inl, [], ◌∷◌, inr, zero, some, refl, List, String, ℕ, get_elem?, ◌≡◌, Bool-cases, str_eq,
  arith, eq_iff, Option-cases, false, str_eq-ne, ap, ◌∙◌,
}

abbrev pub Exists : List VolumeSpec → String → Type 0
Exists vols vol_name =
    (i : ℕ) × (v : VolumeSpec) × (get_elem? vols i ≡ some v) × (v.name ≡ vol_name)

pub found-Exists :
    (vols : List VolumeSpec) (vol_name : String) (i : ℕ)
    → check_if_volume_exists vols vol_name ≡ some i
    → (v : VolumeSpec) × (get_elem? vols i ≡ some v) × (v.name ≡ vol_name)
unfolding check_if_volume_exists
found-Exists [] vol_name i h = cc
found-Exists (v ∷ vs) vol_name i h = elim (Bool-cases (str_eq v.name vol_name)) [
  | inl same ↦
      let first : i ≡ 0 = ground arith in (v, rw first refl, (eq_iff v.name vol_name).0 same)
  | inr other ↦ elim (Option-cases (check_if_volume_exists vs vol_name)) [
    | inl none_left ↦ absurd (ground arith)
    | inr (j, later) ↦
        let next : i ≡ suc j = ground arith in
        let (w, at, named) = found-Exists vs vol_name j later in (w, rw next at, named)
  ]
]

pub Exists-found :
    (vols : List VolumeSpec) (vol_name : String)
    → Exists vols vol_name
    → (i : ℕ) × (check_if_volume_exists vols vol_name ≡ some i)
unfolding check_if_volume_exists
Exists-found [] vol_name (i, v, at, named) = cc
Exists-found (w ∷ vs) vol_name (i, v, at, named) = elim (Bool-cases (str_eq w.name vol_name)) [
  | inl same ↦ (0, rw same refl)
  | inr other ↦
      let (j, later) = Exists-found vs vol_name (behind other i at) in
      let step : check_if_volume_exists (w ∷ vs) vol_name ≡ some (suc j) = rw (other, later) refl in
      (suc j, step)
]
  where
    behind :
        str_eq w.name vol_name ≡ false
        → (k : ℕ) → get_elem? (w ∷ vs) k ≡ some v
        → Exists vs vol_name
    behind other zero here =
        let first : w ≡ v = cc in
        absurd (str_eq-ne w.name vol_name other (ap (λ u. u.name) first ∙ named))
    behind other (suc k) there = (k, v, there, named)
