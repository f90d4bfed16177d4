-- ===== src/Validation/Smartstore/Indexes.antt =====
-- Which SmartStore specs pass the validation.
-- An index has a name and a volume: one that exists, or the default one.
use splunk_operator_mirror_d.Validation.Volumes.Accepted.{
  IsComplete, validate_remote_volume_spec-IsComplete,
}
use splunk_operator_mirror_d.Validation.Volumes.Lookup.{Exists, Exists-found, found-Exists}
use splunk_operator_mirror_d.Validation.Volumes.{
  VolumeSpec, check_if_volume_exists, validate_remote_volume_spec,
}
use splunk_operator_mirror_d.Validation.Smartstore.{
  validate_splunk_smartstore_spec, SmartStoreSpec, VolumeSpec, is_smartstore_configured, IndexSpec,
  known_volume, check_index, validate_splunk_indexes_spec, Exists, entries, check_if_volume_exists,
  validate_remote_volume_spec, Exists-found, found-Exists,
}
use splunk_operator_mirror_d.Validation.{
  invalid_index, volumes_missing, accepts, invalid_default_volume, Reason, refuse_if, ◌and_then◌,
  refuse_if-accepts, and_then-accepts,
}
use splunk_operator_mirror_d.Prelude.{
  [], ◌∷◌, some, false, inl, suc, inr, true, refl, List, String, ◌≡◌, ◌≢◌, ℕ, length, ◌⊎◌, ◌↔◌,
  ◌==◌, All, Bool-cases, has_key, Distinct, arith, ltb, str_eq, map, ◌&&◌, eq_iff, str_eq-ne,
  AllNew, Option-cases, ne-str_eq, AllNew-cons, AllNew-nil,
}

abbrev pub HasVolume : List VolumeSpec → String → IndexSpec → Type 0
HasVolume vols default_vol_name x =
    (x.name ≢ "")
    × (((x.vol_name ≡ "") × (default_vol_name ≢ "")) ⊎ ((x.vol_name ≢ "") × Exists vols x.vol_name))

module _ (vols : List VolumeSpec) (default_vol_name : String) where
  known_volume-Exists :
      (wrapped : Reason → Reason) (vol_name : String)
      → (known_volume vols default_vol_name wrapped vol_name ≡ accepts)
        ↔ ((vol_name ≡ "") ⊎ Exists vols vol_name)
  unfolding known_volume
  known_volume-Exists wrapped vol_name = elim (Bool-cases (str_eq vol_name "")) [
    | inl blank ↦ (λ h. inl ((eq_iff vol_name "").0 blank), λ ok. rw blank refl)
    | inr there ↦ elim (Option-cases (check_if_volume_exists vols vol_name)) [
      | inl nowhere ↦ (
        λ h. absurd (ground arith),
        λ ok. elim ok [
          | inl blank ↦ absurd (str_eq-ne vol_name "" there blank)
          | inr ex ↦ let (i, at) = Exists-found vols vol_name ex in absurd (ground arith)
        ],
      )
      | inr (i, at) ↦ (
        λ h. let (v, here, named) = found-Exists vols vol_name i at in inr (i, v, here, named),
        λ ok. rw (there, at) refl,
      )
    ]
  ]

  check_index-HasVolume :
      (seen : List String) (i : ℕ) (x : IndexSpec)
      → (check_index vols default_vol_name seen i x ≡ accepts)
        ↔ ((has_key str_eq x.name seen ≡ false) × HasVolume vols default_vol_name x)
  unfolding check_index refuse_if ◌and_then◌
  check_index-HasVolume seen i x = (sound, complete)
    where
      sound :
          check_index vols default_vol_name seen i x ≡ accepts
          → (has_key str_eq x.name seen ≡ false) × HasVolume vols default_vol_name x
      sound h = (
        ground arith,
        (
          str_eq-ne x.name "" (ground arith),
          elim (Bool-cases (str_eq x.vol_name "")) [
            | inl blank ↦
                inl ((eq_iff x.vol_name "").0 blank, str_eq-ne default_vol_name "" (ground arith))
            | inr own ↦ inr (
              str_eq-ne x.vol_name "" own,
              elim ((known_volume-Exists (invalid_index x.name) x.vol_name).0 (ground arith)) [
                | inl blank ↦ absurd (str_eq-ne x.vol_name "" own blank)
                | inr ex ↦ ex
              ],
            )
          ],
        ),
      )

      complete :
          (has_key str_eq x.name seen ≡ false) × HasVolume vols default_vol_name x
          → check_index vols default_vol_name seen i x ≡ accepts
      complete (new, (name, inl (blank, default))) =
          let a = ne-str_eq x.name "" name in
          let b = ne-str_eq default_vol_name "" default in
          let c = (known_volume-Exists (invalid_index x.name) x.vol_name).1 (inl blank) in
          ground arith
      complete (new, (name, inr (own, ex))) =
          let a = ne-str_eq x.name "" name in
          let b = ne-str_eq x.vol_name "" own in
          let c = (known_volume-Exists (invalid_index x.name) x.vol_name).1 (inr ex) in ground arith

  validate_splunk_indexes_spec-HasVolume :
      (seen : List String) (i : ℕ) (xs : List IndexSpec)
      → (validate_splunk_indexes_spec vols default_vol_name seen i xs ≡ accepts) ↔ (
          All (HasVolume vols default_vol_name) xs
          × Distinct (map (λ x. x.name) xs)
          × AllNew str_eq seen (map (λ x. x.name) xs))
  unfolding validate_splunk_indexes_spec
  validate_splunk_indexes_spec-HasVolume seen i [] = (λ h. (tt, tt, tt), λ h. refl)
  validate_splunk_indexes_spec-HasVolume seen i (x ∷ xs) =
      let head = check_index-HasVolume seen i x in
      let rest = validate_splunk_indexes_spec-HasVolume (x.name ∷ seen) (suc i) xs in
      let keys = AllNew-cons str_eq eq_iff x.name seen (map (λ y. y.name) xs) in
      let both =
        and_then-accepts (check_index vols default_vol_name seen i x)
          (validate_splunk_indexes_spec vols default_vol_name (x.name ∷ seen) (suc i) xs) in
      (
        λ h.
            let (new, ok) = head.0 (both.0 h).0 in
            let (oks, distinct, news) = rest.0 (both.0 h).1 in
            ((ok, oks), ((keys.0 news).0, distinct), (new, (keys.0 news).1)),
        λ ((ok, oks), (apart, distinct), (new, news)).
            both.1 (head.1 (new, ok), rest.1 (oks, distinct, keys.1 (apart, news))),
      )

Exists-nonempty :
    (vols : List VolumeSpec) (vol_name : String) → Exists vols vol_name → (length vols == 0) ≡ false
Exists-nonempty [] vol_name (i, v, at, named) = cc
Exists-nonempty (w ∷ vols) vol_name ex = ground arith

-- The volumes are given where there are indexes.
volumes_given :
    (vols : List VolumeSpec) (default_vol_name : String) (xs : List IndexSpec)
    → (default_vol_name ≡ "") ⊎ Exists vols default_vol_name
    → All (HasVolume vols default_vol_name) xs
    → (ltb 0 (length xs) && (length vols == 0)) ≡ false
volumes_given vols default_vol_name [] default ok = refl
volumes_given vols default_vol_name (x ∷ xs) default ((name, inr (own, ex)), ok) =
    let there = Exists-nonempty vols x.vol_name ex in ground arith
volumes_given vols default_vol_name (x ∷ xs) (inl blank) ((name, inl (unnamed, fallback)), ok) =
    absurd (fallback blank)
volumes_given vols default_vol_name (x ∷ xs) (inr ex) ((name, inl (unnamed, fallback)), ok) =
    let there = Exists-nonempty vols default_vol_name ex in ground arith

-- A SmartStore spec that configures anything is accepted exactly if its volumes have distinct
-- names, endpoints and paths, the default volume exists if it is set, and its indexes have distinct
-- names and each a volume that exists, or none of its own while the default one is set.
pub validate_splunk_smartstore_spec-HasVolume :
    (s : SmartStoreSpec)
    → is_smartstore_configured (some s) ≡ true
    → let vols = entries s.vol_list in
      (validate_splunk_smartstore_spec (some s) ≡ accepts) ↔ (
        (All (IsComplete false) vols × Distinct (map (λ v. v.name) vols))
        × ((s.default_vol_name ≡ "") ⊎ Exists vols s.default_vol_name)
        × All (HasVolume vols s.default_vol_name) (entries s.index_list)
        × Distinct (map (λ x. x.name) (entries s.index_list)))
unfolding validate_splunk_smartstore_spec
validate_splunk_smartstore_spec-HasVolume s configured =
    let vols = entries s.vol_list in
    let xs = entries s.index_list in
    let name = s.default_vol_name in
    let guard =
      refuse_if-accepts (ltb 0 (length xs) && (length vols == 0))
        (volumes_missing (length xs) (length vols)) in
    let first =
      and_then-accepts
        (refuse_if (ltb 0 (length xs) && (length vols == 0))
          (volumes_missing (length xs) (length vols)))
        (validate_remote_volume_spec vols false
          and_then known_volume vols name invalid_default_volume name
          and_then validate_splunk_indexes_spec vols name [] 0 xs) in
    let second = and_then-accepts (validate_remote_volume_spec vols false) (
      known_volume vols name invalid_default_volume name
      and_then validate_splunk_indexes_spec vols name [] 0 xs) in
    let third =
      and_then-accepts (known_volume vols name invalid_default_volume name)
        (validate_splunk_indexes_spec vols name [] 0 xs) in
    let volumes = validate_remote_volume_spec-IsComplete vols false in
    let default = known_volume-Exists vols name invalid_default_volume name in
    let indexes = validate_splunk_indexes_spec-HasVolume vols name [] 0 xs in
    rw configured (
      λ h.
          let (b, next) = second.0 (first.0 h).1 in
          let (c, d) = third.0 next in
          let (ok, distinct, new) = indexes.0 d in (volumes.0 b, default.0 c, ok, distinct),
      λ (b, c, ok, distinct). first.1 (
        guard.1 (volumes_given vols name xs c ok),
        second.1 (
          volumes.1 b,
          third.1 (default.1 c, indexes.1 (ok, distinct, AllNew-nil str_eq (map (λ x. x.name) xs))),
        ),
      ),
    )
