-- ===== src/Upgrade/Order.antt =====
-- Which custom resources an upgrade waits for.
use mathlib.Core.Path.{subst}
use mathlib.Core.Bool.{false≢true}
use splunk_operator_mirror_d.Upgrade.{
  goes, manager_tier, standalone_tier, license_tier, Tier, Answers, is_ready, Spec, Item,
  license_image_step, license_found, manager_image_step, manager_found, manager_step, Verdict,
  indexer_step, search_head_step, indexer_tier, license_step, validate_upgrade, previous_site,
  sites_listed, after_site, cluster_told,
}
use splunk_operator_mirror_d.Prelude.{
  inr, false, true, inl, refl, String, Bool, ◌≡◌, List, arith, str_eq, ap, ◌⊎◌, eq_iff, some, ◌∷◌,
  none, [], Option, Bool-cases, sym, ◌∙◌, if◌then◌else◌,
}
use splunk_operator_mirror_d.Api.{ready, fails, found, failed, not_found, Phase, Fetched, Err}

-- Those that pass the validation without waiting for anything.
abbrev pub is_first : Tier → Bool
is_first standalone_tier = true
is_first license_tier = true
is_first _ = false

abbrev pub is_manager : Tier → Bool
is_manager manager_tier = true
is_manager _ = false

is_ready-ready : (p : Phase) → is_ready p ≡ true → p ≡ ready
is_ready-ready ready h = refl
is_ready-ready p h = ground arith

-- A custom resource that is read is ready and runs the image.
abbrev pub IsUpgraded : String → Fetched Phase → Fetched String → Type 0
IsUpgraded image phase own = (phase ≡ found ready) × (own ≡ found image)

module _ (w : Answers) (name : String) (spec : Spec) (sort : List Item → List Item) where
  license_image_step-goes :
      (phase : Phase) (next : Verdict) (o : Fetched String)
      → license_image_step w name spec phase next o ≡ goes
      → (IsUpgraded spec.image (found phase) o) × (next ≡ goes)
  unfolding license_image_step
  license_image_step-goes phase next (fails e) h = ground arith
  license_image_step-goes phase next (found image) h =
      let fit : is_ready phase ≡ true = ground arith in
      let same : str_eq image spec.image ≡ true = ground arith in
      (
        (ap found (is_ready-ready phase fit), ap found ((eq_iff image spec.image).0 same)),
        ground arith,
      )

  license_found-goes :
      (next : Verdict) (o : Fetched Phase)
      → license_found w name spec next o ≡ goes
      → ((o ≡ fails not_found) ⊎ (IsUpgraded spec.image o w.license_image)) × (next ≡ goes)
  unfolding license_found
  license_found-goes next (fails not_found) h = (inl refl, h)
  license_found-goes next (fails (failed t)) h = ground arith
  license_found-goes next (found phase) h =
      let (fit, rest) = license_image_step-goes phase next w.license_image h in (inr fit, rest)

  manager_image_step-goes :
      (phase : Phase) (next : Verdict) (o : Fetched String)
      → manager_image_step w name spec phase next o ≡ goes
      → IsUpgraded spec.image (found phase) o
  unfolding manager_image_step
  manager_image_step-goes phase next (fails e) h = ground arith
  manager_image_step-goes phase next (found image) h =
      let fit : is_ready phase ≡ true = ground arith in
      let same : str_eq image spec.image ≡ true = ground arith in
      (ap found (is_ready-ready phase fit), ap found ((eq_iff image spec.image).0 same))

  manager_found-goes :
      (next skip : Verdict) (o : Fetched Phase)
      → manager_found w name spec next skip o ≡ goes
      → ((e : Err) × (o ≡ fails e)) ⊎ (IsUpgraded spec.image o w.manager_image)
  unfolding manager_found
  manager_found-goes next skip (fails e) h = inl (e, refl)
  manager_found-goes next skip (found phase) h =
      inr (manager_image_step-goes phase next w.manager_image h)

  manager_step-goes :
      (tier : Tier)
      → is_manager tier ≡ false
      → str_eq spec.manager_ref "" ≡ false
      → manager_step w name spec sort tier ≡ goes
      → ((e : Err) × (w.get_manager ≡ fails e))
        ⊎ (IsUpgraded spec.image w.get_manager w.manager_image)
  unfolding manager_step
  manager_step-goes manager_tier m r h = cc
  manager_step-goes tier m r h =
      manager_found-goes (indexer_step w name spec sort tier) (search_head_step w name spec tier)
        w.get_manager (simp r at h)

  pub license_step-goes :
      (tier : Tier)
      → is_first tier ≡ false
      → license_step w name spec sort tier ≡ goes
      → (str_eq spec.license_ref "" ≡ false
          → (w.get_license ≡ fails not_found)
            ⊎ (IsUpgraded spec.image w.get_license w.license_image))
        × (manager_step w name spec sort tier ≡ goes)
  unfolding license_step
  license_step-goes license_tier f h = cc
  license_step-goes tier f h =
      let after = manager_step w name spec sort tier in
      elim (Bool-cases (str_eq spec.license_ref "")) [
        | inl no_ref ↦ (
          λ e. absurd (false≢true (sym e ∙ no_ref)),
          subst (λ b. (if b then after else license_found w name spec after w.get_license) ≡ goes)
              no_ref h,
        )
        | inr ref ↦
            let (license, rest) = license_found-goes after w.get_license (
              subst
                (λ b. (if b then after else license_found w name spec after w.get_license) ≡ goes)
                ref h) in
            (λ e. license, rest)
      ]

  -- A custom resource other than a standalone or a license manager is upgraded only after those it
  -- refers to: its license manager is ready and runs the image, or is not found; and, if it is not a
  -- cluster manager itself, its cluster manager is ready and runs the image, or cannot be read.
  pub validate_upgrade-waits :
      (tier : Tier)
      → is_first tier ≡ false
      → validate_upgrade w name spec sort tier ≡ goes
      → (str_eq spec.license_ref "" ≡ false
          → (w.get_license ≡ fails not_found)
            ⊎ (IsUpgraded spec.image w.get_license w.license_image))
        × (is_manager tier ≡ false
            → str_eq spec.manager_ref "" ≡ false
            → ((e : Err) × (w.get_manager ≡ fails e))
              ⊎ (IsUpgraded spec.image w.get_manager w.manager_image))
  unfolding validate_upgrade
  validate_upgrade-waits standalone_tier f h = cc
  validate_upgrade-waits tier f h =
      let (license, rest) = license_step-goes tier f h in
      (license, λ m r. manager_step-goes tier m r rest)

  previous_site-none :
      (before : Option Item) (items : List Item) → previous_site w name spec before items ≡ none
  previous_site-none before [] = refl
  previous_site-none before (i ∷ items) = previous_site-none (some i) items

  indexer_step-goes :
      (multi : Bool) (items : List Item)
      → w.is_multisite ≡ found multi
      → w.list_indexers ≡ found items
      → indexer_step w name spec sort indexer_tier ≡ goes
  unfolding indexer_step cluster_told sites_listed after_site
  indexer_step-goes multi items s t =
      let first = previous_site-none none (sort items) in
      let one : sites_listed w name spec sort (found items) ≡ goes = rw first refl in
      elim (Bool-cases multi) [
        | inl yes_multi ↦ rw (s, yes_multi, t) one
        | inr one_site ↦ rw (s, one_site) refl
      ]

  -- An indexer cluster without a license manager whose cluster manager is ready and runs the image
  -- may be upgraded as soon as the cluster's info and, for a multisite cluster, the list of the
  -- indexer clusters can be read: neither another site nor a search head cluster is waited for,
  -- whatever their phases and images are.
  pub validate_upgrade-indexer :
      (multi : Bool) (items : List Item)
      → str_eq spec.license_ref "" ≡ true
      → str_eq spec.manager_ref "" ≡ false
      → w.get_manager ≡ found ready
      → w.manager_image ≡ found spec.image
      → w.is_multisite ≡ found multi
      → w.list_indexers ≡ found items
      → validate_upgrade w name spec sort indexer_tier ≡ goes
  unfolding validate_upgrade license_step manager_step manager_found manager_image_step
  validate_upgrade-indexer multi items l m g i s t =
      let same : str_eq spec.image spec.image ≡ true = (eq_iff spec.image spec.image).1 refl in
      let passes = indexer_step-goes multi items s t in simp (l, m, g, i, same, passes) refl
