-- ===== src/Upgrade/Scenarios.antt =====
-- Validations of an upgrade on small inputs.
use splunk_operator_mirror_d.Upgrade.Order.{IsUpgraded, is_manager, validate_upgrade-waits}
use splunk_operator_mirror_d.Upgrade.{
  indexer_tier, Answers, validate_upgrade, Spec, license_step, Item, license_found,
  license_image_step, manager_step, manager_found, manager_image_step, indexer_step, cluster_told,
  sites_listed, after_site,
}
use splunk_operator_mirror_d.Prelude.{[], false, true, none, ◌∷◌, refl, String, ◌≡◌, str_eq, ◌⊎◌}
use splunk_operator_mirror_d.Api.{ready, not_found, updating, found, fails, Phase, Err}

abbrev item_of : String → Phase → Item
item_of name phase = record { name = name; phase = phase; manager_ref = "cm"; console_ref = "mc" }

-- A second indexer cluster and a search head cluster are still on an old image.
abbrev answers : Answers
answers = record {
  get_license = found ready;
  license_image = found "splunk:10";
  get_manager = found ready;
  manager_image = found "splunk:10";
  get_own_set = none;
  is_multisite = found true;
  list_managers = found (item_of "cm" ready ∷ []);
  list_indexers = found (item_of "idx1" updating ∷ item_of "idx2" ready ∷ []);
  list_search_heads = found (item_of "shc" ready ∷ []);
  item_image = λ i. found "splunk:9";
}

abbrev spec_of : String → Spec
spec_of license = record { license_ref = license; manager_ref = "cm"; image = "splunk:10" }

validate_upgrade-waits_example :
    (str_eq "lm" "" ≡ false
      → (answers.get_license ≡ fails not_found)
        ⊎ (IsUpgraded "splunk:10" answers.get_license answers.license_image))
    × (is_manager indexer_tier ≡ false
        → str_eq "cm" "" ≡ false
        → ((e : Err) × (answers.get_manager ≡ fails e))
          ⊎ (IsUpgraded "splunk:10" answers.get_manager answers.manager_image))
unfolding validate_upgrade license_step license_found license_image_step manager_step manager_found
    manager_image_step indexer_step cluster_told sites_listed after_site
validate_upgrade-waits_example =
    validate_upgrade-waits answers "idx1" (spec_of "lm") (λ items. items) indexer_tier refl refl
