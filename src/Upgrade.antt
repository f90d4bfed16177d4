-- ===== src/Upgrade.antt =====
-- `UpgradePathValidation` of pkg/splunk/enterprise/upgrade.go: whether a custom resource may be
-- upgraded now, or waits for those that come before it. The API server and Splunk are outside the
-- repository: `Answers` holds what they say during one validation.
pub mod Order
pub mod Console
mod Scenarios
use splunk_operator_mirror_d.Prelude.{
  some, none, ◌∷◌, false, [], true, String, Option, Bool, List, if◌then◌else◌, str_eq, ◌&&◌, not,
  ◌||◌,
}
use splunk_operator_mirror_d.Api.{ready, failed, found, fails, not_found, Fetched, Err, Phase}

-- `Kind` of the custom resource that is validated
pub data Tier : Type 0 where
  standalone_tier license_tier manager_tier indexer_tier search_head_tier console_tier : Tier
  other_tier : String → Tier

-- The fields of `CommonSplunkSpec` that are read: two references and the image.
pub record Spec : Type 0 where
  pub license_ref : String
  pub manager_ref : String
  pub image : String

-- A custom resource of a list. The console's name stands in `MonitoringConsoleRef.Name`.
pub record Item : Type 0 where
  pub name : String
  pub phase : Phase
  pub manager_ref : String
  pub console_ref : String

-- An image is looked up for one custom resource.
pub record Answers : Type 0 where
  pub get_license : Fetched Phase
  pub license_image : Fetched String
  pub get_manager : Fetched Phase
  pub manager_image : Fetched String
  pub get_own_set : Option Err
  pub is_multisite : Fetched Bool
  pub list_managers : Fetched (List Item)
  pub list_indexers : Fetched (List Item)
  pub list_search_heads : Fetched (List Item)
  pub item_image : Item → Fetched String

-- What is returned: true, false without an error, or false with an error. An error that the code
-- writes itself has the name of what is not ready as its text.
pub data Verdict : Type 0 where
  goes waits : Verdict
  refuses : Err → Verdict

abbrev pub is_ready : Phase → Bool
is_ready ready = true
is_ready _ = false

-- `err.Error() == "NotFound"`
abbrev pub says_not_found : Err → Bool
says_not_found not_found = false
says_not_found (failed t) = str_eq t "NotFound"

-- whether an image is the wanted one; one that cannot be read is the empty text
abbrev pub has_image : String → Fetched String → Bool
has_image image (fails e) = str_eq "" image
has_image image (found i) = str_eq i image

module _ (w : Answers) (name : String) (spec : Spec) where
  -- one of the four loops of the console's step
  unfoldable pub check_items : (Item → Bool) → List Item → Verdict → Verdict
  check_items concerns [] next = next
  check_items concerns (i ∷ is) next =
      if concerns i && not (is_ready i.phase)
      then refuses (failed i.name)
      else check_items concerns is next

  -- a list that is not there is empty
  unfoldable pub check_list : (Item → Bool) → Fetched (List Item) → Verdict → Verdict
  unfolding check_items
  check_list concerns (fails e) next = if says_not_found e then next else refuses e
  check_list concerns (found is) next = check_items concerns is next

  abbrev pub refers : Item → Bool
  refers i = str_eq i.console_ref name

  abbrev pub is_named : Item → Bool
  is_named i = str_eq i.name name

  -- The step of the monitoring console. The list of the standalones is read into a list of indexer
  -- clusters, so that it is the list of the indexer clusters once more.
  unfoldable pub console_step : Tier → Verdict
  unfolding check_list
  console_step console_tier = check_list refers w.list_managers (
      check_list refers w.list_search_heads
        (check_list is_named w.list_indexers (check_list is_named w.list_indexers goes)))
  console_step _ = goes

  -- the step of a custom resource with a StatefulSet of its own
  abbrev pub own_set_step : Option Err → Verdict
  own_set_step none = goes
  own_set_step (some not_found) = goes
  own_set_step (some (failed t)) = waits

  -- the first search head cluster with the same cluster manager
  abbrev pub first_of_manager : List Item → Option Item
  first_of_manager [] = none
  first_of_manager (i ∷ is) =
      if str_eq i.manager_ref spec.manager_ref then some i else first_of_manager is

  unfoldable pub image_step : Item → Verdict → Fetched String → Verdict
  image_step i next (fails e) = refuses e
  image_step i next (found image) =
      if not (is_ready i.phase) || not (str_eq image spec.image) then waits else next

  unfoldable pub search_head_found : Verdict → Option Item → Verdict
  unfolding image_step
  search_head_found next none = next
  search_head_found next (some i) =
      if str_eq i.name "" then next else image_step i next (w.item_image i)

  unfoldable pub search_heads_listed : Verdict → Fetched (List Item) → Verdict
  unfolding search_head_found
  search_heads_listed next (fails e) = if says_not_found e then next else refuses e
  search_heads_listed next (found is) = search_head_found next (first_of_manager is)

  unfoldable pub search_head_step : Tier → Verdict
  unfolding console_step search_heads_listed
  search_head_step search_head_tier = own_set_step w.get_own_set
  search_head_step tier = search_heads_listed (console_step tier) w.list_search_heads

  -- `&v == cr`: the address of the loop's own copy is never that of the custom resource
  abbrev pub is_same_object : Item → Bool
  is_same_object i = false

  -- the item before the custom resource's own, in a list that is sorted by the site
  abbrev pub previous_site : Option Item → List Item → Option Item
  previous_site before [] = none
  previous_site before (i ∷ is) = if is_same_object i then before else previous_site (some i) is

  unfoldable pub after_site : Option Item → Verdict
  after_site none = goes
  after_site (some i) =
      if str_eq i.name ""
      then goes
      else if not (is_ready i.phase) || not (has_image spec.image (w.item_image i))
      then waits
      else goes

  -- `sort` is `getIndexerClusterSortedSiteList`
  unfoldable pub sites_listed : (List Item → List Item) → Fetched (List Item) → Verdict
  unfolding after_site
  sites_listed sort (fails e) = refuses e
  sites_listed sort (found is) = after_site (previous_site none (sort is))

  unfoldable pub cluster_told : (List Item → List Item) → Fetched Bool → Verdict
  unfolding sites_listed
  cluster_told sort (fails e) = refuses (failed "could not get cluster info from cluster manager")
  cluster_told sort (found multi) = if multi then sites_listed sort w.list_indexers else goes

  unfoldable pub indexer_step : (List Item → List Item) → Tier → Verdict
  unfolding cluster_told search_head_step
  indexer_step sort indexer_tier = cluster_told sort w.is_multisite
  indexer_step sort tier = search_head_step tier

  -- after the cluster manager's image is read
  unfoldable pub manager_image_step : Phase → Verdict → Fetched String → Verdict
  manager_image_step phase next (fails e) = refuses e
  manager_image_step phase next (found image) =
      if not (is_ready phase)
      then refuses (failed spec.manager_ref)
      else if not (str_eq image spec.image)
      then refuses (failed spec.manager_ref)
      else next

  -- a cluster manager that cannot be read is passed over
  unfoldable pub manager_found : Verdict → Verdict → Fetched Phase → Verdict
  unfolding manager_image_step
  manager_found next skip (fails e) = skip
  manager_found next skip (found phase) = manager_image_step phase next w.manager_image

  unfoldable pub manager_step : (List Item → List Item) → Tier → Verdict
  unfolding manager_found indexer_step search_head_step
  manager_step sort manager_tier =
      if str_eq spec.license_ref "" then goes else own_set_step w.get_own_set
  manager_step sort tier =
      if str_eq spec.manager_ref ""
      then search_head_step tier
      else manager_found (indexer_step sort tier) (search_head_step tier) w.get_manager

  unfoldable pub license_image_step : Phase → Verdict → Fetched String → Verdict
  license_image_step phase next (fails e) = refuses e
  license_image_step phase next (found image) =
      if not (is_ready phase) || not (str_eq image spec.image)
      then refuses (failed spec.license_ref)
      else next

  unfoldable pub license_found : Verdict → Fetched Phase → Verdict
  unfolding license_image_step
  license_found next (fails not_found) = next
  license_found next (fails (failed t)) = refuses (failed t)
  license_found next (found phase) = license_image_step phase next w.license_image

  unfoldable pub license_step : (List Item → List Item) → Tier → Verdict
  unfolding license_found manager_step
  license_step sort license_tier = goes
  license_step sort tier =
      if str_eq spec.license_ref ""
      then manager_step sort tier
      else license_found (manager_step sort tier) w.get_license

  unfoldable pub validate_upgrade : (List Item → List Item) → Tier → Verdict
  unfolding license_step
  validate_upgrade sort standalone_tier = goes
  validate_upgrade sort tier = license_step sort tier
