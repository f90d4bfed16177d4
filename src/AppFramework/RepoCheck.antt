-- ===== src/AppFramework/RepoCheck.antt =====
-- `initAndCheckAppInfoStatus` of util.go: whether and how a reconcile looks at the remote storage.
-- What the API server and the storage answer is an argument.
pub mod Missed
mod Scenarios
use splunk_operator_mirror_d.Merge.Apply.{updates}
use splunk_operator_mirror_d.AppFramework.Deployment.Changes.{
  handle_changes, in_config, put, Deployment,
}
use splunk_operator_mirror_d.AppFramework.Deployment.{RemoteObject}
use splunk_operator_mirror_d.AppFramework.Entry.{Context, is_timer_expired}
use splunk_operator_mirror_d.AppFramework.Migration.{clean_digest}
use splunk_operator_mirror_d.AppFramework.Types.{Config}
use splunk_operator_mirror_d.Prelude.{
  some, none, ◌∷◌, [], true, false, String, Option, Bool, List, ℕ, if◌then◌else◌, ◌&&◌, ◌||◌, not,
  ◌==◌, length, map,
}

-- The answers in one call: whether the config map of manual updates could be made, what it says and
-- how often it is referred to, what the resource's own map says, the listing of a source, the time,
-- and whether the two maps could be written.
pub record Answers : Type 0 where
  pub map_made : Bool
  pub manual_is_on : Bool
  pub manual_count : ℕ
  pub own_is_on : Bool
  pub list_apps : String → Option (List RemoteObject)
  pub now : ℕ
  pub shared_written : Bool
  pub own_written : Bool

-- The status: `AppFrameworkConfig` and what `Context` has.
pub record Tracked : Type 0 where
  pub config : Config
  pub context : Context

-- `shared_map` with `turnOffManualChecking`
pub data MapUpdate : Type 0 where
  shared_map : Bool → MapUpdate
  own_map : MapUpdate

pub record Checked : Type 0 where
  pub tracked : Tracked
  pub updates : List MapUpdate
  pub has_failed : Bool

abbrev pub ends : Bool → Tracked → Checked
ends has_failed t = record { tracked = t; updates = []; has_failed = has_failed }

-- `initAppFrameWorkContext` on `AppsSrcDeployStatus`; the Boolean tells that there was no error
unfoldable pub init_context : Answers → Context → Context × Bool
init_context ans c =
    if c.has_sources then (c, true) else (record c { has_sources = true }, ans.map_made)

-- `shouldCheckAppRepoStatus`, with `turnOffManualChecking`
unfoldable pub should_check : Answers → Context → Bool × Bool
unfolding is_timer_expired
should_check ans c =
    if not (c.poll_interval == 0)
    then (is_timer_expired ans.now c, false)
    else if ans.manual_is_on
    then (true, ans.manual_count == 1)
    else (false, false)

-- the loop of `GetAppListFromRemoteBucket`, with the map so far
unfoldable pub get_app_list :
    (String → Option (List RemoteObject))
    → List (String × String)
    → List (String × List RemoteObject)
    → List (String × List RemoteObject)
get_app_list list_apps [] m = m
get_app_list list_apps ((src, scope) ∷ rest) m = elim (list_apps src) [
  | none ↦ get_app_list list_apps rest m
  | some os ↦ get_app_list list_apps rest (put src os m)
]

abbrev pub clean_object : RemoteObject → RemoteObject
clean_object o = record o { etag = clean_digest o.etag }

-- the digests of the listed sources that the configuration has
unfoldable pub clean_listing :
    Config → List (String × List RemoteObject) → List (String × List RemoteObject)
unfolding clean_digest
clean_listing cfg =
    map (λ (src, os). if in_config cfg src then (src, map clean_object os) else (src, os))

-- the config maps, when there is no polling
abbrev pub update_maps : Answers → Bool → Tracked → Checked
update_maps ans turns_off t =
    if not ans.shared_written
    then record { tracked = t; updates = shared_map turns_off ∷ []; has_failed = true }
    else record {
      tracked = t;
      updates = shared_map turns_off ∷ own_map ∷ [];
      has_failed = not ans.own_written;
    }

-- after the listing
abbrev pub stamp : Answers → Bool → Tracked → Checked
stamp ans turns_off t =
    let stamped = record t { context = record t.context { last_check = ans.now } } in
    if not (t.context.poll_interval == 0)
    then ends false stamped
    else update_maps ans turns_off stamped

-- the result of `handleAppRepoChanges`; without one the status is as it was when it was called
abbrev pub take_changes : Config → Answers → Bool → Tracked → Option (Deployment × Bool) → Checked
take_changes cfg ans turns_off t none = ends true t
take_changes cfg ans turns_off t (some (d, modified)) =
    stamp ans turns_off (record { config = cfg; context = record t.context { deployment = d } })

unfoldable pub take_listing_of : Config → Answers → Bool → Tracked → Checked
unfolding get_app_list clean_listing handle_changes
take_listing_of cfg ans turns_off t =
    let listing = get_app_list ans.list_apps cfg.app_sources [] in
    if not (length listing == length cfg.app_sources)
    then stamp ans turns_off t
    else take_changes cfg ans turns_off t
        (handle_changes cfg (clean_listing cfg listing) t.context.deployment)

abbrev pub after_init :
    (Config → Config → Bool) → Config → Answers → Config → Context × Bool → Checked
after_init same cfg ans stored (c, ok) =
    let (due, turns_off) = should_check ans c in
    if not ok
    then ends true (record { config = stored; context = c })
    else if not (due || (ans.own_is_on || not (same stored cfg)))
    then ends false (record { config = stored; context = c })
    else if c.in_progress
    then ends false (record { config = stored; context = c })
    else take_listing_of cfg ans turns_off
        (record { config = stored; context = record c { in_progress = true } })

-- `initAndCheckAppInfoStatus`, with `reflect.DeepEqual` on two configurations
unfoldable pub check_app_info : (Config → Config → Bool) → Config → Answers → Tracked → Checked
unfolding init_context should_check take_listing_of
check_app_info same cfg ans t = after_init same cfg ans t.config (init_context ans t.context)
