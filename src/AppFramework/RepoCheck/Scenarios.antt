-- ===== src/AppFramework/RepoCheck/Scenarios.antt =====
-- A check of the remote storage on small inputs.
use splunk_operator_mirror_d.AppFramework.Deployment.{RemoteObject}
use splunk_operator_mirror_d.AppFramework.Entry.{is_timer_expired}
use splunk_operator_mirror_d.AppFramework.Deployment.Changes.{push_uninitialized}
use splunk_operator_mirror_d.AppFramework.Types.{cluster_manager, Config}
use splunk_operator_mirror_d.AppFramework.RepoCheck.{
  check_app_info, Answers, Tracked, ends, Config, String, ℕ, is_timer_expired, get_app_list, Option,
  Bool, List, RemoteObject,
}
use splunk_operator_mirror_d.AppFramework.RepoCheck.Missed.{check_app_info-missed}
use splunk_operator_mirror_d.Prelude.{
  ◌≡◌, refl, arith, [], some, false, true, ◌∷◌, none, String, ℕ, Option, Bool, List, ◌==◌,
  if◌then◌else◌, str_eq,
}

-- a configuration with two app sources
abbrev two_sources : Config
two_sources = record {
  kind = cluster_manager;
  replicas = some 1;
  max_retries = 2;
  default_scope = "local";
  app_sources = ("apps", "local") ∷ ("more", "cluster") ∷ [];
}

abbrev polled : Tracked
polled = record {
  config = two_sources;
  context = record {
    deployment = record { sources = ("apps", []) ∷ []; bundle_stage = push_uninitialized };
    has_sources = true;
    in_progress = false;
    last_check = 100;
    poll_interval = 60;
  };
}

-- one source can be listed
abbrev list_one : String → Option (List RemoteObject)
list_one src =
    if str_eq src "apps" then some (record { key = "a/app1.tgz"; etag = "ab" } ∷ []) else none

abbrev answers_at : ℕ → Answers
answers_at now = record {
  map_made = true;
  manual_is_on = false;
  manual_count = 0;
  own_is_on = false;
  list_apps = list_one;
  now = now;
  shared_written = true;
  own_written = true;
}

abbrev same_retries : Config → Config → Bool
same_retries a b = a.max_retries == b.max_retries

check_app_info-missed_example :
    let missed = check_app_info same_retries two_sources (answers_at 160) polled in
    let next : Tracked = record {
      config = missed.tracked.config;
      context = record missed.tracked.context { in_progress = false };
    } in
    (missed.has_failed ≡ false)
    × (missed.tracked.context.deployment ≡ polled.context.deployment)
    × (missed.tracked.config ≡ two_sources)
    × (check_app_info same_retries two_sources (answers_at 219) next ≡ ends false next)
unfolding is_timer_expired get_app_list
check_app_info-missed_example =
    check_app_info-missed same_retries two_sources (answers_at 160) (answers_at 219) polled false
      refl refl refl refl refl refl refl (omega arith)
