-- ===== src/AppFramework/RepoCheck/Missed.antt =====
-- A listing of the remote storage that is incomplete.
use splunk_operator_mirror_d.AppFramework.Entry.{is_timer_expired}
use splunk_operator_mirror_d.AppFramework.Types.{Config}
use splunk_operator_mirror_d.AppFramework.RepoCheck.{
  get_app_list, check_app_info, take_listing_of, ends, init_context, Config, Answers, should_check,
  Bool, is_timer_expired, Tracked, not, length,
}
use splunk_operator_mirror_d.Prelude.{
  ◌≡◌, ◌<◌, ◌+◌, arith, refl, false, [], true, Bool, not, ◌==◌, length,
}

-- A check that nothing asks for.
check_app_info-rests :
    (same : Config → Config → Bool) (cfg : Config) (ans : Answers) (t : Tracked)
    → t.context.has_sources ≡ true
    → not (t.context.poll_interval == 0) ≡ true
    → is_timer_expired ans.now t.context ≡ false
    → same t.config cfg ≡ true
    → ans.own_is_on ≡ false
    → check_app_info same cfg ans t ≡ ends false t
unfolding check_app_info init_context should_check
check_app_info-rests same cfg ans t made polls due stored off =
    rw (made, polls, due, stored, off) refl

-- A check that is due and gets the listing of some source only.
check_app_info-stamps :
    (same : Config → Config → Bool) (cfg : Config) (ans : Answers) (t : Tracked)
    → t.context.has_sources ≡ true
    → t.context.in_progress ≡ false
    → not (t.context.poll_interval == 0) ≡ true
    → is_timer_expired ans.now t.context ≡ true
    → (length (get_app_list ans.list_apps cfg.app_sources []) == length cfg.app_sources) ≡ false
    → check_app_info same cfg ans t
      ≡ ends false
          (record t { context = record t.context { in_progress = true; last_check = ans.now } })
unfolding check_app_info init_context should_check take_listing_of
check_app_info-stamps same cfg ans t made idle polls due missed =
    rw (made, polls, due, idle, missed) refl

-- For a resource that is polled, has an `AppsSrcDeployStatus` and is not installing apps: a check
-- that is due and does not get the listing of every app source ends without an error and with the
-- deployment and the configuration of before. If less than a poll interval has passed since, the
-- configuration is still the stored one and the resource's own config map does not ask for a check,
-- the next check does nothing, whether or not the flag of the installation was reset.
pub check_app_info-missed :
    (same : Config → Config → Bool) (cfg : Config) (ans again : Answers) (t : Tracked) (flag : Bool)
    → t.context.has_sources ≡ true
    → t.context.in_progress ≡ false
    → not (t.context.poll_interval == 0) ≡ true
    → is_timer_expired ans.now t.context ≡ true
    → (length (get_app_list ans.list_apps cfg.app_sources []) == length cfg.app_sources) ≡ false
    → same t.config cfg ≡ true
    → again.own_is_on ≡ false
    → again.now < ans.now + t.context.poll_interval
    → let missed = check_app_info same cfg ans t in
      let next : Tracked = record {
        config = missed.tracked.config;
        context = record missed.tracked.context { in_progress = flag };
      } in
      (missed.has_failed ≡ false)
      × (missed.tracked.context.deployment ≡ t.context.deployment)
      × (missed.tracked.config ≡ t.config)
      × (check_app_info same cfg again next ≡ ends false next)
unfolding is_timer_expired
check_app_info-missed same cfg ans again t flag made idle polls due missed stored off soon =
    rw (check_app_info-stamps same cfg ans t made idle polls due missed) (
      refl,
      refl,
      refl,
      check_app_info-rests same cfg again
          (record {
            config = t.config;
            context = record t.context { in_progress = flag; last_check = ans.now };
          })
          made polls (ground (arith, soon)) stored off,
    )
