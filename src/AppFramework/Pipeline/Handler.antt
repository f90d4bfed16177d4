-- ===== src/AppFramework/Pipeline/Handler.antt =====
-- `installWorkerHandler` of afwscheduler.go, on one worker that it takes from its channel.
use splunk_operator_mirror_d.Prelude.{
  ◌>>=◌, inl, inr, not, arith, Option-cases, Bool-cases, none, ◌∷◌, true, some, [], refl,
}
use splunk_operator_mirror_d.AppFramework.Phases.{find_scope}
use splunk_operator_mirror_d.AppFramework.Deployment.Changes.{look}
use splunk_operator_mirror_d.AppFramework.Phases.{scope_of, may_install}
use splunk_operator_mirror_d.Prelude.{
  [], some, true, ◌∷◌, none, refl, Option, String, if◌then◌else◌, List, str_eq, ◌≡◌, ◌⊎◌,
}
use splunk_operator_mirror_d.AppFramework.Types.{Config, Worker}

-- The playbook that is started; none for a scope that has no install workers.
pub data Playbook : Type 0 where
  local_playbook premium_playbook : Playbook

-- `appSrcScope` of the handler; none is a nil pointer: the app source is not in the configuration
unfoldable pub handler_scope : Config → Worker → Option String
handler_scope cfg w = do
  scope ← look w.app_src cfg.app_sources
  some (if not (str_eq scope "") then scope else cfg.default_scope)

-- `getInsallWorkerPlaybookContext`
unfoldable pub playbook_of : String → Option Playbook
playbook_of scope =
    if str_eq scope "local"
    then some local_playbook
    else if str_eq scope "premiumApps"
    then some premium_playbook
    else none

-- Without a playbook the slot of the worker's pod is given back, and the worker stays active.
unfoldable pub handle_install : Config → Worker → Option (Option Playbook)
unfolding handler_scope playbook_of
handle_install cfg w = do scope ← handler_scope cfg w; some (playbook_of scope)

find_scope-look :
    (default name : String) (sources : List (String × String))
    → find_scope default name sources
      ≡ (elim (look name sources) as (λ (o : Option String). String) [
        | none ↦ default
        | some scope ↦ if not (str_eq scope "") then scope else default
      ])
find_scope-look default name [] = refl
find_scope-look default name ((n, scope) ∷ rest) = ground (arith, find_scope-look default name rest)

-- A worker that the install manager may hand over, by the scope of its source, is started with one
-- of the two playbooks if its source is in the configuration. If the source is not, the handler
-- dereferences a nil pointer, and this is so whenever the default scope is one for install workers.
pub handle_install-started :
    (cfg : Config) (w : Worker)
    → may_install (scope_of cfg w.app_src) ≡ true
    → ((book : Playbook) × (scope : String) × (look w.app_src cfg.app_sources ≡ some scope)
        × (handle_install cfg w ≡ some (some book)))
      ⊎ ((look w.app_src cfg.app_sources ≡ none)
          × (may_install cfg.default_scope ≡ true)
          × (handle_install cfg w ≡ none))
unfolding handle_install scope_of may_install
handle_install-started cfg w h =
    let found = find_scope-look cfg.default_scope w.app_src cfg.app_sources in
    elim (Option-cases (look w.app_src cfg.app_sources)) [
      | inl e ↦ inr (e, ground (arith, found), ground arith)
      | inr (scope, e) ↦
          elim (Bool-cases
            (str_eq (if not (str_eq scope "") then scope else cfg.default_scope) "local")) [
              | inl l ↦ inl (local_playbook, scope, e, ground arith)
              | inr l ↦ inl (premium_playbook, scope, e, ground (arith, found))
            ]
    ]
