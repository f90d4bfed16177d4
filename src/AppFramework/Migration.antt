-- ===== src/AppFramework/Migration.antt =====
-- The migration of an older deployment status in util.go. Go's `AfwPhase3` is the latest version.
pub mod Resumed
use splunk_operator_mirror_d.Prelude.{◌>>=◌}
use Prim.Native.Char.{code}
use splunk_operator_mirror_d.AppFramework.Types.{
  deploy_complete, install, active, download, RepoState, DeployStatus, PhaseInfo, AppDeploymentInfo,
}
use splunk_operator_mirror_d.Prelude.{
  some, zero, none, false, ◌∷◌, [], suc, true, ℕ, List, Bool, leb, if◌then◌else◌, String, ltb,
  Option, ◌&&◌, not, map, ◌||◌, replicate, ◌==◌,
}
use splunk_operator_mirror_d.AppFramework.Status

abbrev pub latest_version : ℕ
latest_version = 1

-- the characters that `[^A-Fa-f0-9...-]+` leaves: hexadecimal digits, "." and "-"
unfoldable pub is_digest_code : ℕ → Bool
is_digest_code c =
    leb 65 c && leb c 70
    || (leb 97 c && leb c 102 || (leb 48 c && leb c 57 || (c == 46 || c == 45)))

-- `getCleanObjectDigest`
unfoldable pub clean_digest : String → String
unfolding is_digest_code
clean_digest String.[] = ""
clean_digest (String.◌∷◌ c s) =
    let rest = clean_digest s in if is_digest_code (code c) then String.◌∷◌ c rest else rest

abbrev pub is_active_state : RepoState → Bool
is_active_state active = true
is_active_state _ = false

abbrev pub is_deployed : DeployStatus → Bool
is_deployed deploy_complete = true
is_deployed _ = false

abbrev pub installed_info : PhaseInfo → PhaseInfo
installed_info i = record i { phase = install; status = Status.install_complete }

-- an app that was deployed; without a stateful set, its replicas are read through a nil pointer
abbrev pub migrate_deployed : Option ℕ → AppDeploymentInfo → Option AppDeploymentInfo
migrate_deployed none a = none
migrate_deployed (some n) a = some (record a {
  phase_info = installed_info a.phase_info;
  aux_phase_info = if ltb 1 n then replicate n (installed_info a.phase_info) else a.aux_phase_info;
})

-- one round of the inner loop of `migrateAfwFromPhase2ToPhase3`
unfoldable pub migrate_app : Option ℕ → AppDeploymentInfo → Option AppDeploymentInfo
unfolding clean_digest
migrate_app replicas a =
    let cleaned = record a { object_hash = clean_digest a.object_hash } in
    if not (is_active_state a.repo_state)
    then some cleaned
    else if is_deployed a.deploy_status
    then migrate_deployed replicas cleaned
    else some (record cleaned {
      phase_info = record a.phase_info { phase = download; status = Status.download_pending };
    })

unfoldable pub migrate_apps : Option ℕ → List AppDeploymentInfo → Option (List AppDeploymentInfo)
unfolding migrate_app
migrate_apps replicas [] = some []
migrate_apps replicas (a ∷ rest) = do
  a' ← migrate_app replicas a
  rest' ← migrate_apps replicas rest
  some (a' ∷ rest')

-- `migrateAfwFromPhase2ToPhase3`; `none` is a panic
unfoldable pub migrate_sources :
    Option ℕ
    → List (String × List AppDeploymentInfo)
    → Option (List (String × List AppDeploymentInfo))
unfolding migrate_apps
migrate_sources replicas [] = some []
migrate_sources replicas ((src, apps) ∷ rest) = do
  apps' ← migrate_apps replicas apps
  rest' ← migrate_sources replicas rest
  some ((src, apps') ∷ rest')

-- The part of `AppDeploymentContext` that is migrated.
pub record Versioned : Type 0 where
  pub version : ℕ
  pub sources : List (String × List AppDeploymentInfo)

abbrev has_no_source : List (String × List AppDeploymentInfo) → Bool
has_no_source [] = true
has_no_source (s ∷ rest) = false

-- `isAppFrameworkMigrationNeeded`
unfoldable pub needs_migration : Versioned → Bool
needs_migration c = ltb c.version latest_version && not (has_no_source c.sources)

-- the loop of `migrateAfwStatus`: one version at a time; none also when the fuel runs out
unfoldable pub migrate_versions : Option ℕ → ℕ → Versioned → Option Versioned
unfolding migrate_sources
migrate_versions replicas zero c = none
migrate_versions replicas (suc fuel) c =
    let rest =
      (migrate_sources replicas c.sources >>= (λ sources.
        migrate_versions replicas fuel (record { version = latest_version; sources = sources }))) in
    if ltb c.version latest_version then rest else some c

-- `checkAndMigrateAppDeployStatus`, with whether the specification is valid and whether the status
-- is written; the Boolean tells that there was no error
unfoldable pub check_and_migrate :
    Option ℕ → ℕ → Bool → Bool → Versioned → Option (Versioned × Bool)
unfolding needs_migration migrate_versions
check_and_migrate replicas fuel is_valid is_written c =
    if not (needs_migration c)
    then some (c, true)
    else if not is_valid
    then some (c, false)
    else (migrate_versions replicas fuel c >>= (λ migrated. some (migrated, is_written)))
