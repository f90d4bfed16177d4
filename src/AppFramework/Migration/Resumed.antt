-- ===== src/AppFramework/Migration/Resumed.antt =====
-- What the scheduler makes of a migrated status.
use splunk_operator_mirror_d.AppFramework.Types.{Config, AppDeploymentInfo}
use splunk_operator_mirror_d.AppFramework.Phases.{is_eligible, is_complete, retries_reached}
use splunk_operator_mirror_d.AppFramework.Migration.{
  migrate_app, migrate_versions, Option, ℕ, Versioned, String, List, AppDeploymentInfo,
  migrate_sources, is_active_state, latest_version, not, is_deployed, ltb, replicate,
  installed_info,
}
use splunk_operator_mirror_d.Prelude.{
  inl, true, inr, some, Option, ℕ, String, List, ◌≡◌, not, ◌≤◌, if◌then◌else◌, ◌&&◌, ltb,
  Bool-cases, replicate, arith,
}

-- A migrated app package that is active: the scheduler takes it up exactly if it was not deployed
-- and has retries left; if it was, all infos of its replicas show it as installed, or there is at
-- most one replica and they are as before.
pub migrate_app-eligible :
    (cfg : Config) (src : String) (n : ℕ) (a a' : AppDeploymentInfo)
    → migrate_app (some n) a ≡ some a'
    → is_active_state a.repo_state ≡ true
    → (is_eligible cfg src a'.phase_info
        ≡ (not (is_deployed a.deploy_status) && not (retries_reached cfg a.phase_info)))
      × (is_deployed a.deploy_status ≡ true
          → (is_complete a'.phase_info ≡ true)
            × (a'.aux_phase_info ≡ (
                if ltb 1 n then replicate n (installed_info a.phase_info) else a.aux_phase_info)))
unfolding migrate_app is_eligible is_complete
migrate_app-eligible cfg src n a a' h live = elim (Bool-cases (is_deployed a.deploy_status)) [
  | inl deployed ↦ (ground arith, λ d. (ground arith, ground arith))
  | inr other ↦ (ground arith, λ d. absurd (ground arith))
]

-- Two rounds are enough for the migration, whatever version it starts from: unless a deployed app
-- package is met with no stateful set to read its replicas from, it ends with the latest version.
pub migrate_versions-latest :
    (replicas : Option ℕ) (c : Versioned) (sources : List (String × List AppDeploymentInfo))
    → migrate_sources replicas c.sources ≡ some sources
    → (c' : Versioned) × (migrate_versions replicas 2 c ≡ some c')
      × (latest_version ≤ c'.version)
      × (c'.sources ≡ (if ltb c.version latest_version then sources else c.sources))
unfolding migrate_versions
migrate_versions-latest replicas c sources h = elim (Bool-cases (ltb c.version latest_version)) [
  | inl older ↦ (
    record { version = latest_version; sources = sources },
    ground arith,
    ground arith,
    ground arith,
  )
  | inr latest ↦ (c, ground arith, ground arith, ground arith)
]
