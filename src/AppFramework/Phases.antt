-- ===== src/AppFramework/Phases.antt =====
-- The functions of afwscheduler.go on a single `PhaseInfo`, and which phase infos still have work.
use splunk_operator_mirror_d.Prelude.{
  ◌∷◌, [], false, true, String, List, ℕ, Bool, ◌||◌, if◌then◌else◌, ◌==◌, ◌&&◌, ltb, str_eq, all_of,
  ◌≡◌, any_of, arith,
}
use splunk_operator_mirror_d.AppFramework.Types.{
  download, install, other_phase, standalone, pod_copy, cluster_master, cluster_manager,
  search_head_cluster, ingestor_cluster, PhaseInfo, AppPhase, Config, Kind,
}
use Prim.Native.Char.{code}
use splunk_operator_mirror_d.AppFramework.Status

-- The code points of a text. `String` has its own `[]` and `∷`.
abbrev pub codes : String → List ℕ
codes String.[] = []
codes (String.◌∷◌ c s) = code c ∷ codes s

abbrev pub is_prefix : List ℕ → List ℕ → Bool
is_prefix [] t = true
is_prefix (c ∷ p) [] = false
is_prefix (c ∷ p) (d ∷ t) = c == d && is_prefix p t

-- `strings.Contains(t, p)`
abbrev pub contains : List ℕ → List ℕ → Bool
contains [] p = is_prefix p []
contains (c ∷ t) p = is_prefix p (c ∷ t) || contains t p

unfoldable pub set_pending : PhaseInfo → PhaseInfo
set_pending i = elim i.phase [
  | download ↦ record i { status = Status.download_pending }
  | pod_copy ↦ record i { status = Status.pod_copy_pending }
  | install ↦ record i { status = Status.install_pending }
  | other_phase t ↦ i
]

unfoldable pub new_context : AppPhase → PhaseInfo → PhaseInfo
unfolding set_pending
new_context next i = set_pending (record i { phase = next; fail_count = 0 })

unfoldable pub is_complete : PhaseInfo → Bool
is_complete i = elim i.phase [
  | download ↦ i.status == Status.download_complete
  | pod_copy ↦ i.status == Status.pod_copy_complete
  | install ↦ i.status == Status.install_complete
  | other_phase t ↦ false
]

abbrev pub is_install : AppPhase → Bool
is_install install = true
is_install _ = false

abbrev pub is_pod_copy : AppPhase → Bool
is_pod_copy pod_copy = true
is_pod_copy _ = false

abbrev pub is_download : AppPhase → Bool
is_download download = true
is_download _ = false

-- the keys of `appPhaseInfoStatuses`
abbrev known_statuses : List ℕ
known_statuses =
    101 ∷ 102 ∷ 103 ∷ 199 ∷ 201 ∷ 202 ∷ 203 ∷ 298 ∷ 299 ∷ 301 ∷ 302 ∷ 303 ∷ 398 ∷ 399 ∷ []

-- `strings.Contains("downloadpodCopyinstall", phase)`
unfoldable pub is_valid_phase : AppPhase → Bool
is_valid_phase (other_phase t) = contains (codes "downloadpodCopyinstall") (codes t)
is_valid_phase _ = true

unfoldable pub validate : PhaseInfo → Bool
unfolding is_valid_phase
validate i = is_valid_phase i.phase && any_of (λ s. s == i.status) known_statuses

unfoldable pub retries_reached : Config → PhaseInfo → Bool
retries_reached cfg i = ltb cfg.max_retries i.fail_count

-- the loop of `getAppSrcScope`
abbrev pub find_scope : String → String → List (String × String) → String
find_scope default name [] = default
find_scope default name ((n, scope) ∷ rest) =
    if str_eq n name
    then (if str_eq scope "" then default else scope)
    else find_scope default name rest

unfoldable pub scope_of : Config → String → String
scope_of cfg name = find_scope cfg.default_scope name cfg.app_sources

unfoldable pub is_eligible : Config → String → PhaseInfo → Bool
unfolding retries_reached scope_of validate
is_eligible cfg src i =
    if retries_reached cfg i
    then false
    else if is_install i.phase && i.status == Status.install_complete
    then false
    else if str_eq (scope_of cfg src) "cluster"
        && (is_pod_copy i.phase && i.status == Status.pod_copy_complete)
    then false
    else validate i

unfoldable pub is_fan_out_kind : Kind → Bool
is_fan_out_kind standalone = true
is_fan_out_kind ingestor_cluster = true
is_fan_out_kind _ = false

unfoldable pub is_cluster_scoped : Kind → Bool
is_cluster_scoped cluster_master = true
is_cluster_scoped cluster_manager = true
is_cluster_scoped search_head_cluster = true
is_cluster_scoped _ = false

unfoldable pub may_install : String → Bool
may_install scope = str_eq scope "local" || str_eq scope "premiumApps"

unfoldable pub all_installed : List PhaseInfo → Bool
all_installed = all_of (λ i. is_install i.phase && i.status == Status.install_complete)

-- A phase info that is set to a new phase has work in it, for one of the three phases: it is not
-- complete, it has all its retries, and a scheduler entry takes it up.
pub new_context-eligible :
    (cfg : Config) (src : String) (next : AppPhase) (i : PhaseInfo)
    → (is_download next || is_pod_copy next || is_install next) ≡ true
    → (is_complete (new_context next i) ≡ false) × (is_eligible cfg src (new_context next i) ≡ true)
unfolding new_context is_complete is_eligible
new_context-eligible cfg src download i h = ground arith
new_context-eligible cfg src pod_copy i h = ground arith
new_context-eligible cfg src install i h = ground arith
new_context-eligible cfg src (other_phase t) i h = cc
