-- ===== src/AppFramework/Entry/Workers.antt =====
-- The workers that a scheduler's entry makes.
use mathlib.Core.Path.{subst, ap}
use splunk_operator_mirror_d.AppFramework.Pipeline.Interleaving.{create_worker, join_worker}
use splunk_operator_mirror_d.AppFramework.Phases.{is_eligible, is_download, is_pod_copy, is_install}
use splunk_operator_mirror_d.AppFramework.Entry.{
  enter_apps, String, Bool, ℕ, List, AppDeploymentInfo, Pipeline, is_eligible, create_worker,
  length, join_worker, enter_app, enter_sources,
}
use splunk_operator_mirror_d.AppFramework.Types.{
  Config, AppPhase, AppDeploymentInfo, Worker, Pipeline, pod_copy, download, install, other_phase,
}
use mathlib.Core.List.{append-nil, append_assoc}
use splunk_operator_mirror_d.Prelude.{
  suc, ◌∷◌, [], some, String, Bool, ℕ, List, if◌then◌else◌, ◌≡◌, ◌++◌, map, length, refl, sym,
  length-append, inl, inr, arith, >>=-eq-some, Bool-cases, ◌+◌, ap, ◌∙◌,
}

-- What has work: the places of the eligible app packages of a source, with their phases and the
-- source.
pub scheduled : Config → String → ℕ → List AppDeploymentInfo → List (String × ℕ × AppPhase)
scheduled cfg src app [] = []
scheduled cfg src app (a ∷ rest) =
    let later_apps = scheduled cfg src (suc app) rest in
    if is_eligible cfg src a.phase_info
    then (src, app, a.phase_info.phase) ∷ later_apps
    else later_apps

abbrev pub makes : Config → String × ℕ × AppPhase → Worker
makes cfg (src, app, phase) = create_worker cfg app src 0

-- The places of their workers, from the place `k` on, that go to one queue.
abbrev pub queued : (AppPhase → Bool) → ℕ → List (String × ℕ × AppPhase) → List ℕ
queued is_phase k [] = []
queued is_phase k ((src, app, phase) ∷ rest) =
    let others = queued is_phase (suc k) rest in if is_phase phase then k ∷ others else others

abbrev pub Enters : Config → List (String × ℕ × AppPhase) → Pipeline → Pipeline → Type 0
Enters cfg work p p' =
    (p'.apps ≡ p.apps)
    × (p'.workers ≡ p.workers ++ map (makes cfg) work)
    × (p'.download_q ≡ p.download_q ++ queued is_download (length p.workers) work)
    × (p'.pod_copy_q ≡ p.pod_copy_q ++ queued is_pod_copy (length p.workers) work)
    × (p'.install_q ≡ p.install_q ++ queued is_install (length p.workers) work)

Enters-none : (cfg : Config) (p p' : Pipeline) → p' ≡ p → Enters cfg [] p p'
Enters-none cfg p p' e = rw e (
  refl,
  sym (append-nil p.workers),
  sym (append-nil p.download_q),
  sym (append-nil p.pod_copy_q),
  sym (append-nil p.install_q),
)

-- one worker, and then the others
Enters-join :
    (cfg : Config) (src : String) (app : ℕ) (phase : AppPhase) (work : List (String × ℕ × AppPhase))
    (p q p' : Pipeline)
    → join_worker phase (create_worker cfg app src 0) p ≡ some q
    → Enters cfg work q p'
    → Enters cfg ((src, app, phase) ∷ work) p p'
unfolding join_worker
Enters-join cfg src app download work p q p' h (ea, ew, ed, ec, ei) =
    let w = create_worker cfg app src 0 in
    let k = length p.workers in
    let is_q : q
        ≡ record p { workers = p.workers ++ (w ∷ []); download_q = p.download_q ++ (k ∷ []) } =
      ground arith in
    let len : length q.workers ≡ suc k = ground (arith, length-append p.workers (w ∷ [])) in
    (
      ground arith,
      ground (arith, append_assoc p.workers (w ∷ []) (map (makes cfg) work)),
      ground (arith, ed, len, append_assoc p.download_q (k ∷ []) (queued is_download (suc k) work)),
      ground (arith, ec, len),
      ground (arith, ei, len),
    )
Enters-join cfg src app pod_copy work p q p' h (ea, ew, ed, ec, ei) =
    let w = create_worker cfg app src 0 in
    let k = length p.workers in
    let is_q : q
        ≡ record p { workers = p.workers ++ (w ∷ []); pod_copy_q = p.pod_copy_q ++ (k ∷ []) } =
      ground arith in
    let len : length q.workers ≡ suc k = ground (arith, length-append p.workers (w ∷ [])) in
    (
      ground arith,
      ground (arith, append_assoc p.workers (w ∷ []) (map (makes cfg) work)),
      ground (arith, ed, len),
      ground (arith, ec, len, append_assoc p.pod_copy_q (k ∷ []) (queued is_pod_copy (suc k) work)),
      ground (arith, ei, len),
    )
Enters-join cfg src app install work p q p' h (ea, ew, ed, ec, ei) =
    let w = create_worker cfg app src 0 in
    let k = length p.workers in
    let is_q : q
        ≡ record p { workers = p.workers ++ (w ∷ []); install_q = p.install_q ++ (k ∷ []) } =
      ground arith in
    let len : length q.workers ≡ suc k = ground (arith, length-append p.workers (w ∷ [])) in
    (
      ground arith,
      ground (arith, append_assoc p.workers (w ∷ []) (map (makes cfg) work)),
      ground (arith, ed, len),
      ground (arith, ec, len),
      ground (arith, ei, len, append_assoc p.install_q (k ∷ []) (queued is_install (suc k) work)),
    )
Enters-join cfg src app (other_phase t) work p q p' h e = cc

enter_apps-Enters :
    (cfg : Config) (src : String) (app : ℕ) (apps : List AppDeploymentInfo) (p p' : Pipeline)
    → enter_apps cfg src app apps p ≡ some p'
    → Enters cfg (scheduled cfg src app apps) p p'
unfolding enter_apps scheduled
enter_apps-Enters cfg src app [] p p' h = Enters-none cfg p p' (ground arith)
enter_apps-Enters cfg src app (a ∷ rest) p p' h =
    let (q, first, others) =
      >>=-eq-some (enter_app cfg src app a p) (λ q. enter_apps cfg src (suc app) rest q) p' h in
    let ih = enter_apps-Enters cfg src (suc app) rest q p' others in
    elim (Bool-cases (is_eligible cfg src a.phase_info)) [
      | inl work ↦ rw work (
          Enters-join cfg src app a.phase_info.phase (scheduled cfg src (suc app) rest) p q p'
            (ground arith) ih)
      | inr rests ↦
          let same : q ≡ p = ground arith in
          rw rests (
            enter_apps-Enters cfg src (suc app) rest p p'
              (subst (λ r. enter_apps cfg src (suc app) rest r ≡ some p') same others))
    ]

-- The work of the sources up to the first one whose directory cannot be made.
pub scheduled_sources :
    Config
    → (String → Bool)
    → ℕ
    → List (String × List AppDeploymentInfo)
    → List (String × ℕ × AppPhase)
scheduled_sources cfg has_dir app [] = []
scheduled_sources cfg has_dir app ((src, apps) ∷ rest) =
    let others = scheduled_sources cfg has_dir (app + length apps) rest in
    if has_dir src then scheduled cfg src app apps ++ others else []

queued-append :
    (is_phase : AppPhase → Bool) (k : ℕ) (u v : List (String × ℕ × AppPhase))
    → queued is_phase k (u ++ v) ≡ queued is_phase k u ++ queued is_phase (k + length u) v
queued-append is_phase k [] v = ground arith
queued-append is_phase k ((src, app, phase) ∷ u) v =
    let next : suc k + length u ≡ k + suc (length u) = omega arith in
    ground (arith, queued-append is_phase (suc k) u v, next)

map-makes :
    (cfg : Config) (u v : List (String × ℕ × AppPhase))
    → (map (makes cfg) (u ++ v) ≡ map (makes cfg) u ++ map (makes cfg) v)
      × (length (map (makes cfg) u) ≡ length u)
map-makes cfg [] v = (refl, refl)
map-makes cfg (x ∷ u) v =
    let (same, size) = map-makes cfg u v in (ap (λ l. makes cfg x ∷ l) same, ap suc size)

-- the queue after one part of the work and then the other
queue-append :
    (is_phase : AppPhase → Bool) (q r r' : List ℕ) (k m : ℕ) (u v : List (String × ℕ × AppPhase))
    → m ≡ k + length u
    → r ≡ q ++ queued is_phase k u
    → r' ≡ r ++ queued is_phase m v
    → r' ≡ q ++ queued is_phase k (u ++ v)
queue-append is_phase q r r' k m u v size first then_ =
    rw (then_, first, size, queued-append is_phase k u v)
      (append_assoc q (queued is_phase k u) (queued is_phase (k + length u) v))

Enters-append :
    (cfg : Config) (u v : List (String × ℕ × AppPhase)) (p q p' : Pipeline)
    → Enters cfg u p q
    → Enters cfg v q p'
    → Enters cfg (u ++ v) p p'
Enters-append cfg u v p q p' (ea, ew, ed, ec, ei) (fa, fw, fd, fc, fi) =
    let k = length p.workers in
    let (same, made) = map-makes cfg u v in
    let size : length q.workers ≡ k + length u =
      omega (arith, ap length ew, length-append p.workers (map (makes cfg) u), made) in
    (
      fa ∙ ea,
      rw (fw, ew, same) (append_assoc p.workers (map (makes cfg) u) (map (makes cfg) v)),
      queue-append is_download p.download_q q.download_q p'.download_q k (length q.workers) u v size
          ed fd,
      queue-append is_pod_copy p.pod_copy_q q.pod_copy_q p'.pod_copy_q k (length q.workers) u v size
          ec fc,
      queue-append is_install p.install_q q.install_q p'.install_q k (length q.workers) u v size ei
          fi,
    )

-- A scheduler's entry, over the app sources in the order in which it takes them, makes one worker
-- for each eligible app package of the sources up to the first one whose directory cannot be made on
-- the pods, in order, each in the queue of its phase, and nothing else; the sources after that one
-- get no worker.
pub enter_sources-Enters :
    (cfg : Config) (has_dir : String → Bool) (app : ℕ)
    (sources : List (String × List AppDeploymentInfo)) (p p' : Pipeline)
    → enter_sources cfg has_dir app sources p ≡ some p'
    → Enters cfg (scheduled_sources cfg has_dir app sources) p p'
unfolding enter_sources scheduled_sources
enter_sources-Enters cfg has_dir app [] p p' h = Enters-none cfg p p' (ground arith)
enter_sources-Enters cfg has_dir app ((src, apps) ∷ rest) p p' h = elim (Bool-cases (has_dir src)) [
  | inr missing ↦ rw missing (Enters-none cfg p p' (ground arith))
  | inl made ↦
      let (q, first, others) =
        >>=-eq-some (enter_apps cfg src app apps p)
          (λ q. enter_sources cfg has_dir (app + length apps) rest q) p' (rw made at h) in
      rw made (
        Enters-append cfg (scheduled cfg src app apps)
          (scheduled_sources cfg has_dir (app + length apps) rest) p q p'
          (enter_apps-Enters cfg src app apps p q first)
          (enter_sources-Enters cfg has_dir (app + length apps) rest q p' others))
]
