-- ===== src/AppFramework/Pipeline/Interleaving.antt =====
-- The goroutines of one pipeline of afwscheduler.go over what they share, interleaved in any order:
-- the three phase managers, the install handler, and the workers of all phases.
pub mod Busy
pub mod Invariant
pub mod Safety
mod Scenarios
use splunk_operator_mirror_d.AppFramework.Phases.{is_fan_out_kind}
use splunk_operator_mirror_d.AppFramework.Pipeline.Handler.{Playbook, handle_install}
use splunk_operator_mirror_d.AppFramework.Pipeline.Managers.{
  visit_download, visit_pod_copy, visit_install,
}
use splunk_operator_mirror_d.AppFramework.Pipeline.{
  add_workers, List, Bool, ℕ, AppPhase, replicate, Worker, length, Option, get_elem?, set,
  AppDeploymentInfo, set_app, set_worker, is_fan_out_kind,
}
use splunk_operator_mirror_d.AppFramework.Types.{
  Pipeline, Config, AppPhase, Worker, AppDeploymentInfo,
}
use splunk_operator_mirror_d.Prelude.{
  [], false, suc, some, ◌∷◌, none, List, Bool, ℕ, ltb, replicate, ◌≡◌, length, Option, ◌++◌,
  get_elem?, set, String, if◌then◌else◌,
}

-- The pipeline, the install slots in use on each pod, the channel of the install handler with the
-- oldest worker first, the workers whose playbook runs, and those that have freed their slot and
-- are still to be marked as inactive.
pub record System : Type 0 where
  pub pipeline : Pipeline
  pub slots : List ℕ
  pub channel : List ℕ
  pub running : List ℕ
  pub ending : List ℕ

-- the channel holds as many workers as there are replicas
unfoldable pub has_room : Config → System → Bool
has_room cfg s = elim cfg.replicas [ none ↦ false | some n ↦ ltb (length s.channel) n ]

-- `installPhaseManager`, before its loop
abbrev pub init : Pipeline → ℕ → System
init p n = record { pipeline = p; slots = replicate n 0; channel = []; running = []; ending = [] }

-- `createAndAddPipelineWorker`: a worker for an app package, on the pod of that ordinal
unfoldable pub create_worker : Config → ℕ → String → ℕ → Worker
unfolding is_fan_out_kind
create_worker cfg app src ordinal = record {
  app = app;
  app_src = src;
  ordinal = ordinal;
  fan_out = is_fan_out_kind cfg.kind;
  is_active = false;
  has_waiter = false;
}

unfoldable pub join_worker : AppPhase → Worker → Pipeline → Option Pipeline
unfolding add_workers
join_worker phase w p =
    add_workers phase (length p.workers ∷ []) (record p { workers = p.workers ++ (w ∷ []) })

-- The install manager's visit says itself whether it sends its worker to the channel. The playbooks, and the workers of the other phases, write to app packages in between; a step
-- `writes` stands for any such write. A step that receives from a slot waits until one is in use.
pub data Step (cfg : Config) (s : System) : System → Type 0 where
  joins :
      (phase : AppPhase) (app : ℕ) (src : String) (ordinal : ℕ) {p' : Pipeline}
      → join_worker phase (create_worker cfg app src ordinal) s.pipeline ≡ some p'
      → Step cfg s (record s { pipeline = p' })
  visits_download :
      (accepted : Bool) (id : ℕ) {p' : Pipeline}
      → visit_download cfg accepted id s.pipeline ≡ some p'
      → Step cfg s (record s { pipeline = p' })
  visits_pod_copy :
      (accepted : Bool) (id : ℕ) {p' : Pipeline}
      → visit_pod_copy cfg accepted id s.pipeline ≡ some p'
      → Step cfg s (record s { pipeline = p' })
  visits_install :
      (id : ℕ) {p' : Pipeline} {slots' : List ℕ} {sent : Bool}
      → visit_install cfg (has_room cfg s) id (s.pipeline, s.slots) ≡ some (p', slots', sent)
      → Step cfg s (record s {
        pipeline = p';
        slots = slots';
        channel = if sent then s.channel ++ (id ∷ []) else s.channel;
      })
  starts :
      (id : ℕ) (waiting : List ℕ) (w : Worker) (book : Playbook)
      → s.channel ≡ id ∷ waiting
      → get_elem? s.pipeline.workers id ≡ some w
      → handle_install cfg w ≡ some (some book)
      → Step cfg s (record s { channel = waiting; running = id ∷ s.running })
  refuses :
      (id : ℕ) (waiting : List ℕ) (w : Worker) (used : ℕ)
      → s.channel ≡ id ∷ waiting
      → get_elem? s.pipeline.workers id ≡ some w
      → handle_install cfg w ≡ some none
      → get_elem? s.slots w.ordinal ≡ some (suc used)
      → Step cfg s (record s { channel = waiting; slots = set s.slots w.ordinal used })
  writes :
      (n : ℕ) (a : AppDeploymentInfo) → Step cfg s (record s { pipeline = set_app n a s.pipeline })
  frees :
      (before : List ℕ) (id : ℕ) (after : List ℕ) (w : Worker) (used : ℕ)
      → s.running ≡ before ++ (id ∷ after)
      → get_elem? s.pipeline.workers id ≡ some w
      → get_elem? s.slots w.ordinal ≡ some (suc used)
      → Step cfg s (record s {
        running = before ++ after;
        slots = set s.slots w.ordinal used;
        ending = id ∷ s.ending;
      })
  ends :
      (before : List ℕ) (id : ℕ) (after : List ℕ) (w : Worker)
      → s.ending ≡ before ++ (id ∷ after)
      → get_elem? s.pipeline.workers id ≡ some w
      → Step cfg s (record s {
        ending = before ++ after;
        pipeline = set_worker id (record w { is_active = false }) s.pipeline;
      })
  idles :
      (id : ℕ) (w : Worker)
      → get_elem? s.pipeline.workers id ≡ some w
      → Step cfg s
          (record s { pipeline = set_worker id (record w { is_active = false }) s.pipeline })

pub data Reach (cfg : Config) : System → Type 0 where
  start : (p : Pipeline) (n : ℕ) → cfg.replicas ≡ some n → Reach cfg (init p n)
  later : {s t : System} → Reach cfg s → Step cfg s t → Reach cfg t
