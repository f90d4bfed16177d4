-- ===== src/AppFramework/Scenarios.antt =====
-- Runs of the app framework's pipeline on small inputs.
use splunk_operator_mirror_d.AppFramework.Pipeline.FanOut.{pending_copy, transition_worker-fans_out}
use splunk_operator_mirror_d.AppFramework.Queue.Sweep.{sweep-all, AddsFirst}
use splunk_operator_mirror_d.AppFramework.Pipeline.Downloads.{
  failed_downloads, failed_downloads-retries, handle_download-stuck,
}
use splunk_operator_mirror_d.AppFramework.Pipeline.Transition.{transition_worker, places}
use splunk_operator_mirror_d.AppFramework.Pipeline.Running.{Download, handle_download}
use splunk_operator_mirror_d.AppFramework.Queue.{sweep, delete_worker}
use splunk_operator_mirror_d.AppFramework.Phases.{retries_reached}
use splunk_operator_mirror_d.AppFramework.Types.{
  download, standalone, active, deploy_pending, pod_copy, Config, AppPhase, PhaseInfo,
  AppDeploymentInfo, Pipeline, Worker,
}
use splunk_operator_mirror_d.AppFramework.Pipeline.{inactive}
use splunk_operator_mirror_d.Prelude.{
  [], ◌∷◌, some, false, true, refl, Bool, ℕ, List, ◌==◌, ◌≡◌, ◌++◌, ltb, ◌≢◌, ◌↔◌, get_elem?, ◌≤◌,
  ◌<◌, arith, ◌&&◌, ◌+◌, replicate, if◌then◌else◌,
}
use splunk_operator_mirror_d.AppFramework.Status

abbrev standalone_config : Config
standalone_config = record {
  kind = standalone;
  replicas = some 2;
  max_retries = 2;
  default_scope = "local";
  app_sources = ("apps", "local") ∷ [];
}

abbrev info_in : AppPhase → ℕ → PhaseInfo
info_in phase status = record { phase = phase; status = status; fail_count = 0 }

abbrev app_with : PhaseInfo → List PhaseInfo → AppDeploymentInfo
app_with main aux = record {
  app_name = "app1.tgz";
  object_hash = "abcd";
  is_update = false;
  size = 10;
  repo_state = active;
  deploy_status = deploy_pending;
  top_folder = "";
  phase_info = main;
  aux_phase_info = aux;
}

abbrev worker_of : Bool → Bool → Worker
worker_of fans active_now = record {
  app = 0;
  app_src = "apps";
  ordinal = 0;
  fan_out = fans;
  is_active = active_now;
  has_waiter = false;
}

abbrev downloaded : PhaseInfo
downloaded = info_in download Status.download_complete

abbrev downloaded_app : AppDeploymentInfo
downloaded_app = app_with downloaded []

abbrev download_pipeline : Pipeline
download_pipeline = record {
  apps = downloaded_app ∷ [];
  workers = worker_of true true ∷ [];
  download_q = 0 ∷ [];
  pod_copy_q = [];
  install_q = [];
}

abbrev missing_info : PhaseInfo
missing_info = info_in pod_copy Status.missing_from_operator

abbrev missing_app : AppDeploymentInfo
missing_app = app_with downloaded (missing_info ∷ [])

abbrev missing_pipeline : Pipeline
missing_pipeline = record {
  apps = missing_app ∷ [];
  workers = worker_of false false ∷ [];
  download_q = [];
  pod_copy_q = 0 ∷ [];
  install_q = [];
}

-- a worker that is appended in the first round, before one is deleted in the second
abbrev adds_early : ℕ → List ℕ
adds_early i = if i == 0 then 7 ∷ [] else []

adds_early-AddsFirst : AddsFirst (λ i. i == 1) adds_early
adds_early-AddsFirst i j le h = ground arith

sweep-all_example : sweep (λ i. i == 1) adds_early 3 0 (4 ∷ 5 ∷ 6 ∷ 0 ∷ []) 3 ≡ 4 ∷ 5 ∷ 6 ∷ []
sweep-all_example =
    sweep-all (λ i. i == 1) adds_early (4 ∷ 5 ∷ 6 ∷ []) (0 ∷ []) adds_early-AddsFirst

transition_worker-fans_out_example :
    (p' : Pipeline) × (transition_worker standalone_config 0 download pod_copy download_pipeline
      ≡ some p')
    × (p'.pod_copy_q ≡ download_pipeline.pod_copy_q ++ places 1 2)
    × ((n : ℕ)
        → n < 2
        → get_elem? p'.workers (1 + n)
          ≡ some (record (inactive (worker_of true true)) { fan_out = false; ordinal = n }))
    × (get_elem? p'.apps 0
        ≡ some (record downloaded_app { aux_phase_info = replicate 2 pending_copy }))
    × (p'.download_q ≡ (delete_worker 0 download_pipeline.download_q).0)
transition_worker-fans_out_example =
    transition_worker-fans_out standalone_config 2 0 (worker_of true true) downloaded_app
      download_pipeline refl refl refl refl refl

failed_downloads-retries_example :
    retries_reached standalone_config
      (failed_downloads 3 (app_with (info_in download 101) [])).phase_info
    ≡ ltb 2 3
failed_downloads-retries_example =
    failed_downloads-retries standalone_config 3 (app_with (info_in download 101) []) refl
      (omega arith)

abbrev no_dir : Download
no_dir = record {
  is_downloaded = false;
  has_volume = true;
  has_dir = false;
  has_client = true;
  has_key = true;
  arrives = true;
}

handle_download-stuck_example :
    let (w', a', left) = handle_download no_dir (worker_of true true) downloaded_app 20 in
    ((w'.is_active ≡ true) × (a'.phase_info.status ≢ Status.download_complete)) ↔ (
      (no_dir.is_downloaded ≡ false)
      × (no_dir.has_volume ≡ true)
      × (downloaded_app.size ≤ 20)
      × ((no_dir.has_dir && no_dir.has_client) ≡ false))
handle_download-stuck_example =
    handle_download-stuck no_dir (worker_of true true) downloaded_app 20 refl
