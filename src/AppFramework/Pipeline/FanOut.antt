-- ===== src/AppFramework/Pipeline/FanOut.antt =====
-- The fan-out of a finished download into one copy worker for each replica.
use native.Mathlib.Nat.{zero-add}
use splunk_operator_mirror_d.AppFramework.Queue.{delete_worker}
use splunk_operator_mirror_d.AppFramework.Status
use splunk_operator_mirror_d.AppFramework.Pipeline.{
  set_app, replicate, length, look_up, remove_worker, inactive, delete_worker, set_worker,
}
use splunk_operator_mirror_d.AppFramework.Pipeline.Transition.{
  fan_out_workers, fan_out_step, fan_out_fresh, places, transition_worker,
}
use splunk_operator_mirror_d.Prelude.{
  false, suc, ◌∷◌, some, [], zero, refl, ℕ, List, ◌+◌, ◌<◌, ◌≤◌, get_elem?, ◌≡◌, leb, arith, ap,
  replicate, ◌∙◌, ◌++◌, length, true, length-set, get_elem?-append, get_elem?-set,
}
use splunk_operator_mirror_d.AppFramework.Types.{
  pod_copy, download, Worker, PhaseInfo, Config, AppDeploymentInfo, Pipeline,
}

-- The copy workers of `k` replicas from the replica `n` on, when there are so many.
copies_from : Worker → ℕ → ℕ → List Worker
copies_from seed n zero = []
copies_from seed n (suc k) =
    record seed { fan_out = false; ordinal = n } ∷ copies_from seed (suc n) k

fan_out_workers-some :
    (replicas : ℕ) (seed : Worker) (n k : ℕ)
    → n + k ≤ replicas
    → fan_out_workers replicas seed n k ≡ some (copies_from seed n k)
unfolding fan_out_workers copies_from
fan_out_workers-some replicas seed n zero h = refl
fan_out_workers-some replicas seed n (suc k) h =
    let fits : leb replicas n ≡ false = ground arith in
    simp (fits, fan_out_workers-some replicas seed (suc n) k (omega arith)) refl

get_elem?-copies_from :
    (seed : Worker) (n k i : ℕ)
    → i < k
    → get_elem? (copies_from seed n k) i ≡ some (record seed { fan_out = false; ordinal = n + i })
unfolding copies_from
get_elem?-copies_from seed n zero i h = absurd (omega arith)
get_elem?-copies_from seed n (suc k) zero h =
    ap (λ m. some (record seed { fan_out = false; ordinal = m })) (omega arith)
get_elem?-copies_from seed n (suc k) (suc i) h =
    get_elem?-copies_from seed (suc n) k i (omega arith)
    ∙ ap (λ m. some (record seed { fan_out = false; ordinal = m })) (omega arith)

abbrev pub pending_copy : PhaseInfo
pending_copy = record { phase = pod_copy; status = Status.pod_copy_pending; fail_count = 0 }

fan_out_step-fresh :
    (cfg : Config) (replicas : ℕ) (w : Worker) (info : AppDeploymentInfo) (p : Pipeline)
    → cfg.replicas ≡ some replicas
    → info.aux_phase_info ≡ []
    → fan_out_step cfg download info w p
      ≡ some
          (record (set_app w.app
            (record info { aux_phase_info = replicate replicas pending_copy })
            p) {
              workers = p.workers ++ copies_from w 0 replicas;
              pod_copy_q = p.pod_copy_q ++ places (length p.workers) replicas;
            })
unfolding fan_out_step fan_out_fresh
fan_out_step-fresh cfg replicas w info p r a =
    simp (r, a, fan_out_workers-some replicas w 0 replicas (omega arith)) refl

-- When a worker that fans out has finished its download, and its app package has no infos for the
-- replicas yet, its transition goes through. It adds to the copy queue exactly one worker for each
-- replica, idle, with the replica's ordinal and not fanning out any more; the app package gets one
-- pending copy info for each replica; and the worker is deleted from the download queue.
pub transition_worker-fans_out :
    (cfg : Config) (replicas id : ℕ) (w : Worker) (info : AppDeploymentInfo) (p : Pipeline)
    → cfg.replicas ≡ some replicas
    → get_elem? p.workers id ≡ some w
    → get_elem? p.apps w.app ≡ some info
    → w.fan_out ≡ true
    → info.aux_phase_info ≡ []
    → (p' : Pipeline) × (transition_worker cfg id download pod_copy p ≡ some p')
      × (p'.pod_copy_q ≡ p.pod_copy_q ++ places (length p.workers) replicas)
      × ((n : ℕ)
          → n < replicas
          → get_elem? p'.workers (length p.workers + n)
            ≡ some (record (inactive w) { fan_out = false; ordinal = n }))
      × (get_elem? p'.apps w.app
          ≡ some (record info { aux_phase_info = replicate replicas pending_copy }))
      × (p'.download_q ≡ (delete_worker id p.download_q).0)
unfolding transition_worker look_up remove_worker
transition_worker-fans_out cfg replicas id w info p r hw ha hf aux =
    let idle = inactive w in
    let stopped = set_worker id idle p in
    let split = record info { aux_phase_info = replicate replicas pending_copy } in
    let p' = record (set_app w.app split stopped) {
      workers = stopped.workers ++ copies_from idle 0 replicas;
      pod_copy_q = p.pod_copy_q ++ places (length stopped.workers) replicas;
      download_q = (delete_worker id p.download_q).0;
    } in
    let size = length-set p.workers id idle in
    (
      p',
      simp (hw, ha, hf, fan_out_step-fresh cfg replicas idle info stopped r aux) refl,
      rw size refl,
      λ n h. rw (← size) (
          get_elem?-append stopped.workers (copies_from idle 0 replicas) n
          ∙ get_elem?-copies_from idle 0 replicas n h
          ∙ ap (λ m. some (record idle { fan_out = false; ordinal = m })) (zero-add n)),
      get_elem?-set p.apps w.app split info ha,
      refl,
    )
