-- ===== src/AppFramework/Pipeline/Interleaving/Invariant.antt =====
-- The install slots account for the installs: in every reachable state, each pod's slots in use are
-- the workers of the pod that wait in the channel or run, and there is at most one.
use splunk_operator_mirror_d.AppFramework.Pipeline.Pods.Installs.{visit_install-KeepsPods}
use splunk_operator_mirror_d.AppFramework.Pipeline.Slots.{visit_install-slots}
use splunk_operator_mirror_d.AppFramework.Pipeline.Pods.Visits.{
  visit_download-KeepsPods, visit_pod_copy-KeepsPods,
}
use mathlib.Core.Path.{subst}
use splunk_operator_mirror_d.AppFramework.Pipeline.{set_worker, look_up, set_app, Bool}
use splunk_operator_mirror_d.AppFramework.Pipeline.Managers.{visit_install, visit_install_found}
use splunk_operator_mirror_d.AppFramework.Pipeline.Pods.{
  KeepsPods, add_workers-workers, KeepsPods-set, KeepsPods-append, look_up-worker, KeepsPods-refl,
}
use splunk_operator_mirror_d.AppFramework.Pipeline.Interleaving.Busy.{
  slots_used, busy, busy-KeepsPods, Known, slots_used-replicate, Known-KeepsPods, slots_used-set,
  busy-append, Known-append, Known-without,
}
use splunk_operator_mirror_d.AppFramework.Types.{Config, Pipeline, AppPhase, Worker}
use splunk_operator_mirror_d.AppFramework.Pipeline.Interleaving.{
  later, start, System, join_worker, Config, Step, Reach, ℕ, Pipeline, List, AppPhase, Worker,
  visit_install, has_room, get_elem?, set_worker, set, length, ends, visits_install,
  visits_pod_copy, refuses, visits_download, joins, frees, writes, idles, starts, create_worker,
}
use splunk_operator_mirror_d.Prelude.{
  ◌∷◌, suc, [], some, ℕ, List, ◌≡◌, arith, get_elem?, ◌++◌, ◌+◌, set, length, ◌≤◌, get_elem?-set,
  inl, true, false, inr, refl, >>=-eq-some, Bool, if◌then◌else◌,
}

pub record Inv (s : System) : Type 0 where
  pub accounted :
      (n : ℕ)
      → slots_used s.slots n
        ≡ busy s.pipeline.workers n s.channel + busy s.pipeline.workers n s.running
  pub within : (n : ℕ) → slots_used s.slots n ≤ 1
  pub known_channel : Known s.pipeline.workers s.channel
  pub known_running : Known s.pipeline.workers s.running

-- what each kind of step does to the invariant

keeps-Inv :
    (s : System) (p' : Pipeline)
    → KeepsPods s.pipeline.workers p'.workers
    → Inv s
    → Inv (record s { pipeline = p' })
keeps-Inv s p' keep inv = record {
  accounted = λ n. omega (
    arith,
    inv.accounted n,
    busy-KeepsPods s.pipeline.workers p'.workers n s.channel keep inv.known_channel,
    busy-KeepsPods s.pipeline.workers p'.workers n s.running keep inv.known_running,
  );
  within = inv.within;
  known_channel = Known-KeepsPods s.pipeline.workers p'.workers s.channel keep inv.known_channel;
  known_running = Known-KeepsPods s.pipeline.workers p'.workers s.running keep inv.known_running;
}

sends-Inv :
    (s : System) (id : ℕ) (w w' : Worker)
    → get_elem? s.pipeline.workers id ≡ some w
    → w'.ordinal ≡ w.ordinal
    → get_elem? s.slots w.ordinal ≡ some 0
    → Inv s
    → Inv (record s {
      pipeline = set_worker id w' s.pipeline;
      slots = set s.slots w.ordinal 1;
      channel = s.channel ++ (id ∷ []);
    })
sends-Inv s id w w' hw same free inv = record {
  accounted = λ n. ground (
    arith,
    inv.accounted n,
    slots_used-set s.slots w.ordinal n 1 0 free,
    busy-append ws' n s.channel (id ∷ []),
    busy-KeepsPods ws ws' n s.channel keep inv.known_channel,
    busy-KeepsPods ws ws' n s.running keep inv.known_running,
    here,
  );
  within = λ n. ground (arith, inv.within n, slots_used-set s.slots w.ordinal n 1 0 free);
  known_channel =
      Known-append ws' s.channel (id ∷ []) (Known-KeepsPods ws ws' s.channel keep inv.known_channel)
        ((w', here), tt);
  known_running = Known-KeepsPods ws ws' s.running keep inv.known_running;
}
  where
    ws : List Worker
    ws = s.pipeline.workers

    ws' : List Worker
    ws' = set s.pipeline.workers id w'

    keep : KeepsPods ws ws'
    keep = KeepsPods-set ws id w w' hw same

    here : get_elem? ws' id ≡ some w'
    here = get_elem?-set ws id w' w hw

starts-Inv :
    (s : System) (id : ℕ) (waiting : List ℕ)
    → s.channel ≡ id ∷ waiting
    → Inv s
    → Inv (record s { channel = waiting; running = id ∷ s.running })
starts-Inv s id waiting e inv = record {
  accounted = λ n. ground (arith, inv.accounted n);
  within = inv.within;
  known_channel = head.1;
  known_running = (head.0, inv.known_running);
}
  where
    head : Known s.pipeline.workers (id ∷ waiting)
    head = subst (Known s.pipeline.workers) e inv.known_channel

refuses-Inv :
    (s : System) (id : ℕ) (waiting : List ℕ) (w : Worker) (used : ℕ)
    → s.channel ≡ id ∷ waiting
    → get_elem? s.pipeline.workers id ≡ some w
    → get_elem? s.slots w.ordinal ≡ some (suc used)
    → Inv s
    → Inv (record s { channel = waiting; slots = set s.slots w.ordinal used })
refuses-Inv s id waiting w used e hw hs inv = record {
  accounted =
      λ n. ground (arith, inv.accounted n, slots_used-set s.slots w.ordinal n used (suc used) hs);
  within = λ n. ground (arith, inv.within n, slots_used-set s.slots w.ordinal n used (suc used) hs);
  known_channel = head.1;
  known_running = inv.known_running;
}
  where
    head : Known s.pipeline.workers (id ∷ waiting)
    head = subst (Known s.pipeline.workers) e inv.known_channel

frees-Inv :
    (s : System) (before : List ℕ) (id : ℕ) (after : List ℕ) (w : Worker) (used : ℕ)
    → s.running ≡ before ++ (id ∷ after)
    → get_elem? s.pipeline.workers id ≡ some w
    → get_elem? s.slots w.ordinal ≡ some (suc used)
    → Inv s
    → Inv (record s {
      running = before ++ after;
      slots = set s.slots w.ordinal used;
      ending = id ∷ s.ending;
    })
frees-Inv s before id after w used e hw hs inv = record {
  accounted = λ n. ground (
    arith,
    inv.accounted n,
    slots_used-set s.slots w.ordinal n used (suc used) hs,
    busy-append ws n before (id ∷ after),
    busy-append ws n before after,
  );
  within = λ n. ground (arith, inv.within n, slots_used-set s.slots w.ordinal n used (suc used) hs);
  known_channel = inv.known_channel;
  known_running = Known-without ws before id after (subst (Known ws) e inv.known_running);
}
  where
    ws : List Worker
    ws = s.pipeline.workers

join_worker-KeepsPods :
    (phase : AppPhase) (w : Worker) (p p' : Pipeline)
    → join_worker phase w p ≡ some p'
    → KeepsPods p.workers p'.workers
unfolding join_worker
join_worker-KeepsPods phase w p p' h =
    rw
      (add_workers-workers phase (length p.workers ∷ [])
        (record p { workers = p.workers ++ (w ∷ []) }) p' h)
      (KeepsPods-append p.workers (w ∷ []))

-- a visit of the install manager, which sends its worker or not
visit-Inv :
    (cfg : Config) (s : System) (id : ℕ) (p' : Pipeline) (slots' : List ℕ) (sent : Bool)
    → visit_install cfg (has_room cfg s) id (s.pipeline, s.slots) ≡ some (p', slots', sent)
    → Inv s
    → Inv (record s {
      pipeline = p';
      slots = slots';
      channel = if sent then s.channel ++ (id ∷ []) else s.channel;
    })
unfolding visit_install
visit-Inv cfg s id p' slots' sent h inv =
    let ((w, info), seen, rest) =
      >>=-eq-some (look_up id s.pipeline)
        (visit_install_found cfg (has_room cfg s) id (s.pipeline, s.slots)) (p', slots', sent) h in
    elim (visit_install-slots cfg (has_room cfg s) id w info s.pipeline p' s.slots slots' sent seen
      h) [
        | inl (kept, same) ↦
            rw (kept, same)
              (keeps-Inv s p'
                (visit_install-KeepsPods cfg (has_room cfg s) id s.pipeline p' s.slots slots' sent
                  h)
                inv)
        | inr (idle, out, (room, free, taken, handed)) ↦
            rw (out, taken, handed)
              (sends-Inv s id w (record w { is_active = true; has_waiter = true })
                (look_up-worker id w info s.pipeline seen) refl free inv)
      ]

-- a worker that is marked as inactive
idle-Inv :
    (s : System) (id : ℕ) (w : Worker) (rest : List ℕ)
    → get_elem? s.pipeline.workers id ≡ some w
    → Inv s
    → Inv (record s {
      pipeline = set_worker id (record w { is_active = false }) s.pipeline;
      ending = rest;
    })
idle-Inv s id w rest hw inv =
    keeps-Inv (record s { ending = rest })
      (set_worker id (record w { is_active = false }) s.pipeline)
      (KeepsPods-set s.pipeline.workers id w (record w { is_active = false }) hw refl)
      (record {
        accounted = inv.accounted;
        within = inv.within;
        known_channel = inv.known_channel;
        known_running = inv.known_running;
      })

Step-Inv : {cfg : Config} {s t : System} → Step cfg s t → Inv s → Inv t
Step-Inv {cfg} {s} (joins phase app src ordinal {p'} h) inv =
    keeps-Inv s p' (join_worker-KeepsPods phase (create_worker cfg app src ordinal) s.pipeline p' h)
      inv
Step-Inv {cfg} {s} (visits_download accepted id {p'} h) inv =
    keeps-Inv s p' (visit_download-KeepsPods cfg accepted id s.pipeline p' h) inv
Step-Inv {cfg} {s} (visits_pod_copy accepted id {p'} h) inv =
    keeps-Inv s p' (visit_pod_copy-KeepsPods cfg accepted id s.pipeline p' h) inv
Step-Inv {cfg} {s} (visits_install id {p'} {slots'} {sent} h) inv =
    visit-Inv cfg s id p' slots' sent h inv
Step-Inv {s} (starts id waiting w book e hw h) inv = starts-Inv s id waiting e inv
Step-Inv {s} (refuses id waiting w used e hw h hs) inv = refuses-Inv s id waiting w used e hw hs inv
Step-Inv {s} (writes n a) inv =
    keeps-Inv s (set_app n a s.pipeline) (KeepsPods-refl s.pipeline.workers) inv
Step-Inv {s} (frees before id after w used e hw hs) inv =
    frees-Inv s before id after w used e hw hs inv
Step-Inv {s} (ends before id after w e hw) inv = idle-Inv s id w (before ++ after) hw inv
Step-Inv {s} (idles id w hw) inv = idle-Inv s id w s.ending hw inv

-- In every reachable state of the interleaved managers, handlers and workers, the slots in use on
-- each pod are as many as the workers of that pod that wait in the handler's channel or run, at most
-- one, and all of these are workers of the pipeline.
pub Reach-Inv : {cfg : Config} {s : System} → Reach cfg s → Inv s
Reach-Inv (start p n e) = record {
  accounted = λ k. omega (arith, slots_used-replicate n k);
  within = λ k. omega (arith, slots_used-replicate n k);
  known_channel = tt;
  known_running = tt;
}
Reach-Inv (later r st) = Step-Inv st (Reach-Inv r)
