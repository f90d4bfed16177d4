-- ===== src/StatefulSet/Scenarios.antt =====
-- Runs of `UpdateStatefulSetPods` on small StatefulSets.
use splunk_operator_mirror_d.StatefulSet.Readiness.{IsCurrent, update_pods-ready}
use splunk_operator_mirror_d.StatefulSet.Scaling.{update_pods-replicas}
use splunk_operator_mirror_d.StatefulSet.Calls.{disruptions, walked_all}
use splunk_operator_mirror_d.StatefulSet.Rolling.{update_pods-disruptions}
use splunk_operator_mirror_d.StatefulSet.Convergence.{
  IsWilling, rounds, willing_server, exit_of, rounds_converge,
}
use splunk_operator_mirror_d.StatefulSet.Manager.{returns, PodManager, Answer}
use splunk_operator_mirror_d.StatefulSet.Update.{
  finishes_upgrade, exits, removes_secrets, gets_sts, Server, update_pods, Pod, StatefulSet,
  after_fetch, manage, check_pods, check_pod, after_finish_recycle, finish_all,
}
use splunk_operator_mirror_d.Prelude.{
  none, suc, ◌∷◌, true, [], zero, refl, String, ℕ, ◌≤◌, arith, ◌≡◌, ◌⊎◌, ◌<◌, ◌++◌,
}
use splunk_operator_mirror_d.Api.{found, ready}

abbrev healthy_pod : String → Pod
healthy_pod rev = record { running = true; container_ready = true ∷ []; revision = rev }

-- The pod 0 runs the revision "a", every other one runs "b".
abbrev mixed_pods : ℕ → Pod
mixed_pods zero = healthy_pod "a"
mixed_pods (suc n) = healthy_pod "b"

abbrev set_of : ℕ → ℕ → StatefulSet
set_of replicas ready_count = record {
  replicas = replicas;
  ready_replicas = ready_count;
  update_revision = "b";
  volume_claims = "pvc-etc" ∷ "pvc-var" ∷ [];
}

abbrev mixed_server : Server
mixed_server = willing_server mixed_pods (set_of 2 2)

abbrev fresh_server : ℕ → ℕ → Server
fresh_server replicas ready_count =
    willing_server (λ n. healthy_pod "b") (set_of replicas ready_count)

-- A manager that counts what it is asked.
abbrev count_answer : ℕ → ℕ → Answer × ℕ
count_answer n s = (returns true none, suc s)

abbrev counting_manager : PodManager ℕ
counting_manager = record {
  prepare_scale_down = count_answer;
  prepare_recycle = count_answer;
  finish_recycle = count_answer;
  finish_upgrade = count_answer;
}

counting_manager-IsWilling : IsWilling counting_manager
counting_manager-IsWilling = record {
  scale = λ n s. refl;
  finish = λ n s. refl;
  upgrade = λ n s. refl;
}

update_pods-disruptions_example :
    disruptions 2 (update_pods mixed_server counting_manager (set_of 2 2) 2 0).log ≤ 1
update_pods-disruptions_example =
    update_pods-disruptions mixed_server counting_manager (set_of 2 2) (set_of 2 2) 2 0 refl

update_pods-ready_example :
    (latest : StatefulSet) × ((fresh_server 2 2).get_sts ≡ found latest)
    × (latest.replicas ≡ 2)
    × (latest.ready_replicas ≡ 2)
    × ((n : ℕ) → n < 2 → IsCurrent (fresh_server 2 2) latest n)
    × ((update_pods (fresh_server 2 2) counting_manager (set_of 2 2) 2 0).log
        ≡ gets_sts ∷ walked_all 2 ++ (removes_secrets ∷ finishes_upgrade 0 ∷ []))
unfolding update_pods after_fetch manage check_pods check_pod after_finish_recycle finish_all
update_pods-ready_example =
    update_pods-ready (fresh_server 2 2) counting_manager (set_of 2 2) 2 0 refl

update_pods-replicas_example :
    let after = (update_pods (fresh_server 3 3) counting_manager (set_of 1 1) 2 0).sts in
    (after ≡ set_of 3 3)
    ⊎ (((set_of 3 3).ready_replicas ≡ (set_of 3 3).replicas) × (3 < 2) × (after ≡ set_of 2 3))
    ⊎ (((set_of 3 3).ready_replicas ≡ (set_of 3 3).replicas)
        × (2 < 3)
        × ((counting_manager.prepare_scale_down 2 0).0 ≡ returns true none)
        × (after ≡ set_of 2 3))
update_pods-replicas_example =
    update_pods-replicas (fresh_server 3 3) counting_manager (set_of 1 1) (set_of 3 3) 2 0 refl

rounds_converge_example :
    let w = rounds counting_manager (λ n. healthy_pod "b") 2 3 (set_of 5 5, 0) in
    (w.0.replicas ≡ 2) × (exit_of counting_manager (λ n. healthy_pod "b") 2 w ≡ exits ready none)
rounds_converge_example =
    rounds_converge counting_manager (λ n. healthy_pod "b") counting_manager-IsWilling 2
      (set_of 5 5) 2 0 (λ n. (refl, refl)) refl (omega arith)
