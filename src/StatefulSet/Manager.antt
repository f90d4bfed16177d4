-- ===== src/StatefulSet/Manager.antt =====
-- `StatefulSetPodManager` of pkg/splunk/common/types.go and `DefaultStatefulSetPodManager` of
-- pkg/splunk/splkcontroller/statefulset.go.
use splunk_operator_mirror_d.Prelude.{ℕ, Bool, true, Option, none}
use splunk_operator_mirror_d.Api.{Err}

-- What a method returns: a Boolean and an error together, as in Go, or a run-time panic.
pub data Answer : Type 0 where
  returns : Bool → Option Err → Answer
  panics : Answer

-- `FinishUpgrade` returns an error alone: the Boolean of its answer is not read.
pub record PodManager (S : Type 0) : Type 0 where
  pub prepare_scale_down : ℕ → S → Answer × S
  pub prepare_recycle : ℕ → S → Answer × S
  pub finish_recycle : ℕ → S → Answer × S
  pub finish_upgrade : ℕ → S → Answer × S

-- `DefaultStatefulSetPodManager` keeps no state.
abbrev pub default_manager : PodManager (Unit {0})
default_manager = record {
  prepare_scale_down = λ n s. (returns true none, s);
  prepare_recycle = λ n s. (returns true none, s);
  finish_recycle = λ n s. (returns true none, s);
  finish_upgrade = λ n s. (returns true none, s);
}
