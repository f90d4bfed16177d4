-- ===== src/SearchHead/Reconcile.antt =====
-- `Update` of the search head cluster's pod manager: the status is read from Splunk, and then the
-- StatefulSet is brought on. What `ApplyStatefulSet` and `ApplyShcSecret` return are arguments.
pub mod Fresh
pub mod Events
mod Scenarios
use splunk_operator_mirror_d.SearchHead.Manager.{
  Rest, Cluster, Member, manual_detention, search_head_manager,
}
use splunk_operator_mirror_d.SearchHead.Status.{update_status, status_of}
use splunk_operator_mirror_d.Prelude.{
  none, ◌∷◌, some, [], ℕ, List, Option, Bool, if◌then◌else◌, ◌==◌, ltb, ◌||◌, ◌&&◌, not,
}
use splunk_operator_mirror_d.StatefulSet.Update.{
  exits, crashes, Exit, Server, Call, StatefulSet, update_pods,
}
use splunk_operator_mirror_d.Api.{pending, error, ready, Phase, Err}

-- `ScaledUp` and `ScaledDown`, from one number of replicas to another
pub data ScaleEvent : Type 0 where
  scaled_up scaled_down : ℕ → ℕ → ScaleEvent

-- How `Update` ends; `calls` are those of `UpdateStatefulSetPods`.
pub record Ending : Type 0 where
  pub exit : Exit
  pub cluster : Cluster
  pub calls : List Call
  pub events : List ScaleEvent

abbrev pub leave : Phase → Option Err → Cluster → Ending
leave p e s = record { exit = exits p e; cluster = s; calls = []; events = [] }

-- the events of a reconcile that ends ready; `now` is `Status.Replicas` at its end
unfoldable pub scale_events : ℕ → ℕ → ℕ → Phase → List ScaleEvent
scale_events previous desired now ready =
    if ltb previous desired && now == desired
    then scaled_up previous desired ∷ []
    else if ltb desired previous && now == desired
    then scaled_down previous desired ∷ []
    else []
scale_events previous desired now phase = []

abbrev pub events_of : ℕ → ℕ → Cluster → Exit → List ScaleEvent
unfolding scale_events
events_of previous desired s crashes = []
events_of previous desired s (exits p (some e)) = []
events_of previous desired s (exits p none) = scale_events previous desired s.replicas p

-- the cluster is not yet there
abbrev pub is_waiting : Cluster → Bool
is_waiting s = s.ready_replicas == 0 || (not s.initialized || not s.captain_ready)

unfoldable pub after_status : Rest → Server → StatefulSet → ℕ → ℕ → Cluster → Ending
unfolding events_of
after_status rest server sts previous desired s =
    let o = update_pods server (search_head_manager rest) sts desired s in
    if is_waiting s then leave pending none s else record {
      exit = o.exit;
      cluster = o.manager;
      calls = o.log;
      events = events_of previous desired o.manager o.exit;
    }

-- `applied` and `secret` are the errors of `ApplyStatefulSet` and `ApplyShcSecret`; `count` is the
-- StatefulSet's `Status.Replicas`
unfoldable pub update :
    Rest → Server → StatefulSet → ℕ → ℕ → Option Err → Option Err → Cluster → Ending
unfolding after_status
update rest server sts count desired (some e) secret s = leave error (some e) s
update rest server sts count desired none (some e) s = leave error (some e) s
update rest server sts count desired none none s =
    after_status rest server sts s.replicas desired (update_status rest sts.ready_replicas count s)
