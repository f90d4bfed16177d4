-- ===== src/Indexer/Reconcile/Fresh.antt =====
-- An indexer is taken away only on what the cluster manager has just said.
use mathlib.Core.Path.{ap}
use splunk_operator_mirror_d.StatefulSet.Update.{Server, StatefulSet}
use splunk_operator_mirror_d.Indexer.Decommission.{is_gone}
use splunk_operator_mirror_d.Indexer.Reconcile.{Server, StatefulSet}
use splunk_operator_mirror_d.Api.{found}
use splunk_operator_mirror_d.Prelude.{some, true, ℕ, Option, ◌≡◌, ap}
use splunk_operator_mirror_d.Indexer.Manager.{Rest, Peer}

-- The cluster manager lists the peer of the pod `n`, and as one that has shut down.
abbrev pub SaysGone : Rest → ℕ → Type 0
SaysGone rest n =
    (known : ℕ → Option Peer) × (p : Peer) × (rest.manager_peers ≡ found known)
    × (known n ≡ some p)
    × (is_gone p.status ≡ true)
