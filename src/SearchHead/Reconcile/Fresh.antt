-- ===== src/SearchHead/Reconcile/Fresh.antt =====
-- A search head is taken away only on what Splunk has just said.
use mathlib.Core.Path.{ap, sym}
use splunk_operator_mirror_d.StatefulSet.Update.{Server, StatefulSet}
use splunk_operator_mirror_d.SearchHead.Reconcile.{Server, StatefulSet}
use splunk_operator_mirror_d.SearchHead.Manager.{Rest, Member, manual_detention}
use splunk_operator_mirror_d.Api.{found}
use splunk_operator_mirror_d.Prelude.{ℕ, ◌≡◌, ap, sym}

-- The member answers that it is in manual detention and that no search runs on it.
abbrev pub SaysDrained : Rest → ℕ → Type 0
SaysDrained rest n =
    (m : Member) × (rest.member_info n ≡ found m)
    × (m.status ≡ manual_detention)
    × (m.historical_searches ≡ 0)
    × (m.realtime_searches ≡ 0)
