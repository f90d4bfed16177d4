-- ===== src/Indexer/Replication.antt =====
-- `verifyRFPeers` of indexercluster.go: the number of peers is raised to the replication factor.
-- Texts are lists of code points; a site replication factor has no line break. A result of `none` is
-- a run-time panic: a match that is not there is indexed.
pub mod Origin
pub mod Peers
use splunk_operator_mirror_d.AppFramework.Phases.{codes, is_prefix}
use splunk_operator_mirror_d.AppFramework.PodNames.{scan, dash, plus}
use splunk_operator_mirror_d.Prelude.{
  ◌>>=◌, pos, ◌∷◌, true, false, negsuc, some, zero, suc, [], none, ℕ, List, Option, Bool,
  if◌then◌else◌, ℤ, ◌==◌, ltb, leb, ◌^◌,
}

abbrev pub comma : ℕ
comma = 44

abbrev pub origin : List ℕ
origin = codes "origin:"

-- what stands before the last comma
unfoldable pub until_last_comma : List ℕ → Option (List ℕ)
until_last_comma [] = none
until_last_comma (c ∷ s) = elim (until_last_comma s) [
  | some r ↦ some (c ∷ r)
  | none ↦ if c == comma then some [] else none
]

abbrev pub drop_seven : List ℕ → List ℕ
drop_seven (a ∷ b ∷ c ∷ d ∷ e ∷ f ∷ g ∷ s) = s
drop_seven _ = []

-- the group of `.*origin:(?P<rf>.*),.*`, both of whose first stars are greedy
unfoldable pub capture : List ℕ → Option (List ℕ)
unfolding until_last_comma
capture [] = none
capture (c ∷ s) = elim (capture s) [
  | some r ↦ some r
  | none ↦ if is_prefix origin (c ∷ s) then until_last_comma (drop_seven (c ∷ s)) else none
]

-- `strconv.ParseInt(s, 10, 32)`; none is an error
abbrev pub digits_of : List ℕ → Option ℕ
digits_of [] = none
digits_of (c ∷ s) = scan (c ∷ s) 0

abbrev pub negate : ℕ → ℤ
negate zero = pos 0
negate (suc n) = negsuc n

unfoldable pub parse_int32 : List ℕ → Option ℤ
unfolding scan
parse_int32 [] = none
parse_int32 (c ∷ s) =
    if c == dash
    then (digits_of s >>= (λ n. if leb n (2 ^ 31) then some (negate n) else none))
    else (digits_of (if c == plus then s else c ∷ s)
        >>= (λ n. if ltb n (2 ^ 31) then some (pos n) else none))

abbrev pub or_zero : Option ℤ → ℤ
or_zero none = pos 0
or_zero (some n) = n

-- `getSiteRepFactorOriginCount`
unfoldable pub get_origin_count : List ℕ → Option ℤ
unfolding capture parse_int32
get_origin_count s = do r ← capture s; some (or_zero (parse_int32 r))

-- `ClusterInfo`: the fields that are read
pub record ClusterInfo : Type 0 where
  pub is_multi_site : Bool
  pub site_factor : List ℕ
  pub factor : ℤ

-- `requestedReplicas < replicationFactor`; the replicas are not negative
abbrev pub is_below : ℕ → ℤ → Bool
is_below n (pos m) = ltb n m
is_below n (negsuc m) = false

abbrev pub raised : ℕ → ℤ → ℕ
raised n (pos m) = m
raised n (negsuc m) = n

-- The replicas of the specification, whether the warning event is published, and whether an error
-- is returned.
pub record Verified : Type 0 where
  pub replicas : ℕ
  pub is_warned : Bool
  pub has_failed : Bool

abbrev pub check_factor : ℕ → ℤ → Verified
check_factor n factor =
    if is_below n factor
    then record { replicas = raised n factor; is_warned = true; has_failed = false }
    else record { replicas = n; is_warned = false; has_failed = false }

-- `verifyRFPeers`; the cluster's info is none on an error
unfoldable pub verify_rf_peers : Option ClusterInfo → ℕ → Option Verified
verify_rf_peers none n = some (record { replicas = n; is_warned = false; has_failed = true })
verify_rf_peers (some info) n =
    if info.is_multi_site
    then (get_origin_count info.site_factor >>= (λ factor. some (check_factor n factor)))
    else some (check_factor n info.factor)
