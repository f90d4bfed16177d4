-- ===== src/AppFramework/PodNames.antt =====
-- pkg/splunk/enterprise/afwscheduler.go: the name of the pod that a worker is for, and the ordinal
-- that is read back from it. Names are lists of code points; `fmt.Sprintf("%d")`, `strings.Count`,
-- `strings.Split` and `strconv.Atoi` are modelled as far as these two functions use them.
pub mod RoundTrip
pub mod Scenarios
use splunk_operator_mirror_d.Prelude.{
  zero, some, suc, ◌∷◌, [], none, ℕ, String, List, ◌/◌, Option, ◌++◌, if◌then◌else◌, Bool, ◌+◌,
  str_eq, ◌==◌, ltb, leb, ◌*◌, ◌>>=◌, ◌%◌, ◌&&◌, ◌-◌, ◌^◌,
}
use splunk_operator_mirror_d.AppFramework.Types.{
  ingestor_cluster, cluster_manager, search_head_cluster, cluster_master, standalone, other_kind,
  Kind,
}
use splunk_operator_mirror_d.AppFramework.Phases.{codes}

-- `-`, `+` and `0`
abbrev pub dash : ℕ
dash = 45

abbrev pub plus : ℕ
plus = 43

abbrev pub zero_digit : ℕ
zero_digit = 48

-- The digits of a number in front of a text: fuel, the number, the text.
unfoldable pub emit : ℕ → ℕ → List ℕ → List ℕ
emit zero n out = out
emit (suc k) n out =
    let longer = emit k (n / 10) ((zero_digit + n % 10) ∷ out) in
    if ltb n 10 then (zero_digit + n) ∷ out else longer

-- `%d` of a number that is not negative; a number has fewer digits than it counts up to.
unfoldable pub decimal : ℕ → List ℕ
decimal n = emit (suc n) n []

-- The type of the pod; none for the kind that has no pod here.
unfoldable pub pod_type : Kind → Option String
pod_type standalone = some "standalone"
pod_type search_head_cluster = some "deployer"
pod_type cluster_master = some "cluster-master"
pod_type cluster_manager = some "cluster-manager"
pod_type ingestor_cluster = some "ingestor"
pod_type (other_kind kind) =
    if str_eq kind "IndexerCluster"
    then none
    else if str_eq kind "LicenseManager"
    then some "license-manager"
    else if str_eq kind "LicenseMaster"
    then some "license-master"
    else if str_eq kind "MonitoringConsole"
    then some "monitoring-console"
    else some ""

-- `splunk-%s-%s-%d`
unfoldable pub full_name : String → String → ℕ → List ℕ
full_name name type ordinal =
    codes "splunk-" ++ (codes name ++ (dash ∷ (codes type ++ (dash ∷ decimal ordinal))))

abbrev pub name_for : Option String → String → ℕ → List ℕ
name_for none name ordinal = []
name_for (some type) name ordinal = full_name name type ordinal

unfoldable pub get_applicable_pod_name : Kind → String → ℕ → List ℕ
get_applicable_pod_name kind name ordinal = name_for (pod_type kind) name ordinal

-- `strings.Count(s, "-")`
unfoldable pub count_dashes : List ℕ → ℕ
count_dashes [] = 0
count_dashes (c ∷ s) = let rest = count_dashes s in if c == dash then suc rest else rest

-- The last of `strings.Split(s, "-")`: what follows the last dash.
unfoldable pub last_token : List ℕ → List ℕ
last_token [] = []
last_token (c ∷ s) =
    let later = last_token s in
    if ltb 0 (count_dashes s) then later else (if c == dash then s else c ∷ s)

unfoldable pub is_digit : ℕ → Bool
is_digit c = leb zero_digit c && leb c 57

-- The digits that follow a number.
unfoldable pub scan : List ℕ → ℕ → Option ℕ
scan [] n = some n
scan (c ∷ s) n = let rest = scan s (n * 10 + (c - zero_digit)) in if is_digit c then rest else none

unfoldable pub in_range : ℕ → Option ℕ
in_range n = if ltb n (2 ^ 63) then some n else none

unfoldable pub unsigned : List ℕ → Option ℕ
unsigned [] = none
unsigned (c ∷ s) = scan (c ∷ s) 0 >>= in_range

-- `strconv.Atoi` of a token, which has no dash and so no minus.
unfoldable pub atoi : List ℕ → Option ℕ
atoi [] = none
atoi (c ∷ s) = if c == plus then unsigned s else unsigned (c ∷ s)

-- None is an error.
unfoldable pub get_ordinal_val_from_pod_name : List ℕ → Option ℕ
get_ordinal_val_from_pod_name pod_name =
    if ltb (count_dashes pod_name) 3 then none else atoi (last_token pod_name)
