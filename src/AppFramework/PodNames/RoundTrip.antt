-- ===== src/AppFramework/PodNames/RoundTrip.antt =====
-- The ordinal that a pod's name is made with is read back from it.
use splunk_operator_mirror_d.AppFramework.Types.{Kind}
use splunk_operator_mirror_d.AppFramework.Phases.{codes}
use mathlib.Core.List.{append_assoc}
-- The digits of a number read as that number.
use splunk_operator_mirror_d.AppFramework.PodNames.{
  scan, emit, count_dashes, last_token, decimal, atoi, is_digit, unsigned, in_range, ℕ, Bool, dash,
  zero_digit, full_name, get_ordinal_val_from_pod_name, String, get_applicable_pod_name, codes, ltb,
  Kind, pod_type,
}
use splunk_operator_mirror_d.Prelude.{
  false, zero, some, suc, ◌∷◌, true, [], refl, List, ℕ, ◌<◌, ◌≡◌, ◌++◌, Bool, arith, ◌+◌, ◌>>=◌,
  ◌^◌, ◌/◌, ◌∙◌, ◌%◌, String, ◌≤◌, ltb, sym, ap,
}

pub scan-emit : (k n : ℕ) (out : List ℕ) → n < k → scan (emit k n out) 0 ≡ scan out n
unfolding scan emit is_digit
scan-emit zero n out h = absurd (omega arith)
scan-emit (suc k) n out h = ground (arith, scan-emit k (n / 10) ((zero_digit + n % 10) ∷ out))

count_dashes-emit : (k n : ℕ) (out : List ℕ) → count_dashes (emit k n out) ≡ count_dashes out
unfolding emit count_dashes
count_dashes-emit zero n out = refl
count_dashes-emit (suc k) n out =
    ground (arith, count_dashes-emit k (n / 10) ((zero_digit + n % 10) ∷ out))

count_dashes-append : (s t : List ℕ) → count_dashes (s ++ t) ≡ count_dashes s + count_dashes t
unfolding count_dashes
count_dashes-append [] t = omega arith
count_dashes-append (c ∷ s) t = ground (arith, count_dashes-append s t)

last_token-append : (s t : List ℕ) → count_dashes t ≡ 0 → last_token (s ++ dash ∷ t) ≡ t
unfolding last_token count_dashes
last_token-append [] t h = ground arith
last_token-append (c ∷ s) t h =
    ground (arith, last_token-append s t h, count_dashes-append s (dash ∷ t))

abbrev pub starts_with_digit : List ℕ → Bool
starts_with_digit [] = false
starts_with_digit (c ∷ s) = is_digit c

pub starts_with_digit-emit :
    (k n : ℕ) (out : List ℕ)
    → starts_with_digit out ≡ true
    → starts_with_digit (emit k n out) ≡ true
unfolding emit is_digit
starts_with_digit-emit zero n out h = h
starts_with_digit-emit (suc k) n out h =
    ground (arith, starts_with_digit-emit k (n / 10) ((zero_digit + n % 10) ∷ out))

starts_with_digit-decimal : (n : ℕ) → starts_with_digit (decimal n) ≡ true
unfolding decimal emit is_digit
starts_with_digit-decimal n =
    ground (arith, starts_with_digit-emit n (n / 10) ((zero_digit + n % 10) ∷ []))

atoi-scan : (s : List ℕ) → starts_with_digit s ≡ true → atoi s ≡ (scan s 0 >>= in_range)
unfolding atoi unsigned is_digit
atoi-scan [] h = cc
atoi-scan (c ∷ s) h = ground arith

atoi-decimal : (n : ℕ) → n < 2 ^ 63 → atoi (decimal n) ≡ some n
unfolding decimal in_range scan
atoi-decimal n h =
    atoi-scan (decimal n) (starts_with_digit-decimal n)
    ∙ rw (scan-emit (suc n) n [] (omega arith)) (ground arith)

decimal-no_dash : (n : ℕ) → count_dashes (decimal n) ≡ 0
unfolding decimal count_dashes
decimal-no_dash n = count_dashes-emit (suc n) n []

-- What precedes the ordinal, without the last dash.
stem : String → String → List ℕ
stem name type = codes "splunk-" ++ (codes name ++ (dash ∷ codes type))

full_name-stem :
    (name type : String) (n : ℕ) → full_name name type n ≡ stem name type ++ (dash ∷ decimal n)
unfolding full_name stem
full_name-stem name type n =
    let inner = append_assoc (codes name) (dash ∷ codes type) (dash ∷ decimal n) in
    sym (
      append_assoc (codes "splunk-") (codes name ++ (dash ∷ codes type)) (dash ∷ decimal n)
      ∙ ap (λ s. codes "splunk-" ++ s) inner)

stem-dashes : (name type : String) → 2 ≤ count_dashes (stem name type)
unfolding stem count_dashes
stem-dashes name type = ground (arith, count_dashes-append (codes name) (dash ∷ codes type))

enough_dashes :
    (name type : String) (n : ℕ)
    → ltb (count_dashes (stem name type ++ (dash ∷ decimal n))) 3 ≡ false
unfolding count_dashes
enough_dashes name type n =
    ground (arith, stem-dashes name type, count_dashes-append (stem name type) (dash ∷ decimal n))

-- The ordinal that the name of a pod was made with is read back from the name, for every kind of
-- custom resource but the indexer cluster, which has no pod for the app framework, whatever the
-- custom resource is called, and for every ordinal that fits an int64.
pub get_ordinal_val_from_pod_name-get_applicable_pod_name :
    (kind : Kind) (type name : String) (ordinal : ℕ)
    → pod_type kind ≡ some type
    → ordinal < 2 ^ 63
    → get_ordinal_val_from_pod_name (get_applicable_pod_name kind name ordinal) ≡ some ordinal
unfolding get_ordinal_val_from_pod_name get_applicable_pod_name
get_ordinal_val_from_pod_name-get_applicable_pod_name kind type name ordinal known fits =
    rw
      (
        known,
        full_name-stem name type ordinal,
        enough_dashes name type ordinal,
        last_token-append (stem name type) (decimal ordinal) (decimal-no_dash ordinal),
      )
      (atoi-decimal ordinal fits)
