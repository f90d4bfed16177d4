-- ===== src/Indexer/Replication/Origin.antt =====
-- Which number is read from a site replication factor.
use splunk_operator_mirror_d.AppFramework.PodNames.RoundTrip.{
  starts_with_digit, scan-emit, starts_with_digit-emit,
}
use splunk_operator_mirror_d.AppFramework.Phases.{contains, is_prefix}
use splunk_operator_mirror_d.AppFramework.PodNames.{emit, decimal, scan, zero_digit, is_digit}
use splunk_operator_mirror_d.Indexer.Replication.{
  capture, until_last_comma, parse_int32, ℕ, comma, Bool, origin, ltb, get_origin_count, ℤ, or_zero,
  drop_seven,
}
use splunk_operator_mirror_d.Prelude.{
  ◌>>=◌, pos, ◌∷◌, inr, true, false, some, zero, suc, inl, [], none, refl, List, Option, ℕ, ◌++◌,
  Bool, ◌≡◌, arith, any_of, Option-cases, ◌/◌, ◌==◌, Bool-cases, if◌then◌else◌, ltb, ◌+◌, ◌^◌, ◌%◌,
  ◌∙◌, ℤ, ◌<◌, ap, ◌↔◌,
}

capture-none : (s : List ℕ) → contains s origin ≡ false → capture s ≡ none
unfolding capture
capture-none [] h = refl
capture-none (c ∷ s) h = ground (arith, capture-none s)

contains-emit : (k n : ℕ) (out : List ℕ) → contains (emit k n out) origin ≡ contains out origin
unfolding emit
contains-emit zero n out = refl
contains-emit (suc k) n out = ground (arith, contains-emit k (n / 10) ((zero_digit + n % 10) ∷ out))

emit-append : (k n : ℕ) (out t : List ℕ) → emit k n out ++ t ≡ emit k n (out ++ t)
unfolding emit
emit-append zero n out t = refl
emit-append (suc k) n out t = ground (arith, emit-append k (n / 10) ((zero_digit + n % 10) ∷ out) t)

contains-decimal :
    (n : ℕ) (rest : List ℕ)
    → contains rest origin ≡ false
    → contains (decimal n ++ (comma ∷ rest)) origin ≡ false
unfolding decimal
contains-decimal n rest h =
    rw (emit-append (suc n) n [] (comma ∷ rest))
      (contains-emit (suc n) n (comma ∷ rest) ∙ ground arith)

abbrev pub has_comma : List ℕ → Bool
has_comma s = any_of (λ c. c == comma) s

-- what the capture keeps of a tail that follows a comma
abbrev kept : Option (List ℕ) → List ℕ
kept none = []
kept (some r) = comma ∷ r

until_last_comma-append :
    (s t : List ℕ) → until_last_comma (s ++ (comma ∷ t)) ≡ some (s ++ kept (until_last_comma t))
unfolding until_last_comma
until_last_comma-append [] t = ground arith
until_last_comma-append (c ∷ s) t = ground (arith, until_last_comma-append s t)

until_last_comma-none : (t : List ℕ) → has_comma t ≡ false → until_last_comma t ≡ none
unfolding until_last_comma
until_last_comma-none [] h = refl
until_last_comma-none (c ∷ t) h = ground (arith, until_last_comma-none t)

until_last_comma-some :
    (t : List ℕ) → has_comma t ≡ true → (r : List ℕ) × (until_last_comma t ≡ some r)
unfolding until_last_comma
until_last_comma-some [] h = cc
until_last_comma-some (c ∷ t) h = elim (Option-cases (until_last_comma t)) [
  | inr (r, e) ↦ (c ∷ r, ground arith)
  | inl e ↦ elim (Bool-cases (c == comma)) [
    | inl same ↦ ([], ground arith)
    | inr other ↦ let (r, f) = until_last_comma-some t (ground arith) in absurd (ground arith)
  ]
]

capture-origin :
    (s : List ℕ) → contains s origin ≡ false → capture (origin ++ s) ≡ until_last_comma s
unfolding capture
capture-origin s h = ground (arith, capture-none s h)

-- Whatever stands before the last origin is skipped.
capture-append : (front s r : List ℕ) → capture s ≡ some r → capture (front ++ s) ≡ some r
unfolding capture
capture-append [] s r h = h
capture-append (c ∷ front) s r h = ground (arith, capture-append front s r h)

-- a text that starts with the digits of a number
decimal-start : (n : ℕ) (t : List ℕ) → starts_with_digit (emit (suc n) n t) ≡ true
unfolding emit is_digit
decimal-start n t = ground (arith, starts_with_digit-emit n (n / 10) ((zero_digit + n % 10) ∷ t))

abbrev pub bounded : ℕ → Option ℤ
bounded m = if ltb m (2 ^ 31) then some (pos m) else none

parse_int32-scan :
    (s : List ℕ) → starts_with_digit s ≡ true → parse_int32 s ≡ (scan s 0 >>= bounded)
unfolding parse_int32 is_digit
parse_int32-scan [] h = cc
parse_int32-scan (c ∷ s) h = ground arith

parse_int32-decimal : (n : ℕ) (t : List ℕ) → parse_int32 (decimal n ++ t) ≡ (scan t n >>= bounded)
unfolding decimal
parse_int32-decimal n t = rw (emit-append (suc n) n [] t) (
    parse_int32-scan (emit (suc n) n t) (decimal-start n t)
    ∙ rw (scan-emit (suc n) n t (omega arith)) refl)

get_origin_count-capture :
    (s r : List ℕ) → capture s ≡ some r → get_origin_count s ≡ some (or_zero (parse_int32 r))
unfolding get_origin_count
get_origin_count-capture s r h = ground arith

-- what is captured where the origin's count is the first entry
captured :
    (front : List ℕ) (n : ℕ) (rest : List ℕ)
    → contains rest origin ≡ false
    → capture (front ++ (origin ++ (decimal n ++ (comma ∷ rest))))
      ≡ some (decimal n ++ kept (until_last_comma rest))
captured front n rest once =
    capture-append front (origin ++ (decimal n ++ (comma ∷ rest)))
      (decimal n ++ kept (until_last_comma rest))
      (capture-origin (decimal n ++ (comma ∷ rest)) (contains-decimal n rest once)
        ∙ until_last_comma-append (decimal n) rest)

parsed :
    (n : ℕ) (rest : List ℕ)
    → n < 2 ^ 31
    → or_zero (parse_int32 (decimal n ++ kept (until_last_comma rest)))
      ≡ (if has_comma rest then pos 0 else pos n)
unfolding scan is_digit
parsed n rest fits = elim (Bool-cases (has_comma rest)) [
  | inr single ↦
      rw (single, until_last_comma-none rest single, parse_int32-decimal n []) (ground arith)
  | inl more ↦
      let (r, cut) = until_last_comma-some rest more in
      rw (more, cut, parse_int32-decimal n (comma ∷ r)) (ground arith)
]

-- A site replication factor in which the count `n`, below 2 ^ 31, and a comma follow the last
-- `origin:`: the count is read as it was written if that is the last comma, and as 0 if there are
-- more.
pub get_origin_count-decimal :
    (front : List ℕ) (n : ℕ) (rest : List ℕ)
    → n < 2 ^ 31
    → contains rest origin ≡ false
    → get_origin_count (front ++ (origin ++ (decimal n ++ (comma ∷ rest))))
      ≡ some (if has_comma rest then pos 0 else pos n)
get_origin_count-decimal front n rest fits once =
    get_origin_count-capture (front ++ (origin ++ (decimal n ++ (comma ∷ rest))))
      (decimal n ++ kept (until_last_comma rest)) (captured front n rest once)
    ∙ ap some (parsed n rest fits)

is_prefix-origin : (s : List ℕ) → is_prefix origin s ≡ true → s ≡ origin ++ drop_seven s
is_prefix-origin (a ∷ b ∷ c ∷ d ∷ e ∷ f ∷ g ∷ s) h = ground arith
is_prefix-origin _ h = ground arith

until_last_comma-split :
    (s r : List ℕ) → until_last_comma s ≡ some r → (rest : List ℕ) × (s ≡ r ++ (comma ∷ rest))
unfolding until_last_comma
until_last_comma-split [] r h = cc
until_last_comma-split (c ∷ s) r h = elim (Option-cases (until_last_comma s)) [
  | inr (q, e) ↦
      let (rest, f) = until_last_comma-split s q e in
      let same : r ≡ c ∷ q = ground arith in (rest, rw same (ap (λ l. c ∷ l) f))
  | inl e ↦ (s, ground arith)
]

-- The text has an `origin:` with a comma after it.
abbrev pub Matches : List ℕ → Type 0
Matches s =
    (front : List ℕ) × (r : List ℕ) × (rest : List ℕ) × (s
      ≡ front ++ (origin ++ (r ++ (comma ∷ rest))))

capture-Matches : (s r : List ℕ) → capture s ≡ some r → Matches s
unfolding capture
capture-Matches [] r h = cc
capture-Matches (c ∷ s) r h = elim (Option-cases (capture s)) [
  | inr (q, e) ↦
      let (front, t, rest, f) = capture-Matches s q e in (c ∷ front, t, rest, ap (λ l. c ∷ l) f)
  | inl e ↦ elim (Bool-cases (is_prefix origin (c ∷ s))) [
    | inr other ↦ absurd (ground arith)
    | inl here ↦
        let (rest, f) = until_last_comma-split (drop_seven (c ∷ s)) r (ground arith) in
        ([], r, rest, is_prefix-origin (c ∷ s) here ∙ ap (λ l. origin ++ l) f)
  ]
]

capture-origin-none : (s : List ℕ) → capture s ≡ none → capture (origin ++ s) ≡ until_last_comma s
unfolding capture
capture-origin-none s h = ground arith

capture-some :
    (front r rest : List ℕ)
    → (q : List ℕ) × (capture (front ++ (origin ++ (r ++ (comma ∷ rest)))) ≡ some q)
capture-some front r rest =
    let s = r ++ (comma ∷ rest) in
    elim (Option-cases (capture s)) [
      | inr (q, e) ↦ (q, capture-append front (origin ++ s) q (capture-append origin s q e))
      | inl e ↦
          let q = r ++ kept (until_last_comma rest) in
          (
            q,
            capture-append front (origin ++ s) q
                (capture-origin-none s e ∙ until_last_comma-append r rest),
          )
    ]

-- Reading the count of the origin panics exactly if the text does not match.
pub get_origin_count-none : (s : List ℕ) → (get_origin_count s ≡ none) ↔ (¬ Matches s)
unfolding get_origin_count
get_origin_count-none s = (
  λ h (front, r, rest, e).
      let (q, there) = capture-some front r rest in
      let seen : capture s ≡ some q = rw e there in ground arith,
  λ other. elim (Option-cases (capture s)) [
    | inl e ↦ ground arith
    | inr (q, e) ↦ absurd (other (capture-Matches s q e))
  ],
)
