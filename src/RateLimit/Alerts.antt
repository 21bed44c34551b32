-- ===== src/RateLimit/Alerts.antt =====
-- How many alerts the monitor gives for an address between two resets.
use stellar_portfolio_rebala.Prelude.{
  ℕ, ◌+◌, ◌-◌, ◌≤◌, String, ◌≡◌, refl, inl, inr, subst, ap, ◌∙◌, Bool, true, false, ◌&&◌, Option,
  none, some, List, [], ◌∷◌, ◌++◌, arith, length, filter, str_eq, eq_iff, if◌then◌else◌, Bool-cases,
  leb, ltb, ◌==◌,
}
use stellar_portfolio_rebala.Prelude.Table.{get_or}
use stellar_portfolio_rebala.RateLimit.{
  RateLimitMetrics, Request, Alert, ip_activity, medium, critical, Event, throttled, requested,
  reset, ip_of, user_of, check_for_suspicious_activity, record_throttle, record_request, step, run,
}
use stellar_portfolio_rebala.RateLimit.Counts.{get_or-count_up, throttles_of, run-throttled_by_ip}

abbrev pub is_medium : String → Alert → Bool
is_medium ip (ip_activity medium a count) = str_eq a ip
is_medium ip _ = false

abbrev pub is_critical : String → Alert → Bool
is_critical ip (ip_activity critical a count) = str_eq a ip
is_critical ip _ = false

abbrev pub count_alerts : (Alert → Bool) → List Alert → ℕ
count_alerts test alerts = length (filter test alerts)

count_alerts-append :
    (test : Alert → Bool) (xs ys : List Alert)
    → count_alerts test (xs ++ ys) ≡ count_alerts test xs + count_alerts test ys
count_alerts-append test [] ys = omega arith
count_alerts-append test (x ∷ xs) ys = ground (arith, count_alerts-append test xs ys)

-- A run without a reset.
abbrev pub IsUnreset : List Event → Type 0
IsUnreset [] = Unit
IsUnreset (throttled req limit_type ∷ es) = IsUnreset es
IsUnreset (requested ∷ es) = IsUnreset es
IsUnreset (reset now ∷ es) = ⊥

-- The alerts of one throttled request, by the count of the address that is asked for.
check_alerts :
    (ip at : String) (user : Option String) (m : RateLimitMetrics)
    → (count_alerts (is_medium at) (check_for_suspicious_activity ip user m)
        ≡ (if str_eq ip at && get_or ip m.throttled_by_ip 0 == 50 then 1 else 0))
      × (count_alerts (is_critical at) (check_for_suspicious_activity ip user m)
          ≡ (if str_eq ip at && leb 100 (get_or ip m.throttled_by_ip 0) then 1 else 0))
unfolding check_for_suspicious_activity
check_alerts ip at none m = (ground arith, ground arith)
check_alerts ip at (some a) m = (ground arith, ground arith)

-- Where two texts are equal, a test of one is a test of the other.
test_at : (a b : String) (test : String → Bool) → str_eq a b && test a ≡ (str_eq a b && test b)
test_at a b test = elim (Bool-cases (str_eq a b)) [
  | inl e ↦ ap (λ t. str_eq a b && t) (ap test ((eq_iff a b).0 e))
  | inr e ↦ rw e refl
]

-- The alerts of a step, and its new count, by the count before it.
record_throttle-alerts :
    (req : Request) (limit_type : String) (m : RateLimitMetrics) (ip : String)
    → let count = get_or ip m.throttled_by_ip 0 in
      let same = str_eq (ip_of req) ip in
      let next = if same then count + 1 else count in
      let after = record_throttle req limit_type m in
      (get_or ip after.0.throttled_by_ip 0 ≡ next)
      × (count_alerts (is_medium ip) after.1 ≡ (if same && next == 50 then 1 else 0))
      × (count_alerts (is_critical ip) after.1 ≡ (if same && leb 100 next then 1 else 0))
unfolding record_throttle
record_throttle-alerts req limit_type m ip =
    let after = (record_throttle req limit_type m).0 in
    let counted = get_or-count_up (ip_of req) ip m.throttled_by_ip in
    let (mediums, criticals) = check_alerts (ip_of req) ip (user_of req) after in
    let same = str_eq (ip_of req) ip in
    let count : String → ℕ = λ j. get_or j after.throttled_by_ip 0 in
    let one : Bool → ℕ = λ b. if b then 1 else 0 in
    (
      counted,
      mediums
          ∙ ap one (test_at (ip_of req) ip (λ j. count j == 50))
          ∙ ap (λ c. one (same && c == 50)) counted,
      criticals
          ∙ ap one (test_at (ip_of req) ip (λ j. leb 100 (count j)))
          ∙ ap (λ c. one (same && leb 100 c)) counted,
    )

throttles_of-le :
    (ip : String) (es : List Event) (before : ℕ) → IsUnreset es → before ≤ throttles_of ip es before
throttles_of-le ip [] before h = omega arith
throttles_of-le ip (throttled req limit_type ∷ es) before h =
    let next = if str_eq (ip_of req) ip then before + 1 else before in
    ground (arith, throttles_of-le ip es next h)
throttles_of-le ip (requested ∷ es) before h = throttles_of-le ip es before h
throttles_of-le ip (reset now ∷ es) before h = elim h [ ]

run-count_le :
    (es : List Event) (m : RateLimitMetrics) (ip : String)
    → IsUnreset es
    → get_or ip m.throttled_by_ip 0 ≤ get_or ip (run es m).0.throttled_by_ip 0
run-count_le es m ip h =
    rw (run-throttled_by_ip es m ip) (throttles_of-le ip es (get_or ip m.throttled_by_ip 0) h)

-- The alerts from a count to a later one.
abbrev pub medium_between : ℕ → ℕ → ℕ
medium_between before after = if ltb before 50 && leb 50 after then 1 else 0

abbrev pub critical_between : ℕ → ℕ → ℕ
critical_between before after = (after - 99) - (before - 99)

medium_step :
    (same : Bool) (count after : ℕ)
    → let next = if same then count + 1 else count in
      next ≤ after
      → (if same && next == 50 then 1 else 0) + medium_between next after
        ≡ medium_between count after
medium_step true count after h = ground arith
medium_step false count after h = ground arith

critical_step :
    (same : Bool) (count after : ℕ)
    → let next = if same then count + 1 else count in
      next ≤ after
      → (if same && leb 100 next then 1 else 0) + critical_between next after
        ≡ critical_between count after
critical_step true count after h = ground arith
critical_step false count after h = ground arith

-- In a run without a reset, the number of alerts on an address is determined by its counts before
-- and after: one of medium severity if the count passes 50, and a critical one for each of its
-- throttled requests from the hundredth on.
pub run-alerts :
    (es : List Event) (m : RateLimitMetrics) (ip : String)
    → IsUnreset es
    → let before = get_or ip m.throttled_by_ip 0 in
      let after = get_or ip (run es m).0.throttled_by_ip 0 in
      (count_alerts (is_medium ip) (run es m).1 ≡ medium_between before after)
      × (count_alerts (is_critical ip) (run es m).1 ≡ critical_between before after)
unfolding run step record_request
run-alerts [] m ip h = (ground arith, ground arith)
run-alerts (throttled req limit_type ∷ es) m ip h =
    let after = record_throttle req limit_type m in
    let same = str_eq (ip_of req) ip in
    let count = get_or ip m.throttled_by_ip 0 in
    let last = get_or ip (run es after.0).0.throttled_by_ip 0 in
    let (next, mediums, criticals) = record_throttle-alerts req limit_type m ip in
    let (more_mediums, more_criticals) = run-alerts es after.0 ip h in
    let grown = run-count_le es after.0 ip h in
    let reached = subst (λ c. c ≤ last) next grown in
    (
      count_alerts-append (is_medium ip) after.1 (run es after.0).1
          ∙ cc (
            mediums,
            more_mediums,
            ap (λ c. medium_between c last) next,
            medium_step same count last reached,
          ),
      count_alerts-append (is_critical ip) after.1 (run es after.0).1
          ∙ cc (
            criticals,
            more_criticals,
            ap (λ c. critical_between c last) next,
            critical_step same count last reached,
          ),
    )
run-alerts (requested ∷ es) m ip h = run-alerts es (record_request m) ip h
run-alerts (reset now ∷ es) m ip h = elim h [ ]
