-- ===== src/RateLimit/Counts.antt =====
-- The counts of the rate limit monitor add up, and count the requests.
use stellar_portfolio_rebala.Prelude.{
  ℕ, ◌+◌, ◌≤◌, suc, String, ◌≡◌, refl, ap, ◌∙◌, Option, none, some, List, [], ◌∷◌, arith, str_eq,
  eq_iff, if◌then◌else◌,
}
use stellar_portfolio_rebala.Prelude.Table.{Table, insert, get_or, lookup, lookup-insert}
use stellar_portfolio_rebala.RateLimit.{
  RateLimitMetrics, Event, throttled, requested, reset, ip_of, endpoint_of, user_of, count_up,
  count_user, record_throttle, record_request, reset_metrics, step, run, empty_metrics,
}

-- The sum of a table's counts.
abbrev pub total : Table ℕ → ℕ
total [] = 0
total (e ∷ m) = e.1 + total m

total-insert :
    (k : String) (v : ℕ) (m : Table ℕ) → total (insert k v m) + get_or k m 0 ≡ total m + v
unfolding insert lookup
total-insert k v [] = omega arith
total-insert k v (e ∷ m) = ground (arith, total-insert k v m)

pub total-count_up : (k : String) (m : Table ℕ) → total (count_up k m) ≡ suc (total m)
unfolding count_up
total-count_up k m = omega (arith, total-insert k (get_or k m 0 + 1) m)

pub get_or-count_up :
    (k j : String) (m : Table ℕ)
    → get_or j (count_up k m) 0 ≡ (if str_eq k j then get_or j m 0 + 1 else get_or j m 0)
unfolding count_up
get_or-count_up k j m = ground (arith, lookup-insert k j (get_or k m 0 + 1) m, eq_iff k j)

-- Each throttled request is counted once by type, by endpoint and by address, and at most once by
-- user.
pub record IsBalanced (m : RateLimitMetrics) : Type 0 where
  pub by_type : total m.throttled_by_type ≡ m.throttled_requests
  pub by_endpoint : total m.throttled_by_endpoint ≡ m.throttled_requests
  pub by_ip : total m.throttled_by_ip ≡ m.throttled_requests
  pub by_user : total m.throttled_by_user ≤ m.throttled_requests

empty_metrics-IsBalanced : (now : ℕ) → IsBalanced (empty_metrics now)
empty_metrics-IsBalanced now = record {
  by_type = refl;
  by_endpoint = refl;
  by_ip = refl;
  by_user = omega arith;
}

total-count_user : (user : Option String) (m : Table ℕ) → total (count_user user m) ≤ suc (total m)
total-count_user none m = omega arith
total-count_user (some a) m = omega (arith, total-count_up a m)

step-IsBalanced : (e : Event) (m : RateLimitMetrics) → IsBalanced m → IsBalanced (step e m).0
unfolding step record_throttle record_request reset_metrics
step-IsBalanced (throttled req limit_type) m h = record {
  by_type = total-count_up limit_type m.throttled_by_type ∙ ap suc h.by_type;
  by_endpoint = total-count_up (endpoint_of req) m.throttled_by_endpoint ∙ ap suc h.by_endpoint;
  by_ip = total-count_up (ip_of req) m.throttled_by_ip ∙ ap suc h.by_ip;
  by_user = omega (arith, total-count_user (user_of req) m.throttled_by_user, h.by_user);
}
step-IsBalanced requested m h = record {
  by_type = h.by_type;
  by_endpoint = h.by_endpoint;
  by_ip = h.by_ip;
  by_user = h.by_user;
}
step-IsBalanced (reset now) m h = empty_metrics-IsBalanced now

-- Every run keeps the counts balanced: by type, by endpoint and by address they add up to the number
-- of throttled requests, and by user to no more.
pub run-IsBalanced :
    (es : List Event) (m : RateLimitMetrics) → IsBalanced m → IsBalanced (run es m).0
unfolding run
run-IsBalanced [] m h = h
run-IsBalanced (e ∷ es) m h = run-IsBalanced es (step e m).0 (step-IsBalanced e m h)

-- The throttled requests of an address since the last reset, after `before` of them.
abbrev pub throttles_of : String → List Event → ℕ → ℕ
throttles_of ip [] before = before
throttles_of ip (throttled req limit_type ∷ es) before =
    throttles_of ip es (if str_eq (ip_of req) ip then before + 1 else before)
throttles_of ip (requested ∷ es) before = throttles_of ip es before
throttles_of ip (reset now ∷ es) before = throttles_of ip es 0

-- After a run, the count of an address is the number of its requests throttled since the last
-- reset, added to its count before the run if there was none.
pub run-throttled_by_ip :
    (es : List Event) (m : RateLimitMetrics) (ip : String)
    → get_or ip (run es m).0.throttled_by_ip 0 ≡ throttles_of ip es (get_or ip m.throttled_by_ip 0)
unfolding run step record_throttle record_request reset_metrics lookup
run-throttled_by_ip [] m ip = refl
run-throttled_by_ip (throttled req limit_type ∷ es) m ip =
    run-throttled_by_ip es _ ip
    ∙ ap (throttles_of ip es) (get_or-count_up (ip_of req) ip m.throttled_by_ip)
run-throttled_by_ip (requested ∷ es) m ip = run-throttled_by_ip es _ ip
run-throttled_by_ip (reset now ∷ es) m ip = run-throttled_by_ip es (empty_metrics now) ip
