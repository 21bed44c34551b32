-- ===== src/RateLimit.antt =====
-- backend/src/services/rateLimitMonitor.ts: the counts of throttled requests and the alerts on them.
pub mod Counts
pub mod Alerts
pub mod Offenders
mod Tests
use stellar_portfolio_rebala.Prelude.{
  ℕ, ◌+◌, suc, String, Bool, true, false, not, ◌&&◌, Option, none, some, List, [], ◌∷◌, ◌++◌, map,
  ltb, leb, ◌==◌, template, str_eq, take, if◌then◌else◌,
}
use stellar_portfolio_rebala.Prelude.Table.{Table, insert, get_or}
use stellar_portfolio_rebala.Prelude.Sort.{sort}
use stellar_portfolio_rebala.Number.{Number, int}

pub record RateLimitMetrics : Type 0 where
  pub total_requests : ℕ
  pub throttled_requests : ℕ
  pub throttled_by_type : Table ℕ
  pub throttled_by_endpoint : Table ℕ
  pub throttled_by_ip : Table ℕ
  pub throttled_by_user : Table ℕ
  pub last_reset : ℕ

-- What the monitor reads of a request. `user` is the address of a signed-in user.
pub record Request : Type 0 where
  pub ip : Option String
  pub user : Option String
  pub method : String
  pub route_path : Option String
  pub path : String

pub data Severity : Type 0 where
  medium : Severity
  critical : Severity

-- A line of the log that warns of an address or a user, with the count at that time.
pub data Alert : Type 0 where
  ip_activity : Severity → String → ℕ → Alert
  user_activity : Severity → String → ℕ → Alert

abbrev pub empty_metrics : ℕ → RateLimitMetrics
empty_metrics now = record {
  total_requests = 0;
  throttled_requests = 0;
  throttled_by_type = [];
  throttled_by_endpoint = [];
  throttled_by_ip = [];
  throttled_by_user = [];
  last_reset = now;
}

-- `s || d` on a text that may be undefined.
abbrev pub text_or : Option String → String → String
text_or none d = d
text_or (some s) d = if str_eq s "" then d else s

abbrev pub ip_of : Request → String
ip_of req = text_or req.ip "unknown"

abbrev pub endpoint_of : Request → String
endpoint_of req = template (req.method ∷ " " ∷ text_or req.route_path req.path ∷ [])

-- The address of the user, if it is truthy.
abbrev pub user_of : Request → Option String
user_of req = elim req.user [ none ↦ none | some a ↦ if str_eq a "" then none else some a ]

-- `m[k] = (m[k] || 0) + 1`
unfoldable pub count_up : String → Table ℕ → Table ℕ
count_up k m = insert k (get_or k m 0 + 1) m

abbrev pub count_user : Option String → Table ℕ → Table ℕ
count_user none m = m
count_user (some a) m = count_up a m

abbrev pub alerts_if : Bool → Alert → List Alert
alerts_if b alert = if b then alert ∷ [] else []

-- No user has no count, and gives no alert.
abbrev pub count_of_user : Option String → RateLimitMetrics → ℕ
count_of_user none m = 0
count_of_user (some a) m = get_or a m.throttled_by_user 0

abbrev pub user_alerts_if : Bool → Severity → Option String → ℕ → List Alert
user_alerts_if b severity none count = []
user_alerts_if b severity (some a) count = alerts_if b (user_activity severity a count)

-- The order is that of the four tests.
unfoldable pub check_for_suspicious_activity :
    String → Option String → RateLimitMetrics → List Alert
check_for_suspicious_activity ip user m =
    let ip_count = get_or ip m.throttled_by_ip 0 in
    let user_count = count_of_user user m in
    alerts_if (ip_count == 50) (ip_activity medium ip ip_count)
    ++ user_alerts_if (user_count == 25) medium user user_count
    ++ alerts_if (leb 100 ip_count) (ip_activity critical ip ip_count)
    ++ user_alerts_if (leb 100 user_count) critical user user_count

unfoldable pub record_throttle : Request → String → RateLimitMetrics → RateLimitMetrics × List Alert
record_throttle req limit_type m =
    let m' : RateLimitMetrics = record m {
      throttled_requests = suc m.throttled_requests;
      throttled_by_type = count_up limit_type m.throttled_by_type;
      throttled_by_endpoint = count_up (endpoint_of req) m.throttled_by_endpoint;
      throttled_by_ip = count_up (ip_of req) m.throttled_by_ip;
      throttled_by_user = count_user (user_of req) m.throttled_by_user;
    } in
    (m', check_for_suspicious_activity (ip_of req) (user_of req) m')

unfoldable pub record_request : RateLimitMetrics → RateLimitMetrics
record_request m = record m { total_requests = suc m.total_requests }

unfoldable pub reset_metrics : ℕ → RateLimitMetrics → RateLimitMetrics
reset_metrics now m = empty_metrics now

module _ {F : Type 0} ⦃n : Number F⦄ where
  -- In percent, rounded to two places.
  unfoldable pub throttle_rate : RateLimitMetrics → F
  throttle_rate m =
      let rate =
        if ltb 0 m.total_requests
        then n.mul (n.div (int m.throttled_requests) (int m.total_requests)) (int 100)
        else int 0 in
      n.div (n.round (n.mul rate (int 100))) (int 100)

-- The larger count comes first.
abbrev pub by_count : String × ℕ → String × ℕ → Bool
by_count a b = leb b.1 a.1

unfoldable pub get_top_offenders_by_ip : RateLimitMetrics → ℕ → List (String × ℕ)
get_top_offenders_by_ip m limit = take limit (sort by_count m.throttled_by_ip)

unfoldable pub get_top_offenders_by_user : RateLimitMetrics → ℕ → List (String × ℕ)
get_top_offenders_by_user m limit = take limit (sort by_count m.throttled_by_user)

unfoldable pub get_throttling_by_endpoint : RateLimitMetrics → List (String × ℕ)
get_throttling_by_endpoint m = sort by_count m.throttled_by_endpoint

-- The calls that change the monitor.
pub data Event : Type 0 where
  throttled : Request → String → Event
  requested : Event
  reset : ℕ → Event

unfoldable pub step : Event → RateLimitMetrics → RateLimitMetrics × List Alert
step (throttled req limit_type) m = record_throttle req limit_type m
step requested m = (record_request m, [])
step (reset now) m = (reset_metrics now m, [])

-- A run, with the alerts in their order.
unfoldable pub run : List Event → RateLimitMetrics → RateLimitMetrics × List Alert
run [] m = (m, [])
run (e ∷ es) m = let (m', alerts) = step e m in let (m'', more) = run es m' in (m'', alerts ++ more)
