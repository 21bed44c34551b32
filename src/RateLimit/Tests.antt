-- ===== src/RateLimit/Tests.antt =====
-- Runs of the rate limit monitor, and its theorems at concrete inputs.
use stellar_portfolio_rebala.Prelude.{
  template, ◌≡◌, refl, none, some, String, List, [], ◌∷◌, any, false,
}
use stellar_portfolio_rebala.Prelude.Table.{get_or, insert, lookup}
use stellar_portfolio_rebala.Prelude.Sort.{sort, insert_in_order}
use stellar_portfolio_rebala.RateLimit.{
  RateLimitMetrics, Request, empty_metrics, Event, throttled, requested, run, step, record_throttle,
  record_request, count_up, check_for_suspicious_activity, get_top_offenders_by_ip,
}
use stellar_portfolio_rebala.RateLimit.Counts.{run-throttled_by_ip, throttles_of}
use stellar_portfolio_rebala.RateLimit.Alerts.{
  count_alerts, is_medium, is_critical, medium_between, critical_between, run-alerts,
}
use stellar_portfolio_rebala.RateLimit.Offenders.{is_entry}

abbrev request : String → Request
request address = record {
  ip = some address;
  user = none;
  method = "GET";
  route_path = none;
  path = "/";
}

-- Two addresses; the first one is throttled twice.
abbrev events : List Event
events =
    requested
    ∷ throttled (request "10.0.0.1") "global"
    ∷ throttled (request "10.0.0.2") "global"
    ∷ throttled (request "10.0.0.1") "global"
    ∷ []

abbrev after : RateLimitMetrics
after = record {
  total_requests = 1;
  throttled_requests = 3;
  throttled_by_type = ("global", 3) ∷ [];
  throttled_by_endpoint = ("GET /", 3) ∷ [];
  throttled_by_ip = ("10.0.0.1", 2) ∷ ("10.0.0.2", 1) ∷ [];
  throttled_by_user = [];
  last_reset = 5;
}

three_throttled : (run events (empty_metrics 5)).0 ≡ after
unfolding run step record_throttle record_request count_up insert lookup template
three_throttled = refl

run-throttled_by_ip_example :
    get_or "10.0.0.1" (run events after).0.throttled_by_ip 0
    ≡ throttles_of "10.0.0.1" events (get_or "10.0.0.1" after.throttled_by_ip 0)
run-throttled_by_ip_example = run-throttled_by_ip events after "10.0.0.1"

-- The first address is about to reach 50.
abbrev near : RateLimitMetrics
near = record after { throttled_requests = 50; throttled_by_ip = ("10.0.0.1", 49) ∷ [] }

one_medium : count_alerts (is_medium "10.0.0.1") (run events near).1 ≡ 1
unfolding run step record_throttle record_request count_up insert lookup
    check_for_suspicious_activity
one_medium = refl

run-alerts_example :
    (count_alerts (is_medium "10.0.0.1") (run events near).1
      ≡ medium_between
          (get_or "10.0.0.1" near.throttled_by_ip 0)
          (get_or "10.0.0.1" (run events near).0.throttled_by_ip 0))
    × (count_alerts (is_critical "10.0.0.1") (run events near).1
        ≡ critical_between
            (get_or "10.0.0.1" near.throttled_by_ip 0)
            (get_or "10.0.0.1" (run events near).0.throttled_by_ip 0))
run-alerts_example = run-alerts events near "10.0.0.1" tt

omitted_run : any (is_entry "10.0.0.2" 1) (get_top_offenders_by_ip after 1) ≡ false
unfolding get_top_offenders_by_ip sort insert_in_order
omitted_run = refl
