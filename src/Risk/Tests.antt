-- ===== src/Risk/Tests.antt =====
-- Runs of `RiskManagementService` over fixed-point numbers, and the theorems at concrete inputs.
use stellar_portfolio_rebala.Prelude.{
  ℕ, ◌<◌, ◌≡◌, refl, true, false, some, List, [], ◌∷◌, arith, ◌↔◌,
}
use stellar_portfolio_rebala.Prelude.Int.{pos, negsuc}
use stellar_portfolio_rebala.Prelude.Table.{Table, lookup, insert}
use stellar_portfolio_rebala.Number.{IsNum, int, sum}
use stellar_portfolio_rebala.Number.Fixed.{Fixed, fixed, fixed_number, Fixed-IsOrdered}
use stellar_portfolio_rebala.Risk.Breakers.{
  new_service, initial_symbols, ingest, check_volatility, last_prices, check_circuit_breaker,
  push_bounded, update_asset, update_price_data, previous_price, get_circuit_breaker_status,
}
use stellar_portfolio_rebala.Risk.Correlation.{
  pearson_loop, correlation_of, calculate_pearson, identity_entry,
}
use stellar_portfolio_rebala.Risk.Histories.{
  IsValid, update_price_data-IsValid, new_service-IsValid,
}
use stellar_portfolio_rebala.Risk.Ladder.{
  IsAcceptable, should_allow_rebalance_iff, should_allow_rebalance-status,
}
use stellar_portfolio_rebala.Risk.Scores.{
  normalize_allocations, safe_ratio, calculate_concentration_risk, calculate_volatility_score,
  correlation_row, correlation_pairs, calculate_correlation_risk, analyze_portfolio_risk,
}
use stellar_portfolio_rebala.Risk.Stats.{
  insert_sorted, sort_numbers, calculate_var_and_cvar, windowed_returns, min_length,
  window_statistics, compute_statistical_risk_metrics,
}
use stellar_portfolio_rebala.Risk.Crash.{update, status, run, crash-should_allow_rebalance}
use stellar_portfolio_rebala.Risk.Decision.{should_allow_rebalance}
use stellar_portfolio_rebala.Risk.Types.{RiskService, circuit_breaker_active}

abbrev dollars : ℕ → Fixed
dollars k = int k

abbrev start : RiskService Fixed
start = new_service []

-- XLM at 100, and then at 130.
abbrev before : RiskService Fixed
before = (update_price_data 1000 (("XLM", dollars 100) ∷ []) start).0

abbrev half_each : Table Fixed
half_each = ("XLM", dollars 50) ∷ ("BTC", dollars 50) ∷ []

before_price : previous_price "XLM" before ≡ some (dollars 100)
unfolding initial_symbols lookup insert ingest check_volatility last_prices check_circuit_breaker
    push_bounded update_asset update_price_data
before_price = refl

crash-should_allow_rebalance_example :
    let s' = (update_price_data 2000 (("XLM", dollars 130) ∷ ("BTC", dollars 9) ∷ []) before).0 in
    let calls = update 3000 (("XLM", dollars 131) ∷ []) ∷ status 4000 ∷ [] in
    let decision = should_allow_rebalance 200_000 (run calls s') half_each in
    (decision.allowed ≡ false) × (decision.reason_code ≡ circuit_breaker_active)
crash-should_allow_rebalance_example =
    crash-should_allow_rebalance 2000 200_000 "XLM" (dollars 130) (dollars 100)
      (("BTC", dollars 9) ∷ []) before (update 3000 (("XLM", dollars 131) ∷ []) ∷ status 4000 ∷ [])
      half_each before_price refl refl (omega arith) (omega arith)

should_allow_rebalance_iff_example :
    ((should_allow_rebalance 2000 before half_each).allowed ≡ true)
    ↔ IsAcceptable 2000 before (analyze_portfolio_risk before half_each)
should_allow_rebalance_iff_example = should_allow_rebalance_iff 2000 before half_each

should_allow_rebalance-status_example :
    should_allow_rebalance 5000 (get_circuit_breaker_status 4000 before).0 half_each
    ≡ should_allow_rebalance 5000 before half_each
should_allow_rebalance-status_example =
    should_allow_rebalance-status 4000 5000 before half_each (omega arith)

update_price_data-IsValid_example :
    IsValid (update_price_data 1000 (("XLM", dollars 100) ∷ ("BTC", dollars 0) ∷ []) start).0
update_price_data-IsValid_example =
    update_price_data-IsValid 1000 (("XLM", dollars 100) ∷ ("BTC", dollars 0) ∷ []) start
      Fixed-IsOrdered (new_service-IsValid [])

-- Neither asset has two returns yet.
few_samples : (compute_statistical_risk_metrics before half_each).sample_size < 30
unfolding initial_symbols lookup insert ingest check_volatility last_prices check_circuit_breaker
    push_bounded update_asset update_price_data compute_statistical_risk_metrics window_statistics
    min_length windowed_returns
few_samples = omega arith

abbrev losses : List Fixed
losses = fixed (negsuc 4_999_999) ∷ fixed (pos 2_000_000) ∷ fixed (negsuc 99) ∷ []

losses-IsNum : IsNum (calculate_var_and_cvar losses).1
unfolding calculate_var_and_cvar sort_numbers insert_sorted sum
losses-IsNum = refl

pearson-IsNum : IsNum (calculate_pearson losses losses)
unfolding calculate_pearson pearson_loop correlation_of sum
pearson-IsNum = refl

scores-IsNum :
    IsNum (analyze_portfolio_risk start half_each).concentration_risk
    × IsNum (analyze_portfolio_risk start half_each).volatility
    × IsNum (analyze_portfolio_risk start half_each).correlation_risk
unfolding initial_symbols lookup insert analyze_portfolio_risk normalize_allocations sum safe_ratio
    calculate_concentration_risk calculate_volatility_score calculate_correlation_risk
    correlation_pairs correlation_row compute_statistical_risk_metrics window_statistics min_length
    windowed_returns identity_entry
scores-IsNum = (refl, refl, refl)
