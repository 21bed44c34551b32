-- ===== src/Strategy/Tests.antt =====
-- Strategies of a portfolio, and the theorem at concrete inputs.
use stellar_portfolio_rebala.Prelude.{◌≡◌, refl, ◌↔◌, true, false, none, some, [], ◌∷◌}
use stellar_portfolio_rebala.Prelude.Table.{Table, lookup, insert}
use stellar_portfolio_rebala.Number.{int}
use stellar_portfolio_rebala.Number.Fixed.{Fixed, fixed_number}
use stellar_portfolio_rebala.Decimal.{round_half_up}
use stellar_portfolio_rebala.Market.{PriceData}
use stellar_portfolio_rebala.Strategy.{
  StrategyPortfolio, periodic, threshold_of, current_values, decide, drifts_of, threshold_strategy,
  periodic_strategy, should_rebalance_by_strategy,
}
use stellar_portfolio_rebala.Strategy.Threshold.{Triggers, threshold_strategy_iff}

abbrev quote : PriceData Fixed
quote = record { price = int 1; change = int 1; timestamp = int 0 }

abbrev prices : Table (PriceData Fixed)
prices = ("XLM", quote) ∷ ("USDC", quote) ∷ ("BTC", quote) ∷ []

-- 60% XLM and 40% USDC, to be 80% BTC and 20% USDC.
abbrev portfolio : Table Fixed → StrategyPortfolio Fixed
portfolio allocations = record {
  allocations = allocations;
  balances = some (("XLM", int 60) ∷ ("USDC", int 40) ∷ []);
  threshold = none;
  last_rebalance = int 0;
  strategy = some periodic;
  strategy_config = none;
}

abbrev usdc_first : StrategyPortfolio Fixed
usdc_first = portfolio (("USDC", int 20) ∷ ("BTC", int 80) ∷ [])

abbrev btc_first : StrategyPortfolio Fixed
btc_first = portfolio (("BTC", int 80) ∷ ("USDC", int 20) ∷ [])

-- The answer depends on the order of the allocations.
asks_for_one : threshold_strategy usdc_first prices ≡ true
unfolding threshold_strategy current_values decide round_half_up lookup insert
asks_for_one = refl

asks_for_none : threshold_strategy btc_first prices ≡ false
unfolding threshold_strategy current_values decide round_half_up lookup insert
asks_for_none = refl

week_passed : should_rebalance_by_strategy 604_800_000 btc_first prices ≡ true
unfolding should_rebalance_by_strategy periodic_strategy
week_passed = refl

threshold_strategy_iff_example : (threshold_strategy usdc_first prices ≡ true) ↔ (
    (fixed_number.le (current_values usdc_first prices).1 (int 0) ≡ false)
    × Triggers (threshold_of usdc_first) (drifts_of usdc_first prices))
threshold_strategy_iff_example = threshold_strategy_iff usdc_first prices
