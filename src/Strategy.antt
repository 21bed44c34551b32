-- ===== src/Strategy.antt =====
-- backend/src/services/rebalancingStrategyService.ts: when a strategy asks for a rebalance.
pub mod Threshold
mod Tests
use stellar_portfolio_rebala.Prelude.{
  ℕ, String, Bool, true, false, Option, none, some, List, [], ◌∷◌, map, foldl, if◌then◌else◌,
}
use stellar_portfolio_rebala.Prelude.Table.{Table, lookup, insert, get_or, values}
use stellar_portfolio_rebala.Number.{Number, int, gt, max_of}
use stellar_portfolio_rebala.Decimal.{percentage, drift}
use stellar_portfolio_rebala.Market.{PriceData}

pub data RebalanceStrategyType : Type 0 where
  threshold periodic volatility custom : RebalanceStrategyType

pub record RebalanceStrategyConfig (F : Type 0) : Type 0 where
  pub interval_days : Option F
  pub volatility_threshold_pct : Option F
  pub min_days_between_rebalance : Option F

-- What a strategy reads of a portfolio.
pub record StrategyPortfolio (F : Type 0) : Type 0 where
  pub allocations : Table F
  pub balances : Option (Table F)
  pub threshold : Option F
  pub last_rebalance : F
  pub strategy : Option RebalanceStrategyType
  pub strategy_config : Option (RebalanceStrategyConfig F)

abbrev pub no_config : {F : Type 0} → RebalanceStrategyConfig F
no_config = record {
  interval_days = none;
  volatility_threshold_pct = none;
  min_days_between_rebalance = none;
}

abbrev pub or_default {ℓ} : {A : Type ℓ} → A → Option A → A
or_default d none = d
or_default d (some a) = a

module _ {F : Type 0} ⦃n : Number F⦄ where
  open n use {add, sub, mul, le, abs}

  -- `prices[asset]?.price ?? 0`
  abbrev pub price_or_zero : Table (PriceData F) → String → F
  price_or_zero prices asset = elim (lookup asset prices) [ none ↦ int 0 | some p ↦ p.price ]

  abbrev pub add_value : Table (PriceData F) → Table F × F → String × F → Table F × F
  add_value prices (current, total) (asset, balance) =
      let value = mul balance (price_or_zero prices asset) in
      (insert asset value current, add total value)

  -- The value of each asset held, and their sum.
  unfoldable pub current_values : StrategyPortfolio F → Table (PriceData F) → Table F × F
  current_values portfolio prices =
      foldl (add_value prices) ([], int 0) (or_default [] portfolio.balances)

  abbrev pub asset_drift : Table F → F → String × F → F
  asset_drift current total (asset, target) =
      drift (percentage (get_or asset current (int 0)) total) target

  -- The loop over the allocations, which stops at the first drift that decides.
  unfoldable pub decide : F → List F → Bool
  decide limit [] = false
  decide limit (d ∷ drifts) =
      let rest = decide limit drifts in
      if gt d (int 50) then false else if gt d limit then true else rest

  -- The drifts that the loop computes one by one.
  abbrev pub drifts_of : StrategyPortfolio F → Table (PriceData F) → List F
  drifts_of portfolio prices =
      let (current, total) = current_values portfolio prices in
      map (asset_drift current total) portfolio.allocations

  -- `portfolio.threshold ?? 5`
  abbrev pub threshold_of : StrategyPortfolio F → F
  threshold_of portfolio = or_default (int 5) portfolio.threshold

  unfoldable pub threshold_strategy : StrategyPortfolio F → Table (PriceData F) → Bool
  threshold_strategy portfolio prices =
      if le (current_values portfolio prices).1 (int 0)
      then false
      else decide (threshold_of portfolio) (drifts_of portfolio prices)

  abbrev pub days_ms : F → F
  days_ms days = mul (mul (mul (mul days (int 24)) (int 60)) (int 60)) (int 1000)

  unfoldable pub periodic_strategy : ℕ → StrategyPortfolio F → RebalanceStrategyConfig F → Bool
  periodic_strategy now portfolio config =
      le (days_ms (or_default (int 7) config.interval_days))
        (sub (int now) portfolio.last_rebalance)

  unfoldable pub volatility_strategy :
      StrategyPortfolio F → Table (PriceData F) → RebalanceStrategyConfig F → Bool
  volatility_strategy portfolio prices config =
      let max_abs_change = max_of (int 0) (map (λ p. abs p.change) (values prices)) in
      if le (or_default (int 10) config.volatility_threshold_pct) max_abs_change
      then true
      else threshold_strategy portfolio prices

  unfoldable pub custom_strategy :
      ℕ → StrategyPortfolio F → Table (PriceData F) → RebalanceStrategyConfig F → Bool
  custom_strategy now portfolio prices config =
      if n.lt (sub (int now) portfolio.last_rebalance)
        (days_ms (or_default (int 1) config.min_days_between_rebalance))
      then false
      else threshold_strategy portfolio prices

  unfoldable pub should_rebalance_by_strategy : ℕ → StrategyPortfolio F → Table (PriceData F) → Bool
  should_rebalance_by_strategy now portfolio prices =
      let config = or_default no_config portfolio.strategy_config in
      elim (or_default threshold portfolio.strategy) [
        | threshold ↦ threshold_strategy portfolio prices
        | periodic ↦ periodic_strategy now portfolio config
        | volatility ↦ volatility_strategy portfolio prices config
        | custom ↦ custom_strategy now portfolio prices config
      ]
