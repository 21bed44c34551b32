-- ===== src/Market/Tests.antt =====
-- Runs of the market checks, and their theorems at concrete inputs.
use stellar_portfolio_rebala.Prelude.{◌≡◌, refl, ◌↔◌, true, false, [], ◌∷◌, any}
use stellar_portfolio_rebala.Prelude.Table.{Table, values}
use stellar_portfolio_rebala.Number.{int}
use stellar_portfolio_rebala.Number.Fixed.{Fixed, fixed_number}
use stellar_portfolio_rebala.Market.{
  PriceData, is_volatile, is_stale, check_volatility, check_data_freshness, check_correlation,
  check_market_conditions, check_trade_size,
}
use stellar_portfolio_rebala.Market.Laws.{moves_together, check_market_conditions_iff}

abbrev quote : Fixed → PriceData Fixed
quote change = record { price = int 1; change = change; timestamp = int 600 }

-- Three assets that rise by 6%.
abbrev rally : Table (PriceData Fixed)
rally = ("XLM", quote (int 6)) ∷ ("BTC", quote (int 6)) ∷ ("ETH", quote (int 6)) ∷ []

abbrev half_each : Table Fixed
half_each = ("XLM", int 50) ∷ ("USDC", int 50) ∷ []

calm_safe : (check_market_conditions 900000 (("XLM", quote (int 3)) ∷ [])).safe ≡ true
unfolding check_market_conditions check_volatility check_data_freshness check_correlation
calm_safe = refl

rally_unsafe : (check_market_conditions 900000 rally).safe ≡ false
unfolding check_market_conditions check_volatility check_data_freshness check_correlation
rally_unsafe = refl

small_trade_unsafe : (check_trade_size {F = Fixed} (int 5) (int 1000)).safe ≡ false
unfolding check_trade_size
small_trade_unsafe = refl

check_market_conditions_iff_example :
    ((check_market_conditions 900000 rally).safe ≡ true)
    ↔ (any is_volatile (values rally) ≡ false)
      × (any (is_stale 900000) (values rally) ≡ false)
      × (moves_together rally ≡ false)
check_market_conditions_iff_example = check_market_conditions_iff 900000 rally
