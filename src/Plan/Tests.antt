-- ===== src/Plan/Tests.antt =====
-- A run of the dry run, and its theorems at a concrete portfolio.
use stellar_portfolio_rebala.Prelude.{◌≡◌, refl, ◌⊎◌, none, some, [], ◌∷◌, map, get_elem?}
use stellar_portfolio_rebala.Prelude.Table.{Table, lookup, insert}
use stellar_portfolio_rebala.Prelude.Sort.{sort, insert_in_order, unique_after}
use stellar_portfolio_rebala.Number.{int}
use stellar_portfolio_rebala.Number.Fixed.{Fixed, fixed_number, Fixed-IsOrdered}
use stellar_portfolio_rebala.Market.{PriceData}
use stellar_portfolio_rebala.Decimal.{round_half_up}
use stellar_portfolio_rebala.Plan.{
  buy, sell, hold, Portfolio, RebalanceAssetPlan, RebalancePlan, asset_symbols,
  build_rebalance_plan, values_by_asset, plan_asset, plan_assets, project, buy_quantity,
  sell_quantity, read_base_fee_xlm,
}
use stellar_portfolio_rebala.Plan.Trades.{build_rebalance_plan-one_side}

abbrev price : Fixed → PriceData Fixed
price p = record { price = p; change = int 0; timestamp = int 0 }

-- 300 units of XLM at 1 and nothing else, to be halved; AQUA has no price.
abbrev portfolio : Portfolio Fixed
portfolio = record {
  id = "p";
  allocations = ("XLM", int 50) ∷ ("USDC", int 50) ∷ [];
  balances = ("XLM", int 300) ∷ ("AQUA", int 7) ∷ [];
  slippage_tolerance_percent = none;
  slippage_tolerance = some (int 1);
  threshold = int 5;
  strategy_enabled = none;
  last_rebalance = int 0;
}

abbrev prices : Table (PriceData Fixed)
prices = ("XLM", price (int 1)) ∷ ("USDC", price (int 1)) ∷ []

abbrev plan : RebalancePlan Fixed (Unit {0})
plan = build_rebalance_plan none portfolio prices tt

symbols_run : asset_symbols portfolio ≡ "AQUA" ∷ "USDC" ∷ "XLM" ∷ []
unfolding asset_symbols sort insert_in_order unique_after
symbols_run = refl

abbrev aqua : RebalanceAssetPlan Fixed
aqua = record {
  asset = "AQUA";
  action = hold;
  current_balance = int 7;
  current_value = int 0;
  current_allocation_percent = int 0;
  target_allocation_percent = int 0;
  target_value = int 0;
  drift_percent = int 0;
  buy_amount = int 0;
  sell_amount = int 0;
  trade_value = int 0;
  projected_balance = int 7;
  projected_value = int 0;
  projected_allocation_percent = int 0;
  price = int 0;
}

abbrev xlm : RebalanceAssetPlan Fixed
xlm = record {
  asset = "XLM";
  action = sell;
  current_balance = int 300;
  current_value = int 300;
  current_allocation_percent = int 100;
  target_allocation_percent = int 50;
  target_value = int 150;
  drift_percent = int 50;
  buy_amount = int 0;
  sell_amount = int 150;
  trade_value = int 150;
  projected_balance = int 150;
  projected_value = int 150;
  projected_allocation_percent = int 50;
  price = int 1;
}

actions_run : map (λ p. p.action) plan.assets ≡ hold ∷ buy ∷ sell ∷ []
unfolding build_rebalance_plan asset_symbols sort insert_in_order unique_after values_by_asset
    plan_asset plan_assets project buy_quantity sell_quantity round_half_up lookup insert
    read_base_fee_xlm
actions_run = refl

aqua_run : get_elem? plan.assets 0 ≡ some aqua
unfolding build_rebalance_plan asset_symbols sort insert_in_order unique_after values_by_asset
    plan_asset plan_assets project buy_quantity sell_quantity round_half_up lookup insert
    read_base_fee_xlm
aqua_run = refl

xlm_run : get_elem? plan.assets 2 ≡ some xlm
unfolding build_rebalance_plan asset_symbols sort insert_in_order unique_after values_by_asset
    plan_asset plan_assets project buy_quantity sell_quantity round_half_up lookup insert
    read_base_fee_xlm
xlm_run = refl

build_rebalance_plan-one_side_example : (xlm.buy_amount ≡ int 0) ⊎ (xlm.sell_amount ≡ int 0)
build_rebalance_plan-one_side_example =
    build_rebalance_plan-one_side Fixed-IsOrdered none portfolio prices tt 2 xlm xlm_run
