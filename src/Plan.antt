-- ===== src/Plan.antt =====
-- backend/src/services/rebalancePlan.ts: the dry run of a rebalance.
pub mod Assets
pub mod Quantities
pub mod Trades
mod Tests
use stellar_portfolio_rebala.Prelude.{
  ℕ, suc, String, Bool, true, false, Option, none, some, List, [], ◌∷◌, ◌++◌, map, foldl, ◌&&◌,
  length, ◌==◌, if◌then◌else◌,
}
use stellar_portfolio_rebala.Prelude.Table.{Table, lookup, insert, get_or, keys}
use stellar_portfolio_rebala.Prelude.Sort.{sort, text_le, unique_after}
use stellar_portfolio_rebala.Number.{Number, int, gt}
use stellar_portfolio_rebala.Market.{PriceData}
use stellar_portfolio_rebala.Decimal
use stellar_portfolio_rebala.Decimal.{
  round_stellar, percentage, target_value, asset_qty_from_value, drift,
}

pub data Action : Type 0 where
  buy : Action
  sell : Action
  hold : Action

-- The fields of `Portfolio` that a plan, a strategy or the automatic rebalancer reads: `strategy_enabled` is
-- `strategyConfig?.enabled`, and `last_rebalance` the time that the date `lastRebalance` parses to.
pub record Portfolio (F : Type 0) : Type 0 where
  pub id : String
  pub allocations : Table F
  pub balances : Table F
  pub slippage_tolerance_percent : Option F
  pub slippage_tolerance : Option F
  pub threshold : F
  pub strategy_enabled : Option Bool
  pub last_rebalance : F

pub record RebalanceAssetPlan (F : Type 0) : Type 0 where
  pub asset : String
  pub action : Action
  pub current_balance : F
  pub current_value : F
  pub current_allocation_percent : F
  pub target_allocation_percent : F
  pub target_value : F
  pub drift_percent : F
  pub buy_amount : F
  pub sell_amount : F
  pub trade_value : F
  pub projected_balance : F
  pub projected_value : F
  pub projected_allocation_percent : F
  pub price : F

pub record EstimatedFees (F : Type 0) : Type 0 where
  pub xlm : F
  pub usd : F
  pub per_trade_xlm : F
  pub trade_count : ℕ

-- The metadata of the price feed is passed on as it is.
pub record RebalancePlan (F Meta : Type 0) : Type 0 where
  pub portfolio_id : String
  pub total_value : F
  pub max_slippage_percent : F
  pub estimated_slippage_bps : F
  pub estimated_fees : EstimatedFees F
  pub assets : List (RebalanceAssetPlan F)
  pub projected_allocations : Table F
  pub prices : Option (Table (PriceData F))
  pub price_feed_meta : Meta

-- The union of the keys, each once, sorted.
unfoldable pub asset_symbols : {F : Type 0} → Portfolio F → List String
asset_symbols portfolio =
    sort text_le (unique_after [] (keys portfolio.allocations ++ keys portfolio.balances))

abbrev pub is_trade : Action → Bool
is_trade buy = true
is_trade sell = true
is_trade hold = false

module _ {F : Type 0} ⦃n : Number F⦄ where
  open n use {decimal, round}

  abbrev pub price_of : Table (PriceData F) → String → F
  price_of prices asset = elim (lookup asset prices) [ none ↦ int 0 | some p ↦ p.price ]

  -- The body of the first `reduce`: the table of values and their sum.
  abbrev pub add_value : Portfolio F → Table (PriceData F) → Table F × F → String → Table F × F
  add_value portfolio prices (values, total) asset =
      let value = Decimal.mul (get_or asset portfolio.balances (int 0)) (price_of prices asset) in
      (insert asset value values, Decimal.add total value)

  unfoldable pub values_by_asset : Portfolio F → Table (PriceData F) → Table F × F
  values_by_asset portfolio prices =
      foldl (add_value portfolio prices) ([], int 0) (asset_symbols portfolio)

  abbrev pub min_trade_value : F
  min_trade_value = decimal 1 2

  -- The amounts to buy and to sell for a difference in value at a price.
  unfoldable pub buy_quantity : F → F → F
  buy_quantity diff price =
      if gt diff min_trade_value && gt price (int 0) then asset_qty_from_value diff price else int 0

  unfoldable pub sell_quantity : F → F → F
  sell_quantity diff price =
      if n.lt diff (n.neg min_trade_value) && gt price (int 0)
      then asset_qty_from_value (n.abs diff) price
      else int 0

  abbrev pub action_of : F → F → Action
  action_of bought sold = if gt bought (int 0) then buy else if gt sold (int 0) then sell else hold

  abbrev pub balance_after : Action → F → F → F → F
  balance_after buy balance bought sold = Decimal.add balance bought
  balance_after sell balance bought sold = n.max (int 0) (Decimal.sub balance sold)
  balance_after hold balance bought sold = balance

  -- The body of the `map` over the assets.
  unfoldable pub plan_asset :
      Portfolio F → Table (PriceData F) → Table F → F → String → RebalanceAssetPlan F
  plan_asset portfolio prices values total asset =
      let price = price_of prices asset in
      let balance = get_or asset portfolio.balances (int 0) in
      let value = get_or asset values (int 0) in
      let percent = get_or asset portfolio.allocations (int 0) in
      let current = percentage value total in
      let target = target_value total percent in
      let diff = Decimal.sub target value in
      let bought = buy_quantity diff price in
      let sold = sell_quantity diff price in
      let action = action_of bought sold in
      let after = balance_after action balance bought sold in
      record {
        asset = asset;
        action = action;
        current_balance = balance;
        current_value = value;
        current_allocation_percent = current;
        target_allocation_percent = percent;
        target_value = target;
        drift_percent = drift current percent;
        buy_amount = bought;
        sell_amount = sold;
        trade_value = if gt (n.abs diff) min_trade_value then n.abs diff else int 0;
        projected_balance = after;
        projected_value = Decimal.mul after price;
        projected_allocation_percent = int 0;
        price = price;
      }

  -- The `map`, with the counter `tradeCount` that its body raises.
  unfoldable pub plan_assets :
      (String → RebalanceAssetPlan F) → List String → ℕ → List (RebalanceAssetPlan F) × ℕ
  plan_assets plan [] trade_count = ([], trade_count)
  plan_assets plan (asset ∷ assets) trade_count =
      let p = plan asset in
      let (ps, count) =
        plan_assets plan assets (if is_trade p.action then suc trade_count else trade_count) in
      (p ∷ ps, count)

  -- The loop that sets each asset's share of the projected total, and the table of the shares.
  unfoldable pub project :
      F → List (RebalanceAssetPlan F) → Table F → List (RebalanceAssetPlan F) × Table F
  project total [] allocations = ([], allocations)
  project total (p ∷ ps) allocations =
      let share = percentage p.projected_value total in
      let (qs, rest) = project total ps (insert p.asset share allocations) in
      (record p { projected_allocation_percent = share } ∷ qs, rest)

  -- `fee` is the environment's REBALANCE_DRY_RUN_BASE_FEE_STROOPS.
  unfoldable pub read_base_fee_xlm : Option String → F
  read_base_fee_xlm fee =
      let parsed : F = elim fee [ none ↦ n.nan | some text ↦ n.parse text ] in
      let stroops = if n.is_finite parsed && gt parsed (int 0) then parsed else int 100 in
      round_stellar (n.div stroops (int 10_000_000))

  abbrev pub slippage_percent : Portfolio F → F
  slippage_percent portfolio = elim portfolio.slippage_tolerance_percent [
    | some percent ↦ percent
    | none ↦ elim portfolio.slippage_tolerance [ some percent ↦ percent | none ↦ int 1 ]
  ]

  module _ {Meta : Type 0} where
    unfoldable pub build_rebalance_plan :
        Option String → Portfolio F → Table (PriceData F) → Meta → RebalancePlan F Meta
    build_rebalance_plan fee portfolio prices meta =
        let (values, total) = values_by_asset portfolio prices in
        let (planned, trades) =
          plan_assets (plan_asset portfolio prices values total) (asset_symbols portfolio) 0 in
        let projected_total = foldl (λ sum p. Decimal.add sum p.projected_value) (int 0) planned in
        let (assets, allocations) = project projected_total planned [] in
        let per_trade = read_base_fee_xlm fee in
        let total_fee = round_stellar (n.mul per_trade (int trades)) in
        record {
          portfolio_id = portfolio.id;
          total_value = total;
          max_slippage_percent = slippage_percent portfolio;
          estimated_slippage_bps = round (n.mul (slippage_percent portfolio) (int 100));
          estimated_fees = record {
            xlm = total_fee;
            usd = round_stellar (n.mul total_fee (price_of prices "XLM"));
            per_trade_xlm = per_trade;
            trade_count = trades;
          };
          assets = assets;
          projected_allocations = allocations;
          prices = if length prices == 0 then none else some prices;
          price_feed_meta = meta;
        }
