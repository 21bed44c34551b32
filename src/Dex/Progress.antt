-- ===== src/Dex/Progress.antt =====
-- The loop over the trades of a rebalance, without the calls.
use stellar_portfolio_rebala.Prelude.{
  String, false, not, ◌&&◌, none, some, List, [], ◌∷◌, ◌++◌, if◌then◌else◌,
}
use stellar_portfolio_rebala.Number.{Number, int, gt}
use stellar_portfolio_rebala.Dex.Types.{
  Float, DexTradeRequest, RebalanceExecutionConfig, RequestedConfig, ExecutionStatus, is_failed,
  is_partial, is_filled, DexTradeExecutionResult, DexRollbackResult, Keypair, Sdk, Horizon,
}
use stellar_portfolio_rebala.Dex.Types
use stellar_portfolio_rebala.Dex.Assess.{average_slippage, total_slippage_reason}

-- What the loop changes. The partial fills are the executed trades, the same objects, whose status
-- is partial.
pub record Progress (F : Type 0) : Type 0 where
  pub executed : List (DexTradeExecutionResult F)
  pub failures : List (DexTradeExecutionResult F)
  pub slippage_weighted_sum : F
  pub slippage_weight : F
  pub fee : F

-- Whether the loop goes on, and the progress.
pub data Step (F : Type 0) : Type 0 where
  next : Progress F → Step F
  stop : Progress F → Step F

module _ {F : Type 0} ⦃n : Number F⦄ where
  open n use {add, mul, div, le, lt, to_fixed, to_text}

  -- `{ ...tradeResult, status: 'failed', failureReason: reason }`
  abbrev pub as_failed : String → DexTradeExecutionResult F → DexTradeExecutionResult F
  as_failed reason t = record t { status = Types.failed; failure_reason = some reason }

  abbrev pub over_slippage :
      DexTradeRequest F → DexTradeExecutionResult F → F → F → DexTradeExecutionResult F
  over_slippage trade result slippage max_slippage = record {
    trade_id = trade.trade_id;
    from_asset = trade.from_asset;
    to_asset = trade.to_asset;
    requested_amount = trade.amount;
    executed_amount = int 0;
    estimated_received_amount = int 0;
    remaining_amount = trade.amount;
    reference_price = result.reference_price;
    price_limit = result.price_limit;
    spread_bps = result.spread_bps;
    slippage_bps = slippage;
    liquidity_coverage = result.liquidity_coverage;
    status = Types.failed;
    tx_hash = none;
    rollback_tx_hash = none;
    rolled_back = false;
    failure_reason = some (total_slippage_reason slippage max_slippage);
  }

  -- The slippage of what was executed, or the limit where none was measured, by its value.
  abbrev pub weigh_result : F → DexTradeExecutionResult F → Progress F → Progress F
  weigh_result effective t p =
      let notional = mul t.executed_amount t.reference_price in
      let measured = if gt t.slippage_bps (int 0) then t.slippage_bps else effective in
      if gt t.executed_amount (int 0)
      then record p {
        slippage_weighted_sum = add p.slippage_weighted_sum (mul measured notional);
        slippage_weight = add p.slippage_weight notional;
      }
      else p

  abbrev pub total_slippage : Progress F → F
  total_slippage p = average_slippage p.slippage_weighted_sum p.slippage_weight

  abbrev pub fail_with : DexTradeExecutionResult F → Progress F → Progress F
  fail_with t p = record p { failures = p.failures ++ t ∷ [] }

  -- One round of the loop, once the trade is executed.
  unfoldable pub after_trade :
      RebalanceExecutionConfig F
      → DexTradeRequest F
      → F
      → DexTradeExecutionResult F
      → Progress F
      → Step F
  after_trade config trade effective t p =
      let pushed = record p { executed = p.executed ++ t ∷ [] } in
      let weighed = weigh_result effective t pushed in
      if is_failed t.status
      then stop (fail_with t p)
      else if is_partial t.status && not config.allow_partial_fill
      then stop
          (fail_with (as_failed "Partial fill is not allowed by rebalance configuration" t) pushed)
      else if gt (total_slippage weighed) config.max_slippage_bps_per_rebalance
      then stop (
          fail_with
            (over_slippage trade t (total_slippage weighed) config.max_slippage_bps_per_rebalance)
            weighed)
      else next weighed

  abbrev pub no_progress : Progress F
  no_progress = record {
    executed = [];
    failures = [];
    slippage_weighted_sum = int 0;
    slippage_weight = int 0;
    fee = int 0;
  }
