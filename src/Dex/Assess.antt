-- ===== src/Dex/Assess.antt =====
-- The assessment of trades without executing them.
use stellar_portfolio_rebala.Prelude.{
  ℕ, String, not, ◌&&◌, ◌||◌, Option, none, some, List, [], ◌∷◌, ◌++◌, length, template, ◌==◌, ltb,
  if◌then◌else◌,
}
use stellar_portfolio_rebala.Prelude.Table.{Table}
use stellar_portfolio_rebala.Number.{Number, int, gt}
use stellar_portfolio_rebala.Decimal.{round_stellar, format_bps, price_limit, add_stroop_fee}
use stellar_portfolio_rebala.Async.{returned, thrown, Run, ◌>>=◌, pure}
use stellar_portfolio_rebala.Dex.Types.{
  Float, DexTradeRequest, RebalanceExecutionConfig, RequestedConfig, MarketAssessment, Sdk, Horizon,
}
use stellar_portfolio_rebala.Dex.Settings.{execution_config, get_effective_trade_slippage}
use stellar_portfolio_rebala.Dex.Exchange.{assess_market}
use stellar_portfolio_rebala.Dex.Trade.{
  TradeLimits, assets_of, no_market, spread_reason, liquidity_reason,
}

pub data AssessmentStatus : Type 0 where
  executable skipped : AssessmentStatus

pub record DexTradeAssessmentResult (F : Type 0) : Type 0 where
  pub trade_id : String
  pub from_asset : String
  pub to_asset : String
  pub requested_amount : F
  pub estimated_received_amount : F
  pub reference_price : F
  pub price_limit : F
  pub spread_bps : F
  pub slippage_bps : F
  pub liquidity_coverage : F
  pub status : AssessmentStatus
  pub skip_reason : Option String

-- A status of its own module, as `success`, `partial` and `failed` are also those of an execution.
pub data RebalanceStatus : Type 0 where
  success partial failed : RebalanceStatus

pub record DexRebalanceAssessmentResult (F : Type 0) : Type 0 where
  pub status : RebalanceStatus
  pub assessed_trades : List (DexTradeAssessmentResult F)
  pub executable_trades : List (DexTradeAssessmentResult F)
  pub skipped_trades : List (DexTradeAssessmentResult F)
  pub total_estimated_fee_xlm : F
  pub total_slippage_bps : F

pub record NetworkFee (F : Type 0) : Type 0 where
  pub total_fee_xlm : F
  pub fee_per_trade_xlm : F
  pub base_fee_stroops : ℕ

-- What the loop of the assessment changes.
pub record Assessment (F : Type 0) : Type 0 where
  pub assessed : List (DexTradeAssessmentResult F)
  pub to_execute : List (DexTradeAssessmentResult F)
  pub to_skip : List (DexTradeAssessmentResult F)
  pub slippage_weighted_sum : F
  pub slippage_weight : F

module _ {F : Type 0} ⦃n : Number F⦄ where
  open n use {add, mul, div, le, lt, to_text}

  abbrev pub skipped_result :
      DexTradeRequest F → F → MarketAssessment F → F → String → DexTradeAssessmentResult F
  skipped_result trade limit market amount reason = record {
    trade_id = trade.trade_id;
    from_asset = trade.from_asset;
    to_asset = trade.to_asset;
    requested_amount = amount;
    estimated_received_amount = int 0;
    reference_price = market.reference_price;
    price_limit = limit;
    spread_bps = market.spread_bps;
    slippage_bps = int 0;
    liquidity_coverage = market.liquidity_coverage;
    status = skipped;
    skip_reason = some reason;
  }

  -- The part after the market is assessed.
  unfoldable pub assess_in_market :
      DexTradeRequest F → TradeLimits F → F → MarketAssessment F → DexTradeAssessmentResult F
  assess_in_market trade limits amount market =
      let limit = price_limit market.reference_price limits.max_slippage_bps in
      if gt market.spread_bps limits.max_spread_bps
      then skipped_result trade market.reference_price market amount
          (spread_reason market.spread_bps limits.max_spread_bps)
      else if lt market.liquidity_coverage limits.min_liquidity_coverage
      then skipped_result trade market.reference_price market amount
          (liquidity_reason market.liquidity_coverage limits.min_liquidity_coverage)
      else if not (n.is_finite limit) || le limit (int 0)
      then skipped_result trade (int 0) market amount "Invalid limit price computed for trade"
      else record {
        trade_id = trade.trade_id;
        from_asset = trade.from_asset;
        to_asset = trade.to_asset;
        requested_amount = amount;
        estimated_received_amount = round_stellar (mul amount market.reference_price);
        reference_price = market.reference_price;
        price_limit = limit;
        spread_bps = market.spread_bps;
        slippage_bps = limits.max_slippage_bps;
        liquidity_coverage = market.liquidity_coverage;
        status = executable;
        skip_reason = none;
      }

  -- The limits that the configuration sets for a trade.
  abbrev pub limits_of : RebalanceExecutionConfig F → Option F → TradeLimits F
  limits_of config override = record {
    max_slippage_bps = get_effective_trade_slippage config override;
    max_spread_bps = config.max_spread_bps;
    min_liquidity_coverage = config.min_liquidity_coverage;
  }

  -- `slippageWeight > 0 ? slippageWeightedSum / slippageWeight : 0`
  abbrev pub average_slippage : F → F → F
  average_slippage weighted_sum weight =
      if gt weight (int 0) then div weighted_sum weight else int 0

  abbrev pub total_slippage_reason : F → F → String
  total_slippage_reason slippage max_slippage = template (
      "Rebalance slippage "
      ∷ format_bps slippage 2
      ∷ " bps exceeds max "
      ∷ to_text max_slippage
      ∷ " bps"
      ∷ [])

  -- The average is taken over the trades that were to be executed when they were assessed.
  abbrev weighed : DexTradeAssessmentResult F → Assessment F → Assessment F
  weighed a s =
      let notional = mul a.requested_amount a.reference_price in
      if gt a.requested_amount (int 0) && gt a.reference_price (int 0)
      then record s {
        slippage_weighted_sum = add s.slippage_weighted_sum (mul a.slippage_bps notional);
        slippage_weight = add s.slippage_weight notional;
      }
      else s

  abbrev skip_trade : DexTradeAssessmentResult F → Assessment F → Assessment F
  skip_trade a s = record s { assessed = s.assessed ++ a ∷ []; to_skip = s.to_skip ++ a ∷ [] }

  -- One round of the loop, once the trade is assessed.
  unfoldable pub add_assessment : F → DexTradeAssessmentResult F → Assessment F → Assessment F
  add_assessment max_slippage a s = elim a.status [
    | skipped ↦ skip_trade a s
    | executable ↦
        let s' = weighed a s in
        let slippage = average_slippage s'.slippage_weighted_sum s'.slippage_weight in
        if gt slippage max_slippage
        then skip_trade
            (record a {
              status = skipped;
              skip_reason = some (total_slippage_reason slippage max_slippage);
            })
            s'
        else record s' { assessed = s'.assessed ++ a ∷ []; to_execute = s'.to_execute ++ a ∷ [] }
  ]

  abbrev pub no_assessment : Assessment F
  no_assessment = record {
    assessed = [];
    to_execute = [];
    to_skip = [];
    slippage_weighted_sum = int 0;
    slippage_weight = int 0;
  }

  unfoldable pub assessment_result : F → Assessment F → DexRebalanceAssessmentResult F
  assessment_result fee s = record {
    status =
        if length s.to_execute == 0
        then failed
        else if ltb 0 (length s.to_skip)
        then partial
        else success;
    assessed_trades = s.assessed;
    executable_trades = s.to_execute;
    skipped_trades = s.to_skip;
    total_estimated_fee_xlm = fee;
    total_slippage_bps = average_slippage s.slippage_weighted_sum s.slippage_weight;
  }

  module _ ⦃float : Float F⦄ ⦃sdk : Sdk⦄ {H : Type 0} ⦃horizon : Horizon H⦄ where
    unfoldable pub estimate_network_fee_xlm : ℕ → Run H (NetworkFee F)
    estimate_network_fee_xlm trade_count = do
      base_fee ← horizon.fetch_base_fee
      let fee = add_stroop_fee (int 0) (int base_fee)
      pure (record {
        total_fee_xlm = round_stellar (mul fee (int trade_count));
        fee_per_trade_xlm = fee;
        base_fee_stroops = base_fee;
      })

    unfoldable pub assess_single_trade :
        Table String → DexTradeRequest F → TradeLimits F → Run H (DexTradeAssessmentResult F)
    assess_single_trade issuers trade limits =
        let amount = round_stellar trade.amount in
        elim (assets_of issuers trade.from_asset trade.to_asset) [
          | thrown message ↦ pure (skipped_result trade (int 0) no_market amount message)
          | returned assets ↦
              if le amount (int 0)
              then pure (
                  skipped_result trade (int 0) no_market amount
                    "Trade amount must be greater than zero")
              else (do
                market ← assess_market assets.0 assets.1 amount
                pure (assess_in_market trade limits amount market))
        ]

    -- The loop over the trades.
    unfoldable pub assess_trades :
        Table String
        → RebalanceExecutionConfig F
        → List (DexTradeRequest F)
        → Assessment F
        → Run H (Assessment F)
    assess_trades issuers config [] s = pure s
    assess_trades issuers config (trade ∷ trades) s = do
      a ← assess_single_trade issuers trade (limits_of config trade.max_slippage_bps)
      assess_trades issuers config trades (add_assessment config.max_slippage_bps_per_rebalance a s)

    -- `env` is `process.env` at the call, `issuers` the table made by the constructor.
    unfoldable pub assess_rebalance_trades :
        Table String
        → Table String
        → List (DexTradeRequest F)
        → RequestedConfig F
        → Run H (DexRebalanceAssessmentResult F)
    assess_rebalance_trades env issuers trades requested = do
      fee ← estimate_network_fee_xlm (length trades)
      s ← assess_trades issuers (execution_config env requested) trades no_assessment
      pure (assessment_result fee.total_fee_xlm s)
