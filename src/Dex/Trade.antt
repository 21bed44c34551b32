-- ===== src/Dex/Trade.antt =====
-- One trade: the guards, the offer, and what is left of it.
use stellar_portfolio_rebala.Prelude.{
  ℕ, String, false, not, ◌||◌, Option, none, some, [], ◌∷◌, template, if◌then◌else◌,
}
use stellar_portfolio_rebala.Prelude.Table.{Table}
use stellar_portfolio_rebala.Number.{Number, int, gt}
use stellar_portfolio_rebala.Decimal.{round_stellar, format_stellar, format_bps, price_limit}
use stellar_portfolio_rebala.Async.{Outcome, returned, thrown, Run, ◌>>=◌, ◌>>◌, pure, catching}
use stellar_portfolio_rebala.Dex.Types.{
  Float, DexTradeRequest, ExecutionStatus, executed, partial, failed, is_failed,
  DexTradeExecutionResult, MarketAssessment, Asset, RawOfferRecord, Keypair, Sdk, Horizon,
}
use stellar_portfolio_rebala.Dex.Settings.{get_asset_object}
use stellar_portfolio_rebala.Dex.Exchange.{
  amount_to_string, assess_market, get_open_offers_by_id, find_new_offer, cancel_offer,
  try_get_average_trade_price, build_trade_memo,
}

-- Both assets, or the error of the first that fails.
abbrev pub assets_of : ⦃sdk : Sdk⦄ → Table String → String → String → Outcome (Asset × Asset)
assets_of issuers from_asset to_asset = elim (get_asset_object issuers from_asset) [
  | thrown message ↦ thrown message
  | returned first ↦ elim (get_asset_object issuers to_asset) [
    | thrown message ↦ thrown message
    | returned second ↦ returned (first, second)
  ]
]

-- The guards that a trade has to pass.
pub record TradeLimits (F : Type 0) : Type 0 where
  pub max_slippage_bps : F
  pub max_spread_bps : F
  pub min_liquidity_coverage : F

module _ {H : Type 0} ⦃horizon : Horizon H⦄ where
  -- The offer that the trade left open, which is looked for twice.
  unfoldable pub new_offer :
      String → Table RawOfferRecord → Asset → Asset → Run H (Option RawOfferRecord)
  new_offer account_id before from_asset to_asset = do
    after ← get_open_offers_by_id account_id
    elim (find_new_offer before after from_asset to_asset) [
      | some offer ↦ pure (some offer)
      | none ↦ do
        again ← get_open_offers_by_id account_id
        pure (find_new_offer before again from_asset to_asset)
    ]

module _ {F : Type 0} ⦃n : Number F⦄ where
  open n use {add, sub, mul, div, le, lt, to_text}

  abbrev pub no_market : MarketAssessment F
  no_market = record { reference_price = int 0; spread_bps = int 0; liquidity_coverage = int 0 }

  -- The result of a trade that executes nothing.
  abbrev pub failed_result :
      DexTradeRequest F → F → MarketAssessment F → F → String → DexTradeExecutionResult F
  failed_result trade limit market amount reason = record {
    trade_id = trade.trade_id;
    from_asset = trade.from_asset;
    to_asset = trade.to_asset;
    requested_amount = amount;
    executed_amount = int 0;
    estimated_received_amount = int 0;
    remaining_amount = amount;
    reference_price = market.reference_price;
    price_limit = limit;
    spread_bps = market.spread_bps;
    slippage_bps = int 0;
    liquidity_coverage = market.liquidity_coverage;
    status = failed;
    tx_hash = none;
    rollback_tx_hash = none;
    rolled_back = false;
    failure_reason = some reason;
  }

  abbrev pub spread_reason : F → F → String
  spread_reason spread max_spread =
      template
        ("Spread " ∷ format_bps spread 2 ∷ " bps exceeds max " ∷ to_text max_spread ∷ " bps" ∷ [])

  abbrev pub liquidity_reason : F → F → String
  liquidity_reason coverage min_coverage = template (
      "Liquidity coverage "
      ∷ format_bps coverage 2
      ∷ "x below required "
      ∷ to_text min_coverage
      ∷ "x"
      ∷ [])

  abbrev pub execution_status : F → F → ExecutionStatus
  execution_status executed_amount remaining =
      if le executed_amount (int 0)
      then failed
      else if gt remaining (int 0)
      then partial
      else executed

  -- `observedPrice && observedPrice > 0 ? observedPrice : market.referencePrice`
  abbrev pub execution_price : Option F → F → F
  execution_price none reference = reference
  execution_price (some observed) reference = if gt observed (int 0) then observed else reference

  -- The result of an offer that was placed, of which `remaining` was not filled.
  unfoldable pub filled_result :
      DexTradeRequest F
      → F
      → MarketAssessment F
      → F
      → String
      → F
      → Option F
      → DexTradeExecutionResult F
  filled_result trade limit market amount tx_hash remaining observed =
      let executed_amount = round_stellar (n.max (int 0) (sub amount remaining)) in
      let price = execution_price observed market.reference_price in
      let status = execution_status executed_amount remaining in
      record {
        trade_id = trade.trade_id;
        from_asset = trade.from_asset;
        to_asset = trade.to_asset;
        requested_amount = amount;
        executed_amount = executed_amount;
        estimated_received_amount = round_stellar (mul executed_amount price);
        remaining_amount = remaining;
        reference_price = market.reference_price;
        price_limit = limit;
        spread_bps = market.spread_bps;
        slippage_bps =
            if gt market.reference_price (int 0)
            then n.max (int 0)
                (mul (div (sub market.reference_price price) market.reference_price) (int 10_000))
            else int 0;
        liquidity_coverage = market.liquidity_coverage;
        status = status;
        tx_hash = some tx_hash;
        rollback_tx_hash = none;
        rolled_back = false;
        failure_reason =
            if is_failed status then some "Offer placed but no fill received" else none;
      }

  module _ ⦃float : Float F⦄ {H : Type 0} ⦃horizon : Horizon H⦄ where
    open float use {parse_float}
    open horizon use {load_account, submit}

    -- What the open offer has left, which is cancelled.
    unfoldable pub settle : Keypair → Asset → Asset → ℕ → Option RawOfferRecord → Run H F
    settle signer from_asset to_asset base_fee none = pure (int 0)
    settle signer from_asset to_asset base_fee (some offer) =
        let remaining = round_stellar (parse_float offer.amount) in
        if gt remaining (int 0)
        then (do cancel_offer F signer offer from_asset to_asset base_fee; pure remaining)
        else pure remaining

    -- The body of the `try`.
    unfoldable pub place_offer :
        Keypair
        → DexTradeRequest F
        → Asset × Asset
        → F
        → MarketAssessment F
        → F
        → ℕ
        → Run H (DexTradeExecutionResult F)
    place_offer signer trade (from_asset, to_asset) amount market limit base_fee = do
      before ← get_open_offers_by_id signer.public_key
      account ← load_account signer.public_key
      tx_hash ←
          submit signer account base_fee
            (record {
              selling = from_asset;
              buying = to_asset;
              amount = amount_to_string amount;
              price = format_stellar limit;
              offer_id = "0";
            })
            (build_trade_memo trade.trade_id)
      offer ← new_offer signer.public_key before from_asset to_asset
      remaining ← settle signer from_asset to_asset base_fee offer
      observed ← try_get_average_trade_price tx_hash
      pure (filled_result trade limit market amount tx_hash remaining observed)

    -- The part after the market is assessed.
    unfoldable pub execute_in_market :
        Keypair
        → DexTradeRequest F
        → TradeLimits F
        → ℕ
        → Asset × Asset
        → F
        → MarketAssessment F
        → Run H (DexTradeExecutionResult F)
    execute_in_market signer trade limits base_fee assets amount market =
        let limit = price_limit market.reference_price limits.max_slippage_bps in
        if gt market.spread_bps limits.max_spread_bps
        then pure (
            failed_result trade market.reference_price market amount
              (spread_reason market.spread_bps limits.max_spread_bps))
        else if lt market.liquidity_coverage limits.min_liquidity_coverage
        then pure (
            failed_result trade market.reference_price market amount
              (liquidity_reason market.liquidity_coverage limits.min_liquidity_coverage))
        else if not (n.is_finite limit) || le limit (int 0)
        then pure
            (failed_result trade (int 0) market amount "Invalid limit price computed for trade")
        else catching (λ message. failed_result trade limit market amount message)
            (place_offer signer trade assets amount market limit base_fee)

    module _ ⦃sdk : Sdk⦄ where
      unfoldable pub execute_single_trade :
          Table String
          → Keypair
          → DexTradeRequest F
          → TradeLimits F
          → ℕ
          → Run H (DexTradeExecutionResult F)
      execute_single_trade issuers signer trade limits base_fee =
          let amount = round_stellar trade.amount in
          elim (assets_of issuers trade.from_asset trade.to_asset) [
            | thrown message ↦ pure (failed_result trade (int 0) no_market amount message)
            | returned assets ↦
                if le amount (int 0)
                then pure (
                    failed_result trade (int 0) no_market amount
                      "Trade amount must be greater than zero")
                else (do
                  market ← assess_market assets.0 assets.1 amount
                  execute_in_market signer trade limits base_fee assets amount market)
          ]
