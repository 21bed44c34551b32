-- ===== src/Dex/Agreement.antt =====
-- The assessment of a trade and its execution agree on the trades that are refused.
use stellar_portfolio_rebala.Prelude.{
  ℕ, String, ◌≡◌, refl, sym, ap, subst, ◌∙◌, inl, inr, false, not, ◌||◌, none, Bool-cases,
}
use stellar_portfolio_rebala.Prelude.Table.{Table}
use stellar_portfolio_rebala.Number.{Number, int, gt}
use stellar_portfolio_rebala.Decimal.{round_stellar, price_limit}
use stellar_portfolio_rebala.Async.{returned, ◌>>=◌}
use stellar_portfolio_rebala.Dex.Types.{
  Float, DexTradeRequest, DexTradeExecutionResult, failed, MarketAssessment, Asset, Keypair, Sdk,
  Horizon,
}
use stellar_portfolio_rebala.Async.Returns.{Outcome-cases, returned_injective, thrown_not_returned}
use stellar_portfolio_rebala.Dex.Exchange.{assess_market}
use stellar_portfolio_rebala.Dex.Trade.{
  TradeLimits, assets_of, execute_in_market, execute_single_trade,
}
use stellar_portfolio_rebala.Dex.Assess.{
  AssessmentStatus, executable, skipped, DexTradeAssessmentResult, assess_in_market,
  assess_single_trade,
}

abbrev IsSkipped : AssessmentStatus → Type 0
IsSkipped skipped = Unit
IsSkipped executable = ⊥

executable_not_skipped : executable ≡ skipped → ⊥
executable_not_skipped e = subst IsSkipped (sym e) tt

module _ {F : Type 0} ⦃n : Number F⦄ where
  -- The refusal of an execution that says what a skipped assessment says, and executes nothing.
  abbrev pub as_failure : DexTradeAssessmentResult F → DexTradeExecutionResult F
  as_failure a = record {
    trade_id = a.trade_id;
    from_asset = a.from_asset;
    to_asset = a.to_asset;
    requested_amount = a.requested_amount;
    executed_amount = int 0;
    estimated_received_amount = int 0;
    remaining_amount = a.requested_amount;
    reference_price = a.reference_price;
    price_limit = a.price_limit;
    spread_bps = a.spread_bps;
    slippage_bps = int 0;
    liquidity_coverage = a.liquidity_coverage;
    status = failed;
    tx_hash = none;
    rollback_tx_hash = none;
    rolled_back = false;
    failure_reason = a.skip_reason;
  }

  module _ ⦃float : Float F⦄ {H : Type 0} ⦃horizon : Horizon H⦄ (signer : Keypair)
      (trade : DexTradeRequest F) (limits : TradeLimits F) (base_fee : ℕ) where
    execute_in_market-assess_in_market :
        (assets : Asset × Asset) (amount : F) (market : MarketAssessment F) (h : H)
        → (assess_in_market trade limits amount market).status ≡ skipped
        → execute_in_market signer trade limits base_fee assets amount market h
          ≡ (returned (as_failure (assess_in_market trade limits amount market)), h)
    unfolding execute_in_market assess_in_market
    execute_in_market-assess_in_market assets amount market h =
        let limit = price_limit market.reference_price limits.max_slippage_bps in
        elim (Bool-cases (gt market.spread_bps limits.max_spread_bps)) [
          | inl wide ↦ rw wide (λ e. refl)
          | inr narrow ↦
              elim (Bool-cases (n.lt market.liquidity_coverage limits.min_liquidity_coverage)) [
                | inl thin ↦ rw (narrow, thin) (λ e. refl)
                | inr deep ↦ elim (Bool-cases (not (n.is_finite limit) || n.le limit (int 0))) [
                  | inl invalid ↦ rw (narrow, deep, invalid) (λ e. refl)
                  | inr valid ↦ rw (narrow, deep, valid) (λ e. absurd (executable_not_skipped e))
                ]
              ]
        ]

    -- A trade that the assessment skips is one that the execution refuses: from the same state of
    -- the server, it gives the same reason, amounts, prices and measures, with status failed and
    -- nothing executed, and leaves the server as the assessment does, so that no offer is placed.
    pub execute_single_trade-assess_single_trade :
        ⦃sdk : Sdk⦄
        → (issuers : Table String) (h : H) (a : DexTradeAssessmentResult F)
        → (assess_single_trade issuers trade limits h).0 ≡ returned a
        → a.status ≡ skipped
        → execute_single_trade issuers signer trade limits base_fee h
          ≡ (returned (as_failure a), (assess_single_trade issuers trade limits h).1)
    unfolding execute_single_trade assess_single_trade ◌>>=◌
    execute_single_trade-assess_single_trade issuers h a =
        let amount = round_stellar trade.amount in
        elim (Outcome-cases (assets_of issuers trade.from_asset trade.to_asset)) [
          | inr (message, e) ↦
              rw (e, assess_single_trade, execute_single_trade)
                (λ given skip.
                  ap (λ x. (returned (as_failure x), h)) (returned_injective _ a given))
          | inl (assets, e) ↦ elim (Bool-cases (n.le amount (int 0))) [
            | inl empty ↦
                rw (e, assess_single_trade, execute_single_trade, empty)
                  (λ given skip.
                    ap (λ x. (returned (as_failure x), h)) (returned_injective _ a given))
            | inr positive ↦ elim (Outcome-cases (assess_market assets.0 assets.1 amount h).0) [
              | inr (message, e') ↦
                  rw (e, assess_single_trade, execute_single_trade, positive, e', ◌>>=◌)
                    (λ given. absurd (thrown_not_returned message a given))
              | inl (market, e') ↦
                  rw (e, assess_single_trade, execute_single_trade, positive, e', ◌>>=◌)
                    (λ given skip.
                      let same =
                        returned_injective (assess_in_market trade limits amount market) a given in
                      let after = (assess_market assets.0 assets.1 amount h).1 in
                      execute_in_market-assess_in_market assets amount market after
                        (ap (λ x. x.status) same ∙ skip)
                      ∙ ap (λ x. (returned (as_failure x), after)) same)
            ]
          ]
        ]
