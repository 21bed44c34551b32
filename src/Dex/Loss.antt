-- ===== src/Dex/Loss.antt =====
-- A failure to read an order book ends a rebalance without a rollback.
use stellar_portfolio_rebala.Prelude.{ℕ, String, ◌≡◌, ◌∙◌, false, List, ◌∷◌}
use stellar_portfolio_rebala.Prelude.Table.{Table}
use stellar_portfolio_rebala.Number.{Number, int}
use stellar_portfolio_rebala.Decimal.{round_stellar, add_stroop_fee}
use stellar_portfolio_rebala.Async.{returned, thrown}
use stellar_portfolio_rebala.Dex.Types.{
  Float, DexTradeRequest, DexTradeExecutionResult, RequestedConfig, Asset, Keypair, Sdk, Horizon,
}
use stellar_portfolio_rebala.Async.Returns.{>>=-returned, >>=-thrown}
use stellar_portfolio_rebala.Dex.Settings.{execution_config, resolve_signer}
use stellar_portfolio_rebala.Dex.Exchange.{assess_market}
use stellar_portfolio_rebala.Dex.Trade.{TradeLimits, assets_of, execute_single_trade}
use stellar_portfolio_rebala.Dex.Assess.{limits_of}
use stellar_portfolio_rebala.Dex.Progress.{Progress, next, no_progress, after_trade}
use stellar_portfolio_rebala.Dex.Rebalance.{execute_trades, execute_rebalance_trades}

module _ {F : Type 0} ⦃n : Number F⦄ ⦃float : Float F⦄ ⦃sdk : Sdk⦄ {H : Type 0}
    ⦃horizon : Horizon H⦄ where
  open horizon use {fetch_base_fee, orderbook}

  execute_single_trade-orderbook :
      (issuers : Table String) (signer : Keypair) (trade : DexTradeRequest F)
      (limits : TradeLimits F) (base_fee : ℕ) (assets : Asset × Asset) (message : String) (h h' : H)
      → assets_of issuers trade.from_asset trade.to_asset ≡ returned assets
      → n.le (round_stellar trade.amount) (int 0) ≡ false
      → orderbook assets.0 assets.1 h ≡ (thrown message, h')
      → execute_single_trade issuers signer trade limits base_fee h ≡ (thrown message, h')
  unfolding execute_single_trade assess_market
  execute_single_trade-orderbook issuers signer trade limits base_fee assets message h h' known
        positive unread =
      rw (known, execute_single_trade, positive)
        (>>=-thrown _ _ h h' message
          (>>=-thrown (orderbook assets.0 assets.1) _ h h' message unread))

  -- Where the order book of the second trade cannot be read, after a first trade with which the
  -- rebalance goes on, the call throws that error and returns no result: the server is as the
  -- first trade and the failing read leave it, so nothing is rolled back.
  pub execute_rebalance_trades-orderbook :
      (env issuers : Table String) (user_address message : String)
      (first second : DexTradeRequest F) (trades : List (DexTradeRequest F))
      (requested : RequestedConfig F) (signer : Keypair) (base_fee : ℕ) (assets : Asset × Asset)
      (t : DexTradeExecutionResult F) (p : Progress F) (h h' h'' h''' : H)
      → let config = execution_config env requested in
        let limits = limits_of config first.max_slippage_bps in
        resolve_signer env user_address config.signer_secret ≡ returned signer
        → fetch_base_fee h ≡ (returned base_fee, h')
        → execute_single_trade issuers signer first limits base_fee h' ≡ (returned t, h'')
        → after_trade config first limits.max_slippage_bps t
            (record no_progress { fee = add_stroop_fee (int 0) (int base_fee) })
          ≡ next p
        → assets_of issuers second.from_asset second.to_asset ≡ returned assets
        → n.le (round_stellar second.amount) (int 0) ≡ false
        → orderbook assets.0 assets.1 h'' ≡ (thrown message, h''')
        → execute_rebalance_trades env issuers user_address (first ∷ second ∷ trades) requested h
          ≡ (thrown message, h''')
  unfolding execute_rebalance_trades execute_trades
  execute_rebalance_trades-orderbook env issuers user_address message first second trades requested
        signer base_fee assets t p h h' h'' h''' signed fetched executed goes_on known positive
        unread =
      let config = execution_config env requested in
      let refused =
        execute_single_trade-orderbook issuers signer second
          (limits_of config second.max_slippage_bps) base_fee assets message h'' h''' known positive
          unread in
      let loop =
        >>=-returned _ _ h' h'' t executed ∙ rw goes_on (>>=-thrown _ _ h'' h''' message refused) in
      rw (signed, execute_rebalance_trades)
        (>>=-returned _ _ h h' base_fee fetched ∙ >>=-thrown _ _ h' h''' message loop)
