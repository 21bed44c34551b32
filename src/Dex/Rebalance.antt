-- ===== src/Dex/Rebalance.antt =====
-- The execution of a rebalance, and its rollback.
use stellar_portfolio_rebala.Prelude.{
  ℕ, suc, String, Bool, true, false, not, ◌&&◌, ◌||◌, some, List, [], ◌∷◌, ◌++◌, length, any,
  template, ltb, if◌then◌else◌,
}
use mathlib.Core.List.{reverse}
use stellar_portfolio_rebala.Prelude.Table.{Table}
use stellar_portfolio_rebala.Number.{Number, int, gt}
use stellar_portfolio_rebala.Decimal.{add_stroop_fee}
use stellar_portfolio_rebala.Async.{returned, thrown, Run, ◌>>=◌, pure}
use stellar_portfolio_rebala.Dex.Types.{
  Float, DexTradeRequest, RebalanceExecutionConfig, RequestedConfig, is_filled,
  DexTradeExecutionResult, DexRollbackResult, Keypair, Sdk, Horizon,
}
use stellar_portfolio_rebala.Dex.Settings.{execution_config, resolve_signer}
use stellar_portfolio_rebala.Dex.Trade.{execute_single_trade}
use stellar_portfolio_rebala.Dex.Assess.{limits_of}
use stellar_portfolio_rebala.Dex.Progress.{Progress, next, stop, no_progress, after_trade}
use stellar_portfolio_rebala.Dex.Report.{
  no_rollback, reason_or, execution_result, DexRebalanceExecutionResult,
}

module _ {F : Type 0} ⦃n : Number F⦄ where
  open n use {add, mul, div, le, lt, to_fixed, to_text}

  -- The trade that undoes an executed one.
  abbrev pub rollback_trade :
      ⦃float : Float F⦄ → RebalanceExecutionConfig F → DexTradeExecutionResult F → DexTradeRequest F
  rollback_trade ⦃float⦄ config t = record {
    trade_id = template ("rollback-" ∷ t.trade_id ∷ []);
    from_asset = t.to_asset;
    to_asset = t.from_asset;
    amount = t.estimated_received_amount;
    max_slippage_bps = some (
        if gt t.slippage_bps (int 0)
        then float.ceil t.slippage_bps
        else config.max_slippage_bps_per_trade);
  }

  abbrev pub rollback_failure : DexTradeExecutionResult F → DexTradeExecutionResult F → String
  rollback_failure t undone = template (
      "Rollback failed for "
      ∷ t.trade_id
      ∷ ": "
      ∷ reason_or "unknown error" undone.failure_reason
      ∷ [])

  -- What the execution of a rollback adds to the trade and to the result.
  unfoldable pub after_rollback :
      DexTradeExecutionResult F
      → DexTradeExecutionResult F
      → DexRollbackResult
      → DexTradeExecutionResult F × DexRollbackResult
  after_rollback t undone r =
      if is_filled undone.status
      then (
        record t { rolled_back = true; rollback_tx_hash = undone.tx_hash },
        record r { rolled_back_trades = suc r.rolled_back_trades },
      )
      else (
        t,
        record r { success = false; failures = r.failures ++ rollback_failure t undone ∷ [] },
      )

  -- A trade that executed or received nothing is passed over.
  abbrev pub is_undoable : DexTradeExecutionResult F → Bool
  is_undoable t = not (le t.executed_amount (int 0) || le t.estimated_received_amount (int 0))

  -- A failed rebalance is rolled back, its last trade first, if it is configured to be and a trade
  -- has executed something.
  abbrev pub needs_rollback : RebalanceExecutionConfig F → Progress F → Bool
  needs_rollback config p =
      ltb 0 (length p.failures)
      && config.rollback_on_failure
      && any (λ t. gt t.executed_amount (int 0)) p.executed

  module _ ⦃float : Float F⦄ ⦃sdk : Sdk⦄ {H : Type 0} ⦃horizon : Horizon H⦄ where
    unfoldable pub undo :
        Table String
        → Keypair
        → RebalanceExecutionConfig F
        → ℕ
        → DexTradeExecutionResult F
        → DexRollbackResult
        → Run H (DexTradeExecutionResult F × DexRollbackResult)
    undo issuers signer config base_fee t r =
        let trade = rollback_trade config t in
        if is_undoable t
        then (do
          undone ←
              execute_single_trade issuers signer trade (limits_of config trade.max_slippage_bps)
                base_fee
          pure (after_rollback t undone r))
        else pure (t, r)

    -- The loop over the trades, and the trades as it leaves them.
    unfoldable pub rollback_executed_trades :
        Table String
        → Keypair
        → RebalanceExecutionConfig F
        → ℕ
        → List (DexTradeExecutionResult F)
        → DexRollbackResult
        → Run H (List (DexTradeExecutionResult F) × DexRollbackResult)
    rollback_executed_trades issuers signer config base_fee [] r = pure ([], r)
    rollback_executed_trades issuers signer config base_fee (t ∷ trades) r = do
      first ← undo issuers signer config base_fee t r
      rest ← rollback_executed_trades issuers signer config base_fee trades first.1
      pure (first.0 ∷ rest.0, rest.1)

    -- The loop over the trades.
    unfoldable pub execute_trades :
        Table String
        → Keypair
        → RebalanceExecutionConfig F
        → ℕ
        → List (DexTradeRequest F)
        → Progress F
        → Run H (Progress F)
    execute_trades issuers signer config base_fee [] p = pure p
    execute_trades issuers signer config base_fee (trade ∷ trades) p = do
      let limits = limits_of config trade.max_slippage_bps
      t ← execute_single_trade issuers signer trade limits base_fee
      let charged = record p { fee = add_stroop_fee p.fee (int base_fee) }
      elim (after_trade config trade limits.max_slippage_bps t charged) [
        | stop p' ↦ pure p'
        | next p' ↦ execute_trades issuers signer config base_fee trades p'
      ]

    unfoldable pub finish :
        Table String
        → Keypair
        → RebalanceExecutionConfig F
        → ℕ
        → Progress F
        → Run H (DexRebalanceExecutionResult F)
    finish issuers signer config base_fee p =
        if needs_rollback config p
        then (do
          done ←
              rollback_executed_trades issuers signer config base_fee (reverse p.executed)
                (record no_rollback { attempted = true })
          pure (execution_result config (record p { executed = reverse done.0 }) done.1))
        else pure (execution_result config p no_rollback)

    -- `env` is `process.env` at the call, `issuers` the table made by the constructor.
    unfoldable pub execute_rebalance_trades :
        Table String
        → Table String
        → String
        → List (DexTradeRequest F)
        → RequestedConfig F
        → Run H (DexRebalanceExecutionResult F)
    execute_rebalance_trades env issuers user_address trades requested =
        let config = execution_config env requested in
        elim (resolve_signer env user_address config.signer_secret) [
          | thrown message ↦ λ h. (thrown message, h)
          | returned signer ↦ do
            base_fee ← horizon.fetch_base_fee
            p ← execute_trades issuers signer config base_fee trades no_progress
            finish issuers signer config base_fee p
        ]
