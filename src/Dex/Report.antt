-- ===== src/Dex/Report.antt =====
-- The result of a rebalance and its explanation.
use stellar_portfolio_rebala.Prelude.{
  ℕ, ◌+◌, String, true, false, Option, none, some, List, [], ◌∷◌, ◌++◌, length, filter, str_eq,
  template, ltb, if◌then◌else◌,
}
use stellar_portfolio_rebala.Number.{Number, int, gt}
use stellar_portfolio_rebala.Decimal.{format_bps}
use stellar_portfolio_rebala.Dex.Types.{
  RebalanceExecutionConfig, is_partial, DexTradeExecutionResult, DexRollbackResult,
}
use stellar_portfolio_rebala.Dex.Assess.{RebalanceStatus, success, partial, failed}
use stellar_portfolio_rebala.Dex.Progress.{Progress, total_slippage}

pub record ExecutionExplanation (F : Type 0) : Type 0 where
  pub route_length : ℕ
  pub estimated_slippage : F
  pub skipped_alternatives : List String
  pub rationale : String
  pub failure_reason : Option String

pub record DexRebalanceExecutionResult (F : Type 0) : Type 0 where
  pub status : RebalanceStatus
  pub executed_trades : List (DexTradeExecutionResult F)
  pub partial_fills : List (DexTradeExecutionResult F)
  pub failed_trades : List (DexTradeExecutionResult F)
  pub total_estimated_fee_xlm : F
  pub total_slippage_bps : F
  pub rollback : DexRollbackResult
  pub failure_reason : Option String
  pub explanation : ExecutionExplanation F

abbrev pub partial_fills_of :
    {F : Type 0} → List (DexTradeExecutionResult F) → List (DexTradeExecutionResult F)
partial_fills_of trades = filter (λ t. is_partial t.status) trades

abbrev pub no_rollback : DexRollbackResult
no_rollback = record { attempted = false; success = true; rolled_back_trades = 0; failures = [] }

-- `reason || fallback`
abbrev pub reason_or : String → Option String → String
reason_or fallback none = fallback
reason_or fallback (some reason) = if str_eq reason "" then fallback else reason

module _ {F : Type 0} ⦃n : Number F⦄ where
  open n use {add, mul, div, le, lt, to_fixed, to_text}

  abbrev alternative : RebalanceExecutionConfig F → DexTradeExecutionResult F → List String
  alternative config t =
      if gt t.spread_bps config.max_spread_bps
      then template (
          t.from_asset
          ∷ "→"
          ∷ t.to_asset
          ∷ ": spread "
          ∷ format_bps t.spread_bps 2
          ∷ " bps exceeded max"
          ∷ [])
        ∷ []
      else if lt t.liquidity_coverage config.min_liquidity_coverage
      then template (
          t.from_asset
          ∷ "→"
          ∷ t.to_asset
          ∷ ": liquidity "
          ∷ to_fixed t.liquidity_coverage 2
          ∷ "x below required"
          ∷ [])
        ∷ []
      else []

  unfoldable pub skipped_alternatives_of :
      RebalanceExecutionConfig F → List (DexTradeExecutionResult F) → List String
  skipped_alternatives_of config [] = []
  skipped_alternatives_of config (t ∷ trades) =
      alternative config t ++ skipped_alternatives_of config trades

  -- The status, and the reason of the first failure.
  unfoldable pub status_of : Progress F → RebalanceStatus × Option String
  status_of p = elim p.failures [
    | t ∷ failures ↦ (failed, some (reason_or "Trade execution failed" t.failure_reason))
    | [] ↦ (if ltb 0 (length (partial_fills_of p.executed)) then partial else success, none)
  ]

  unfoldable pub rationale_of : RebalanceStatus → Option String → F → ℕ → ℕ → String
  rationale_of success reason slippage executed_count partial_count = template (
      "Executed "
      ∷ to_text (int executed_count)
      ∷ " trade(s) with avg slippage "
      ∷ format_bps slippage 2
      ∷ " bps"
      ∷ [])
  rationale_of partial reason slippage executed_count partial_count = template (
      "Partial fill: "
      ∷ to_text (int executed_count)
      ∷ " trade(s) executed, "
      ∷ to_text (int partial_count)
      ∷ " partially filled"
      ∷ [])
  rationale_of failed reason slippage executed_count partial_count =
      reason_or "Execution failed" reason

  -- The result, from the progress whose executed trades the rollback has marked.
  unfoldable pub execution_result :
      RebalanceExecutionConfig F → Progress F → DexRollbackResult → DexRebalanceExecutionResult F
  execution_result config p rollback =
      let (status, reason) = status_of p in
      let slippage = total_slippage p in
      let partial_fills = partial_fills_of p.executed in
      record {
        status = status;
        executed_trades = p.executed;
        partial_fills = partial_fills;
        failed_trades = p.failures;
        total_estimated_fee_xlm = p.fee;
        total_slippage_bps = slippage;
        rollback = rollback;
        failure_reason = reason;
        explanation = record {
          route_length = length p.executed + length p.failures;
          estimated_slippage = slippage;
          skipped_alternatives = skipped_alternatives_of config (p.executed ++ p.failures);
          rationale =
              rationale_of status reason slippage (length p.executed) (length partial_fills);
          failure_reason = elim reason [
            | none ↦ none
            | some text ↦ if str_eq text "" then none else some text
          ];
        };
      }
