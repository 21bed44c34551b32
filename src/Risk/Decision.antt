-- ===== src/Risk/Decision.antt =====
-- `shouldAllowRebalance` of backend/src/services/riskManagements.ts.
use stellar_portfolio_rebala.Prelude.{
  ℕ, String, Bool, true, false, ◌&&◌, Option, none, some, List, [], ◌∷◌, any, leb, template,
  if◌then◌else◌,
}
use stellar_portfolio_rebala.Prelude.Table.{Table, values}
use stellar_portfolio_rebala.Number.{Number, int, gt}
use stellar_portfolio_rebala.Risk.Breakers.{is_active}
use stellar_portfolio_rebala.Risk.Scores.{
  ewma_vol_block_threshold, var95_block_threshold, cvar95_block_threshold, drawdown_block_threshold,
  analyze_portfolio_risk,
}
use stellar_portfolio_rebala.Risk.Stats.{min_returns_for_stats}
use stellar_portfolio_rebala.Risk.Types.{
  RiskAlert, AlertType, Severity, warning, RiskMetrics, RiskService, ReasonCode, ok,
  circuit_breaker_active, concentration_breach, ewma_vol_breach, var_breach, cvar_breach,
  drawdown_breach,
}

pub record RiskDecision (F : Type 0) : Type 0 where
  pub allowed : Bool
  pub reason : Option String
  pub reason_code : ReasonCode
  pub alerts : List RiskAlert
  pub risk_metrics : RiskMetrics F

abbrev pub alert : ℕ → AlertType → Severity → String → String → RiskAlert
alert now type severity message action = record {
  type = type;
  severity = severity;
  message = message;
  asset = none;
  recommended_action = action;
  timestamp = now;
}

unfoldable pub has_active_circuit_breaker : {F : Type 0} → ℕ → RiskService F → Bool
has_active_circuit_breaker now s = any (is_active now) (values s.circuit_breakers)

module _ {F : Type 0} ⦃n : Number F⦄ where
  open n use {decimal, mul, to_fixed}

  abbrev blocked : String → ReasonCode → RiskAlert → RiskMetrics F → RiskDecision F
  blocked reason code alert metrics = record {
    allowed = false;
    reason = some reason;
    reason_code = code;
    alerts = alert ∷ [];
    risk_metrics = metrics;
  }

  abbrev percent : F → String
  percent x = to_fixed (mul x (int 100)) 2

  abbrev pub breaches : RiskMetrics F → F → F → Bool
  breaches m x threshold = leb min_returns_for_stats m.sample_size && gt x threshold

  unfoldable pub should_allow_rebalance : ℕ → RiskService F → Table F → RiskDecision F
  should_allow_rebalance now s allocations =
      let m = analyze_portfolio_risk s allocations in
      if has_active_circuit_breaker now s
      then blocked "Circuit breaker active due to high market volatility" circuit_breaker_active
          (alert now AlertType.circuit_breaker Severity.critical
            "Rebalancing temporarily suspended due to circuit breaker"
            "Wait for market conditions to stabilize")
          m
      else if gt m.concentration_risk (decimal 9 1)
      then blocked "Portfolio concentration risk exceeds policy limit" concentration_breach
          (alert now AlertType.concentration Severity.critical
            "Concentration exceeds allowed portfolio limit"
            "Reduce dominant asset weight before rebalancing")
          m
      else if breaches m m.ewma_volatility ewma_vol_block_threshold
      then blocked "Rebalance blocked by statistical volatility model" ewma_vol_breach
          (alert now AlertType.volatility Severity.critical
            (template ("EWMA volatility breach: " ∷ percent m.ewma_volatility ∷ "%" ∷ []))
            "Pause rebalance until realized volatility declines")
          m
      else if breaches m m.var95 var95_block_threshold
      then blocked "Rebalance blocked by VaR limit" var_breach
          (alert now AlertType.volatility Severity.critical
            (template ("VaR(95) breach: " ∷ percent m.var95 ∷ "%" ∷ []))
            "Reduce risk assets or wait for calmer market regime")
          m
      else if breaches m m.cvar95 cvar95_block_threshold
      then blocked "Rebalance blocked by CVaR limit" cvar_breach
          (alert now AlertType.volatility Severity.critical
            (template ("CVaR(95) breach: " ∷ percent m.cvar95 ∷ "%" ∷ []))
            "Reduce downside tail-risk before rebalancing")
          m
      else if breaches m m.max_drawdown drawdown_block_threshold
      then blocked "Rebalance blocked by drawdown guardrail" drawdown_breach
          (alert now AlertType.volatility Severity.critical
            (template ("Max drawdown breach: " ∷ percent m.max_drawdown ∷ "%" ∷ []))
            "Avoid additional turnover while drawdown band is critical")
          m
      else record {
        allowed = true;
        reason = none;
        reason_code = ok;
        alerts =
            if gt m.concentration_risk (decimal 8 1)
            then alert now AlertType.concentration warning "High concentration risk detected"
                "Consider reducing allocation to dominant assets"
              ∷ []
            else [];
        risk_metrics = m;
      }
