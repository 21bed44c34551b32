-- ===== src/Risk/Ladder.antt =====
-- When `shouldAllowRebalance` allows, and that reading the breakers' status does not change it.
use stellar_portfolio_rebala.Prelude.{
  ℕ, ◌≤◌, ◌<◌, ◌≡◌, refl, ◌↔◌, ◌⊎◌, Bool, true, false, none, List, [], ◌∷◌, map, any, arith,
  if◌then◌else◌, length,
}
use stellar_portfolio_rebala.Prelude.Table.{Table, values}
use stellar_portfolio_rebala.Number.{Number, gt}
use stellar_portfolio_rebala.Risk.Breakers.{is_active, clear_expired, get_circuit_breaker_status}
use stellar_portfolio_rebala.Risk.Decision.{
  should_allow_rebalance, has_active_circuit_breaker, breaches,
}
use stellar_portfolio_rebala.Risk.Scores.{
  ewma_vol_block_threshold, var95_block_threshold, cvar95_block_threshold, drawdown_block_threshold,
  analyze_portfolio_risk, normalize_allocations,
}
use stellar_portfolio_rebala.Risk.Stats.{
  min_returns_for_stats, windowed_returns, compute_statistical_risk_metrics,
}
use stellar_portfolio_rebala.Risk.Types.{
  CircuitBreakerStatus, RiskMetrics, RiskService, ReasonCode, ok, circuit_breaker_active,
  concentration_breach, ewma_vol_breach, var_breach, cvar_breach, drawdown_breach,
}

-- The code of the first test that holds.
abbrev pub first_breach : List (Bool × ReasonCode) → ReasonCode
first_breach [] = ok
first_breach ((test, code) ∷ rest) = if test then code else first_breach rest

module _ {F : Type 0} ⦃n : Number F⦄ where
  open n use {decimal}

  -- None of the four statistics is above its limit.
  pub record WithinLimits (m : RiskMetrics F) : Type 0 where
    pub ewma : gt m.ewma_volatility ewma_vol_block_threshold ≡ false
    pub var : gt m.var95 var95_block_threshold ≡ false
    pub cvar : gt m.cvar95 cvar95_block_threshold ≡ false
    pub drawdown : gt m.max_drawdown drawdown_block_threshold ≡ false

  -- Few samples excuse the statistics; nothing excuses a breaker or the concentration.
  pub record IsAcceptable (now : ℕ) (s : RiskService F) (m : RiskMetrics F) : Type 0 where
    pub calm : has_active_circuit_breaker now s ≡ false
    pub spread : gt m.concentration_risk (decimal 9 1) ≡ false
    pub statistics : (m.sample_size < min_returns_for_stats) ⊎ WithinLimits m

  -- A rebalance is allowed exactly if no breaker is active, the concentration risk is not above
  -- 0.9, and there are fewer than 30 samples or none of volatility, VaR, CVaR and drawdown is above
  -- its limit.
  pub should_allow_rebalance_iff :
      (now : ℕ) (s : RiskService F) (allocations : Table F)
      → ((should_allow_rebalance now s allocations).allowed ≡ true)
        ↔ IsAcceptable now s (analyze_portfolio_risk s allocations)
  unfolding should_allow_rebalance
  should_allow_rebalance_iff now s allocations = (λ h. ground arith, λ h. ground arith)

  -- The guards in the order in which they are tested.
  abbrev pub guards : ℕ → RiskService F → RiskMetrics F → List (Bool × ReasonCode)
  guards now s m =
      (has_active_circuit_breaker now s, circuit_breaker_active)
      ∷ (gt m.concentration_risk (decimal 9 1), concentration_breach)
      ∷ (breaches m m.ewma_volatility ewma_vol_block_threshold, ewma_vol_breach)
      ∷ (breaches m m.var95 var95_block_threshold, var_breach)
      ∷ (breaches m m.cvar95 cvar95_block_threshold, cvar_breach)
      ∷ (breaches m m.max_drawdown drawdown_block_threshold, drawdown_breach)
      ∷ []

  -- The reason code is that of the first guard that holds, in the order breaker, concentration,
  -- volatility, VaR, CVaR, drawdown, or else `ok`. The rebalance is allowed, and there is no reason,
  -- exactly if the code is `ok`; any other code comes with one alert.
  pub should_allow_rebalance-reason_code :
      (now : ℕ) (s : RiskService F) (allocations : Table F)
      → let decision = should_allow_rebalance now s allocations in
        let code = first_breach (guards now s (analyze_portfolio_risk s allocations)) in
        (decision.reason_code ≡ code)
        × ((decision.allowed ≡ true) ↔ (code ≡ ok))
        × ((decision.reason ≡ none) ↔ (code ≡ ok))
        × ((code ≡ ok) ⊎ (length decision.alerts ≡ 1))
  unfolding should_allow_rebalance
  should_allow_rebalance-reason_code now s allocations = (
    ground arith,
    (λ h. ground arith, λ h. ground arith),
    (λ h. ground arith, λ h. ground arith),
    ground arith,
  )

any-clear_expired :
    (now t : ℕ) (m : Table CircuitBreakerStatus)
    → now ≤ t
    → any (is_active t) (values (map (λ e. (e.0, clear_expired now e.1)) m))
      ≡ any (is_active t) (values m)
any-clear_expired now t [] h = refl
any-clear_expired now t ((k, cb) ∷ m) h =
    let same : is_active t (clear_expired now cb) ≡ is_active t cb = ground arith in
    rw (same, any-clear_expired now t m h)

status-active :
    {F : Type 0} (now t : ℕ) (s : RiskService F)
    → now ≤ t
    → has_active_circuit_breaker t (get_circuit_breaker_status now s).0
      ≡ has_active_circuit_breaker t s
unfolding has_active_circuit_breaker get_circuit_breaker_status
status-active now t s h = any-clear_expired now t s.circuit_breakers h

module _ {F : Type 0} ⦃n : Number F⦄ where
  -- The statistics do not read the breakers.
  status-statistics :
      (now : ℕ) (s : RiskService F) (weights : Table F)
      → compute_statistical_risk_metrics (get_circuit_breaker_status now s).0 weights
        ≡ compute_statistical_risk_metrics s weights
  unfolding compute_statistical_risk_metrics get_circuit_breaker_status windowed_returns
  status-statistics now s [] = refl
  status-statistics now s (e ∷ weights) = refl

  status-analysis :
      (now : ℕ) (s : RiskService F) (allocations : Table F)
      → analyze_portfolio_risk (get_circuit_breaker_status now s).0 allocations
        ≡ analyze_portfolio_risk s allocations
  unfolding analyze_portfolio_risk
  status-analysis now s allocations =
      rw (status-statistics now s (normalize_allocations allocations))

  -- Reading the breakers' status, which resets those past their cooldown, changes no decision at
  -- that time or later.
  pub should_allow_rebalance-status :
      (now t : ℕ) (s : RiskService F) (allocations : Table F)
      → now ≤ t
      → should_allow_rebalance t (get_circuit_breaker_status now s).0 allocations
        ≡ should_allow_rebalance t s allocations
  unfolding should_allow_rebalance
  should_allow_rebalance-status now t s allocations h =
      rw (status-active now t s h, status-analysis now s allocations)
