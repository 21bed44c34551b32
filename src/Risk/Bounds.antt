-- ===== src/Risk/Bounds.antt =====
-- Ranges of the statistics and scores of `RiskManagementService`. A double may be NaN, so the bounds
-- speak of values that are numbers.
use stellar_portfolio_rebala.Prelude.{
  ◌≤◌, ◌<◌, ◌≡◌, refl, String, Bool, true, false, List, [], ◌∷◌, map, arith, inl, inr, Bool-cases,
  length, length-slice_last, min, if◌then◌else◌, ltb, leb,
}
use stellar_portfolio_rebala.Prelude.Table.{Table, keys, get_or}
use stellar_portfolio_rebala.Number.{Number, IsOrdered, IsNum, ◌≼◌, int, same}
use stellar_portfolio_rebala.Risk.Correlation.{Moments, correlation_of, calculate_pearson}
use stellar_portfolio_rebala.Risk.Scores.{
  analyze_portfolio_risk, calculate_concentration_risk, calculate_volatility_score,
  calculate_correlation_risk,
}
use stellar_portfolio_rebala.Risk.Stats.{
  min_returns_for_stats, correlation_window, calculate_var_and_cvar, calculate_max_drawdown,
  windowed_returns, min_length, window_statistics, full_statistics,
  compute_statistical_risk_metrics,
}
use stellar_portfolio_rebala.Risk.Types.{normal, StatisticalRiskMetrics, RiskService, ReturnPoint}

module _ {F : Type 0} ⦃n : Number F⦄ (laws : IsOrdered F) where
  open n use {neg}

  zero-IsNum : IsNum {F = F} (int 0)
  zero-IsNum = (laws.num_of_le _ _ (laws.decimal-le 0 0 0 (omega arith))).0

  one-IsNum : IsNum {F = F} (int 1)
  one-IsNum = (laws.num_of_le _ _ (laws.decimal-le 1 1 0 (omega arith))).0

  max-le_left : (x y : F) → IsNum (n.max x y) → x ≼ n.max x y
  max-le_left x y h = let (hx, hy) = laws.num_of_max x y h in (laws.max_bounds x y hx hy).0

  min-le_left : (x y : F) → IsNum (n.min x y) → n.min x y ≼ x
  min-le_left x y h = let (hx, hy) = laws.num_of_min x y h in (laws.min_bounds x y hx hy).0

  -- Where CVaR is a number, VaR is not negative and CVaR is at least VaR.
  pub calculate_var_and_cvar_ordered :
      (returns : List F)
      → IsNum (calculate_var_and_cvar returns).1
      → (int 0 ≼ (calculate_var_and_cvar returns).0)
        × ((calculate_var_and_cvar returns).0 ≼ (calculate_var_and_cvar returns).1)
  unfolding calculate_var_and_cvar
  calculate_var_and_cvar_ordered [] h = (zero-IsNum, zero-IsNum)
  calculate_var_and_cvar_ordered (r ∷ returns) h =
      (max-le_left _ _ (laws.num_of_max _ _ h).0, max-le_left _ _ h)

  pub calculate_max_drawdown_nonneg :
      (returns : List F)
      → IsNum (calculate_max_drawdown returns)
      → int 0 ≼ calculate_max_drawdown returns
  unfolding calculate_max_drawdown
  calculate_max_drawdown_nonneg [] h = zero-IsNum
  calculate_max_drawdown_nonneg (r ∷ returns) h = max-le_left _ _ h

  zero-le-one : ◌≼◌ {F = F} (int 0) (int 1)
  zero-le-one = laws.decimal-le 0 1 0 (omega arith)

  minus_one-le : neg (int 1) ≼ int 0
  minus_one-le = laws.neg-le (int 1) zero-le-one

  clamp_range :
      (x : F)
      → let y = n.max (neg (int 1)) (n.min (int 1) x) in IsNum y → (neg (int 1) ≼ y) × (y ≼ int 1)
  clamp_range x h = (
    max-le_left _ _ h,
    laws.max_least _ _ _ (laws.le_trans _ _ _ minus_one-le zero-le-one)
        (min-le_left _ _ (laws.num_of_max _ _ h).1),
  )

  abbrev InRange : F → Type 0
  InRange y = IsNum y → (neg (int 1) ≼ y) × (y ≼ int 1)

  correlation_of_range : (m : Moments F) → InRange (correlation_of m)
  unfolding correlation_of
  correlation_of_range m =
      let denominator = n.sqrt (n.mul m.var_a m.var_b) in
      elim (Bool-cases (same denominator (int 0))) [
        | inl flat ↦ rw (flat, correlation_of) (λ h. (minus_one-le, zero-le-one))
        | inr other ↦ rw (other, correlation_of) (clamp_range (n.div m.numerator denominator))
      ]

  -- A correlation coefficient that is a number lies between -1 and 1.
  pub calculate_pearson_range :
      (xs ys : List F)
      → IsNum (calculate_pearson xs ys)
      → (neg (int 1) ≼ calculate_pearson xs ys) × (calculate_pearson xs ys ≼ int 1)
  unfolding calculate_pearson
  calculate_pearson_range xs ys = elim (Bool-cases (ltb (min (length xs) (length ys)) 2)) [
    | inl few ↦ rw (few, calculate_pearson) (λ h. (minus_one-le, zero-le-one))
    | inr enough ↦ rw (enough, calculate_pearson) (correlation_of_range _)
  ]

  correlation_score_le :
      (few some : Bool) (x : F)
      → let y = if few then int 0 else if some then n.min (int 1) x else int 0 in
        IsNum y → y ≼ int 1
  correlation_score_le true some x = λ h. zero-le-one
  correlation_score_le false true x = min-le_left _ _
  correlation_score_le false false x = λ h. zero-le-one

  -- Where they are numbers, the concentration, volatility and correlation scores of a portfolio are
  -- at most 1.
  pub analyze_portfolio_risk_le_one :
      (s : RiskService F) (allocations : Table F)
      → IsNum (analyze_portfolio_risk s allocations).concentration_risk
      → IsNum (analyze_portfolio_risk s allocations).volatility
      → IsNum (analyze_portfolio_risk s allocations).correlation_risk
      → ((analyze_portfolio_risk s allocations).concentration_risk ≼ int 1)
        × ((analyze_portfolio_risk s allocations).volatility ≼ int 1)
        × ((analyze_portfolio_risk s allocations).correlation_risk ≼ int 1)
  unfolding analyze_portfolio_risk calculate_concentration_risk calculate_volatility_score
      calculate_correlation_risk
  analyze_portfolio_risk_le_one s allocations hc hv hr =
      (min-le_left _ _ hc, min-le_left _ _ hv, correlation_score_le _ _ _ hr)

module _ {F : Type 0} ⦃n : Number F⦄ where
  -- What is reported of a window: its size, and no statistic before 30 samples.
  abbrev IsGuarded : StatisticalRiskMetrics F → Type 0
  IsGuarded m =
      (m.sample_size ≤ correlation_window)
      × (m.sample_size < min_returns_for_stats
          → (m.ewma_volatility ≡ int 0)
            × (m.var95 ≡ int 0)
            × (m.cvar95 ≡ int 0)
            × (m.max_drawdown ≡ int 0)
            × (m.drawdown_band ≡ normal))

  windowed_returns-le :
      (s : RiskService F) (assets : List String)
      → min_length (windowed_returns s assets) ≤ correlation_window
  unfolding min_length windowed_returns
  windowed_returns-le s [] = omega arith
  windowed_returns-le s (a ∷ []) =
      omega (arith, length-slice_last correlation_window (values_of a) (omega arith))
    where
      values_of : String → List F
      values_of a = map (λ (p : ReturnPoint F). p.value) (get_or a s.return_series [])
  windowed_returns-le s (a ∷ b ∷ assets) = omega (arith, windowed_returns-le s (b ∷ assets))

  window_statistics-IsGuarded :
      (weights : Table F) (windowed : Table (List F))
      → min_length windowed ≤ correlation_window
      → IsGuarded (window_statistics weights windowed)
  unfolding window_statistics full_statistics
  window_statistics-IsGuarded weights windowed h =
      let size = min_length windowed in
      elim (Bool-cases (leb size 1)) [
        | inl few ↦ rw (few, window_statistics) (omega arith, λ l. (refl, refl, refl, refl, refl))
        | inr more ↦ elim (Bool-cases (ltb size min_returns_for_stats)) [
          | inl short ↦ rw (more, short, window_statistics) (h, λ l. (refl, refl, refl, refl, refl))
          | inr enough ↦ rw (more, enough, window_statistics) (h, λ l. absurd (ground arith))
        ]
      ]

  statistics-IsGuarded :
      (s : RiskService F) (weights : Table F)
      → IsGuarded (compute_statistical_risk_metrics s weights)
  unfolding compute_statistical_risk_metrics
  statistics-IsGuarded s [] = (omega arith, λ h. (refl, refl, refl, refl, refl))
  statistics-IsGuarded s (e ∷ rest) =
      window_statistics-IsGuarded (e ∷ rest) _ (windowed_returns-le s (keys (e ∷ rest)))

  -- The sample size of the statistics is at most 90, the length of the window.
  pub sample_size-le :
      (s : RiskService F) (weights : Table F)
      → (compute_statistical_risk_metrics s weights).sample_size ≤ correlation_window
  sample_size-le s weights = (statistics-IsGuarded s weights).0

  -- Below 30 samples no statistic is reported: volatility, VaR, CVaR and drawdown are 0, and the
  -- band is normal.
  pub compute_statistical_risk_metrics_few :
      (s : RiskService F) (weights : Table F)
      → (compute_statistical_risk_metrics s weights).sample_size < min_returns_for_stats
      → ((compute_statistical_risk_metrics s weights).ewma_volatility ≡ int 0)
        × ((compute_statistical_risk_metrics s weights).var95 ≡ int 0)
        × ((compute_statistical_risk_metrics s weights).cvar95 ≡ int 0)
        × ((compute_statistical_risk_metrics s weights).max_drawdown ≡ int 0)
        × ((compute_statistical_risk_metrics s weights).drawdown_band ≡ normal)
  compute_statistical_risk_metrics_few s weights = (statistics-IsGuarded s weights).1
