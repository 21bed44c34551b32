-- ===== src/Risk/Stats.antt =====
-- The statistics of backend/src/services/riskManagements.ts: EWMA volatility, VaR, CVaR and drawdown
-- of a portfolio's returns.
use stellar_portfolio_rebala.Prelude.{
  ℕ, zero, suc, ◌+◌, ◌-◌, min, String, none, some, List, [], ◌∷◌, map, foldl, length, get_elem?,
  take, slice_last, ltb, leb, if◌then◌else◌,
}
use stellar_portfolio_rebala.Prelude.Table.{Table, get_or, keys}
use stellar_portfolio_rebala.Number.{Number, int, gt, or_zero, sum}
use stellar_portfolio_rebala.Risk.Correlation.{
  series_of, build_identity_correlations, build_correlation_matrix,
}
use stellar_portfolio_rebala.Risk.Types.{
  DrawdownBand, normal, elevated, Matrix, StatisticalRiskMetrics, ReturnPoint, RiskService,
}

abbrev pub min_returns_for_stats : ℕ
min_returns_for_stats = 30

abbrev pub correlation_window : ℕ
correlation_window = 90

pub record Drawdown (F : Type 0) : Type 0 where
  pub cumulative : F
  pub peak : F
  pub max_drawdown : F

module _ {F : Type 0} ⦃n : Number F⦄ where
  open n use {decimal, add, sub, mul, div, neg, lt, le, pow, sqrt, floor}

  abbrev pub ewma_lambda : F
  ewma_lambda = decimal 94 2

  -- One round of the loop of `computeEwmaVolatility`.
  abbrev pub ewma_step : F → F → F
  ewma_step variance r =
      let squared = pow r 2 in
      add (mul ewma_lambda variance) (mul (sub (int 1) ewma_lambda) squared)

  unfoldable pub compute_ewma_volatility : List F → F
  compute_ewma_volatility [] = int 0
  compute_ewma_volatility (r ∷ returns) = sqrt (n.max (foldl ewma_step (pow r 2) returns) (int 0))

  -- `sort((a, b) => a - b)`.
  unfoldable pub insert_sorted : F → List F → List F
  insert_sorted x [] = x ∷ []
  insert_sorted x (y ∷ ys) = if le x y then x ∷ y ∷ ys else y ∷ insert_sorted x ys

  unfoldable pub sort_numbers : List F → List F
  sort_numbers [] = []
  sort_numbers (x ∷ xs) = insert_sorted x (sort_numbers xs)

  -- `sorted[i]` in arithmetic: `undefined` becomes NaN.
  abbrev pub at_or_nan : List F → ℕ → F
  at_or_nan xs i = elim (get_elem? xs i) [ none ↦ n.nan | some x ↦ x ]

  abbrev pub mean : List F → F
  mean xs = div (sum xs) (int (length xs))

  -- The pair (var95, cvar95).
  unfoldable pub calculate_var_and_cvar : List F → F × F
  calculate_var_and_cvar [] = (int 0, int 0)
  calculate_var_and_cvar (r ∷ returns) =
      let sorted = sort_numbers (r ∷ returns) in
      let index = floor (mul (decimal 5 2) (int (length sorted))) - 1 in
      let var95 = n.max (int 0) (neg (at_or_nan sorted index)) in
      let tail = take (index + 1) sorted in
      let tail_mean = if ltb 0 (length tail) then mean tail else int 0 in
      (var95, n.max var95 (neg tail_mean))

  -- One round of the loop of `calculateMaxDrawdown`.
  unfoldable pub drawdown_step : Drawdown F → F → Drawdown F
  drawdown_step d r =
      let cumulative = mul d.cumulative (add (int 1) r) in
      let peak = if gt cumulative d.peak then cumulative else d.peak in
      let drawdown = if gt peak (int 0) then div (sub peak cumulative) peak else int 0 in
      record {
        cumulative = cumulative;
        peak = peak;
        max_drawdown = if gt drawdown d.max_drawdown then drawdown else d.max_drawdown;
      }

  abbrev pub no_drawdown : Drawdown F
  no_drawdown = record { cumulative = int 1; peak = int 1; max_drawdown = int 0 }

  unfoldable pub calculate_max_drawdown : List F → F
  calculate_max_drawdown [] = int 0
  calculate_max_drawdown (r ∷ returns) =
      n.max (int 0) (foldl drawdown_step no_drawdown (r ∷ returns)).max_drawdown

  -- One sum over the assets, of `(weights[asset] || 0) * (alignedReturns[asset]?.[i] || 0)`.
  abbrev pub weighted_return : Table F → Table (List F) → ℕ → F
  weighted_return weights aligned i =
      foldl
        (λ value e. add value (
          mul (or_zero e.1)
            (elim (get_elem? (series_of aligned e.0) i) [ none ↦ int 0 | some r ↦ or_zero r ])))
        (int 0) weights

  -- The rounds i, i + 1, … of the loop, `left` in number.
  unfoldable pub portfolio_returns_from : Table F → Table (List F) → ℕ → ℕ → List F
  portfolio_returns_from weights aligned zero i = []
  portfolio_returns_from weights aligned (suc left) i =
      weighted_return weights aligned i ∷ portfolio_returns_from weights aligned left (i + 1)

  abbrev pub calculate_portfolio_returns : Table F → Table (List F) → ℕ → List F
  calculate_portfolio_returns weights aligned sample_size =
      portfolio_returns_from weights aligned sample_size 0

  -- `Math.min(...)` of the lengths; the list of assets is not empty where it is used.
  unfoldable pub min_length : Table (List F) → ℕ
  min_length [] = 0
  min_length (e ∷ []) = length e.1
  min_length (e ∷ f ∷ rest) = min (length e.1) (min_length (f ∷ rest))

  abbrev pub no_statistics : Matrix F → ℕ → StatisticalRiskMetrics F
  no_statistics correlations sample_size = record {
    ewma_volatility = int 0;
    var95 = int 0;
    cvar95 = int 0;
    max_drawdown = int 0;
    drawdown_band = normal;
    correlations = correlations;
    sample_size = sample_size;
  }

  abbrev pub drawdown_band_of : F → DrawdownBand
  drawdown_band_of d =
      if gt d (decimal 20 2)
      then DrawdownBand.critical
      else if gt d (decimal 10 2)
      then elevated
      else normal

  -- The windows of returns, the last 90 of each asset.
  unfoldable pub windowed_returns : RiskService F → List String → Table (List F)
  windowed_returns s assets =
      map
        (λ asset. (
          asset,
          slice_last correlation_window
              (map (λ (p : ReturnPoint F). p.value) (get_or asset s.return_series [])),
        ))
        assets

  abbrev pub align : ℕ → Table (List F) → Table (List F)
  align sample_size = map (λ e. (e.0, slice_last sample_size e.1))

  unfoldable pub full_statistics : Table F → Table (List F) → ℕ → StatisticalRiskMetrics F
  full_statistics weights aligned sample_size =
      let returns = calculate_portfolio_returns weights aligned sample_size in
      let (var95, cvar95) = calculate_var_and_cvar returns in
      let max_drawdown = calculate_max_drawdown returns in
      record {
        ewma_volatility = compute_ewma_volatility returns;
        var95 = var95;
        cvar95 = cvar95;
        max_drawdown = max_drawdown;
        drawdown_band = drawdown_band_of max_drawdown;
        correlations = build_correlation_matrix (keys weights) aligned sample_size;
        sample_size = sample_size;
      }

  -- The body of `computeStatisticalRiskMetrics` once the windows are cut.
  unfoldable pub window_statistics : Table F → Table (List F) → StatisticalRiskMetrics F
  window_statistics weights windowed =
      let assets = keys weights in
      let sample_size = min_length windowed in
      let aligned = align sample_size windowed in
      if leb sample_size 1
      then no_statistics (build_identity_correlations assets) 0
      else if ltb sample_size min_returns_for_stats
      then no_statistics (build_identity_correlations assets) sample_size
      else full_statistics weights aligned sample_size

  unfoldable pub compute_statistical_risk_metrics :
      RiskService F → Table F → StatisticalRiskMetrics F
  compute_statistical_risk_metrics s [] = no_statistics [] 0
  compute_statistical_risk_metrics s (e ∷ rest) =
      window_statistics (e ∷ rest) (windowed_returns s (keys (e ∷ rest)))
