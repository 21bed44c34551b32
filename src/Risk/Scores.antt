-- ===== src/Risk/Scores.antt =====
-- The scores of backend/src/services/riskManagements.ts: normalised weights, the risk of a
-- portfolio, recommendations and the heatmap.
use stellar_portfolio_rebala.Prelude.{
  ℕ, ◌+◌, String, Bool, true, false, not, ◌&&◌, ◌||◌, List, [], ◌∷◌, ◌++◌, map, foldl, length,
  filter, ltb, template, if◌then◌else◌,
}
use stellar_portfolio_rebala.Prelude.Table.{Table, get_or, keys, values}
use stellar_portfolio_rebala.Number.{Number, int, gt, max_of, sum}
use stellar_portfolio_rebala.Risk.Correlation.{build_identity_correlations}
use stellar_portfolio_rebala.Risk.Stats.{compute_statistical_risk_metrics}
use stellar_portfolio_rebala.Risk.Types.{
  DrawdownBand, RiskLevel, low, medium, high, Matrix, RiskMetrics, RiskService,
}

pub record Diagnostic (F : Type 0) : Type 0 where
  pub score : F
  pub level : RiskLevel

pub record RiskHeatmap (F : Type 0) : Type 0 where
  pub concentration : Diagnostic F
  pub volatility : Diagnostic F
  pub drawdown : Diagnostic F

abbrev pub when : Bool → String → List String
when test text = if test then text ∷ [] else []

abbrev pub is_raised : DrawdownBand → Bool
is_raised DrawdownBand.normal = false
is_raised _ = true

module _ {F : Type 0} ⦃n : Number F⦄ where
  open n use {decimal, add, sub, mul, div, lt, le, is_finite}

  abbrev pub ewma_vol_block_threshold : F
  ewma_vol_block_threshold = decimal 8 2

  abbrev pub var95_block_threshold : F
  var95_block_threshold = decimal 12 2

  abbrev pub cvar95_block_threshold : F
  cvar95_block_threshold = decimal 16 2

  abbrev pub drawdown_block_threshold : F
  drawdown_block_threshold = decimal 25 2

  abbrev pub concentration_limit : F
  concentration_limit = decimal 70 2

  abbrev pub is_usable : String × F → Bool
  is_usable e = is_finite e.1 && not (le e.1 (int 0))

  -- Both branches of the source's `asFraction` test divide by the sum.
  unfoldable pub normalize_allocations : Table F → Table F
  normalize_allocations allocations =
      let cleaned = filter is_usable allocations in
      let total = sum (values cleaned) in
      if le total (int 0)
      then []
      else map (λ e. (e.0, if gt total (decimal 15 1) then div e.1 total else div e.1 total))
          cleaned

  unfoldable pub safe_ratio : F → F → F
  safe_ratio numerator denominator =
      if not (is_finite numerator) || (not (is_finite denominator) || le denominator (int 0))
      then int 0
      else div numerator denominator

  unfoldable pub calculate_concentration_risk : Table F → F
  calculate_concentration_risk weights =
      n.min (int 1) (safe_ratio (max_of (int 0) (values weights)) concentration_limit)

  unfoldable pub calculate_volatility_score : F → F
  calculate_volatility_score ewma = n.min (int 1) (safe_ratio ewma ewma_vol_block_threshold)

  abbrev pub liquidity_score : String → F
  liquidity_score asset =
      get_or asset
        (("USDC", decimal 95 2)
          ∷ ("BTC", decimal 90 2)
          ∷ ("ETH", decimal 85 2)
          ∷ ("XLM", decimal 70 2)
          ∷ [])
        (decimal 5 1)

  unfoldable pub calculate_liquidity_risk : Table F → F
  calculate_liquidity_risk weights =
      let weighted = foldl (λ total e. add total (mul (liquidity_score e.0) e.1)) (int 0) weights in
      sub (int 1) (n.min (int 1) (n.max (int 0) weighted))

  -- The inner loop: the pairs of one asset with the later ones.
  unfoldable pub correlation_row : Table F → List String → F × ℕ → F × ℕ
  correlation_row row [] (total, count) = (total, count)
  correlation_row row (b ∷ later) (total, count) =
      correlation_row row later (add total (n.abs (get_or b row (int 0))), count + 1)

  unfoldable pub correlation_pairs : Matrix F → List String → F × ℕ → F × ℕ
  correlation_pairs correlations [] acc = acc
  correlation_pairs correlations (a ∷ later) acc =
      correlation_pairs correlations later (correlation_row (get_or a correlations []) later acc)

  unfoldable pub calculate_correlation_risk : Matrix F → F
  calculate_correlation_risk correlations =
      let assets = keys correlations in
      let (total, count) = correlation_pairs correlations assets (int 0, 0) in
      if ltb (length assets) 2
      then int 0
      else if ltb 0 count
      then n.min (int 1) (div total (int count))
      else int 0

  -- The scores are the argument's first one and the rest.
  unfoldable pub determine_overall_risk : F → List F → RiskLevel
  determine_overall_risk score scores =
      let avg_risk = div (sum (score ∷ scores)) (int (length (score ∷ scores))) in
      let max_risk = max_of score scores in
      if gt max_risk (decimal 9 1) || gt avg_risk (decimal 8 1)
      then RiskLevel.critical
      else if gt max_risk (decimal 7 1) || gt avg_risk (decimal 6 1)
      then high
      else if gt max_risk (decimal 4 1) || gt avg_risk (decimal 3 1)
      then medium
      else low

  unfoldable pub analyze_portfolio_risk : RiskService F → Table F → RiskMetrics F
  analyze_portfolio_risk s allocations =
      let weights = normalize_allocations allocations in
      let stats = compute_statistical_risk_metrics s weights in
      let concentration_risk = calculate_concentration_risk weights in
      let liquidity_risk = calculate_liquidity_risk weights in
      let correlation_risk = calculate_correlation_risk stats.correlations in
      let volatility_score = calculate_volatility_score stats.ewma_volatility in
      let var_score = safe_ratio stats.var95 var95_block_threshold in
      let cvar_score = safe_ratio stats.cvar95 cvar95_block_threshold in
      let drawdown_score = safe_ratio stats.max_drawdown drawdown_block_threshold in
      record {
        statistics = record stats {
          correlations =
              if ltb 0 (length (keys stats.correlations))
              then stats.correlations
              else build_identity_correlations (keys weights);
        };
        volatility = volatility_score;
        concentration_risk = concentration_risk;
        liquidity_risk = liquidity_risk;
        correlation_risk = correlation_risk;
        overall_risk_level = determine_overall_risk concentration_risk (
            volatility_score ∷ liquidity_risk ∷ correlation_risk ∷ var_score ∷ cvar_score
            ∷ drawdown_score ∷ []);
      }

  -- The reduction that finds the asset with the greatest weight.
  abbrev pub heavier : String × F → String × F → String × F
  heavier best e = if gt e.1 best.1 then e else best

  unfoldable pub get_recommendations : RiskMetrics F → Table F → List String
  get_recommendations m allocations =
      let best = foldl heavier ("", int 0) (normalize_allocations allocations) in
      let found =
        when (gt m.concentration_risk (decimal 6 1))
          (template ("Consider reducing " ∷ best.0 ∷ " allocation to improve diversification" ∷ []))
        ++ (when (gt m.var95 (mul var95_block_threshold (decimal 8 1)))
              "Portfolio VaR is elevated. Reduce directional concentration or hedge downside"
            ++ (when (gt m.cvar95 (mul cvar95_block_threshold (decimal 8 1)))
                  "Portfolio tail-risk is elevated. Reduce high-volatility exposures"
                ++ (when (is_raised m.drawdown_band)
                      "Drawdown risk band is elevated. Avoid aggressive rebalance turnover"
                    ++ when (gt m.correlation_risk (decimal 8 1))
                        "Assets are highly correlated. Diversify into lower-correlation assets"))) in
      if ltb 0 (length found)
      then found
      else "Portfolio risk levels are within acceptable statistical bounds" ∷ []

  abbrev pub heatmap_level : F → RiskLevel
  heatmap_level score =
      if gt score (decimal 8 1) then high else if gt score (decimal 4 1) then medium else low

  abbrev pub clamp_unit : F → F
  clamp_unit x = n.min (int 1) (n.max (int 0) x)

  abbrev pub diagnostic : F → Diagnostic F
  diagnostic x = record {
    score = n.parse (n.to_fixed (clamp_unit x) 4);
    level = heatmap_level (clamp_unit x);
  }

  unfoldable pub calculate_risk_heatmap : RiskService F → Table F → RiskHeatmap F
  calculate_risk_heatmap s allocations =
      let weights = normalize_allocations allocations in
      let stats = compute_statistical_risk_metrics s weights in
      record {
        concentration = diagnostic (calculate_concentration_risk weights);
        volatility = diagnostic (calculate_volatility_score stats.ewma_volatility);
        drawdown = diagnostic (safe_ratio stats.max_drawdown drawdown_block_threshold);
      }
