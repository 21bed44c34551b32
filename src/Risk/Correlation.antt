-- ===== src/Risk/Correlation.antt =====
-- The correlation matrices of backend/src/services/riskManagements.ts.
use stellar_portfolio_rebala.Prelude.{
  ℕ, min, String, List, [], ◌∷◌, map, length, slice_last, str_eq, ltb, if◌then◌else◌,
}
use stellar_portfolio_rebala.Prelude.Table.{Table, get_or}
use stellar_portfolio_rebala.Number.{Number, int, same, sum}
use stellar_portfolio_rebala.Risk.Types.{Matrix}

-- The sums of the loop of `calculatePearson`.
pub record Moments (F : Type 0) : Type 0 where
  pub numerator : F
  pub var_a : F
  pub var_b : F

module _ {F : Type 0} ⦃n : Number F⦄ where
  open n use {add, sub, mul, div, neg, sqrt}

  -- The rounds of the loop, over the indices that both series have.
  unfoldable pub pearson_loop : F → F → List F → List F → Moments F → Moments F
  pearson_loop mean_a mean_b (a ∷ xs) (b ∷ ys) m =
      let da = sub a mean_a in
      let db = sub b mean_b in
      pearson_loop mean_a mean_b xs ys (record {
        numerator = add m.numerator (mul da db);
        var_a = add m.var_a (mul da da);
        var_b = add m.var_b (mul db db);
      })
  pearson_loop mean_a mean_b _ _ m = m

  abbrev pub no_moments : Moments F
  no_moments = record { numerator = int 0; var_a = int 0; var_b = int 0 }

  -- The end of `calculatePearson`, on the sums of its loop.
  unfoldable pub correlation_of : Moments F → F
  correlation_of m =
      let denominator = sqrt (mul m.var_a m.var_b) in
      if same denominator (int 0)
      then int 0
      else n.max (neg (int 1)) (n.min (int 1) (div m.numerator denominator))

  unfoldable pub calculate_pearson : List F → List F → F
  calculate_pearson series_a series_b =
      let count = min (length series_a) (length series_b) in
      let mean_a = div (sum series_a) (int count) in
      let mean_b = div (sum series_b) (int count) in
      if ltb count 2
      then int 0
      else correlation_of (pearson_loop mean_a mean_b series_a series_b no_moments)

  -- `alignedReturns[asset]`; every asset of the portfolio has a series.
  abbrev pub series_of : Table (List F) → String → List F
  series_of aligned asset = get_or asset aligned []

  abbrev pub build_matrix : (String → String → F) → List String → Matrix F
  build_matrix entry assets = map (λ a. (a, map (λ b. (b, entry a b)) assets)) assets

  unfoldable pub identity_entry : String → String → F
  identity_entry a b = if str_eq a b then int 1 else int 0

  abbrev pub build_identity_correlations : List String → Matrix F
  build_identity_correlations = build_matrix identity_entry

  unfoldable pub correlation_entry : Table (List F) → ℕ → String → String → F
  correlation_entry aligned sample_size a b =
      if str_eq a b
      then int 1
      else calculate_pearson (slice_last sample_size (series_of aligned a))
          (slice_last sample_size (series_of aligned b))

  abbrev pub build_correlation_matrix : List String → Table (List F) → ℕ → Matrix F
  build_correlation_matrix assets aligned sample_size =
      build_matrix (correlation_entry aligned sample_size) assets
