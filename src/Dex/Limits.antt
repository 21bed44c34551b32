-- ===== src/Dex/Limits.antt =====
-- The settings from the environment are within their bounds, and so is the slippage of a trade.
use stellar_portfolio_rebala.Prelude.{ℕ, String, ◌≤◌, inl, inr, arith, Bool-cases, Option-cases}
use stellar_portfolio_rebala.Prelude.Table.{Table}
use stellar_portfolio_rebala.Number.{Number, int, IsOrdered, IsNum, ◌≼◌}
use stellar_portfolio_rebala.Dex.Settings.{env_text, read_number_env, get_default_execution_config}

module _ {F : Type 0} ⦃n : Number F⦄ (order : IsOrdered F) where
  open order use {num_of_le, max_bounds, min_bounds, min_greatest, finite_num, le_trans, decimal-le}

  clamped :
      (low high x : F)
      → low ≼ high
      → IsNum x
      → (low ≼ n.min high (n.max low x)) × (n.min high (n.max low x) ≼ high)
  clamped low high x ordered number =
      let (low_num, high_num) = num_of_le low high ordered in
      let (above, below) = max_bounds low x low_num number in
      let (num, max_num) = num_of_le low (n.max low x) above in
      (
        min_greatest high (n.max low x) low ordered above,
        (min_bounds high (n.max low x) high_num max_num).0,
      )

  read_number_env_range :
      (env : Table String) (name : String) (fallback low high : F)
      → low ≼ high
      → low ≼ fallback
      → fallback ≼ high
      → (low ≼ read_number_env env name fallback low high)
        × (read_number_env env name fallback low high ≼ high)
  unfolding read_number_env
  read_number_env_range env name fallback low high ordered above below =
      elim (Option-cases (env_text env name)) [
        | inl e ↦ rw (e, read_number_env) (above, below)
        | inr (raw, e) ↦
            rw (e, read_number_env)
              (elim (Bool-cases (n.is_finite (n.parse raw))) [
                | inl finite ↦
                    rw finite
                      (clamped low high (n.parse raw) ordered (finite_num (n.parse raw) finite))
                | inr infinite ↦ rw infinite (above, below)
              ])
      ]

  -- Whatever the environment holds, the default settings are numbers within their bounds: a trade's
  -- slippage from 1 to 5000 bps, that of a rebalance and the spread from 1 to 10000 bps, and the
  -- coverage from 0.1, where 0.1 is at most 1, to 100.
  pub get_default_execution_config_range :
      (env : Table String)
      → n.decimal 1 1 ≼ int 1
      → let config = get_default_execution_config {F = F} env in
        ((int 1 ≼ config.max_slippage_bps_per_trade)
          × (config.max_slippage_bps_per_trade ≼ int 5000))
        × ((int 1 ≼ config.max_slippage_bps_per_rebalance)
            × (config.max_slippage_bps_per_rebalance ≼ int 10_000))
        × ((int 1 ≼ config.max_spread_bps) × (config.max_spread_bps ≼ int 10_000))
        × ((n.decimal 1 1 ≼ config.min_liquidity_coverage)
            × (config.min_liquidity_coverage ≼ int 100))
  unfolding get_default_execution_config
  get_default_execution_config_range env tenth =
      let between = λ (a b : ℕ) (h : a ≤ b). decimal-le a b 0 h in
      let in_range =
        λ (name : String) (fallback low high : ℕ) (a : low ≤ fallback) (b : fallback ≤ high).
          read_number_env_range env name (int fallback) (int low) (int high)
            (between low high (omega (arith, a, b))) (between low fallback a)
            (between fallback high b) in
      (
        in_range "REBALANCE_MAX_TRADE_SLIPPAGE_BPS" 100 1 5000 (omega arith) (omega arith),
        in_range "REBALANCE_MAX_TOTAL_SLIPPAGE_BPS" 250 1 10_000 (omega arith) (omega arith),
        in_range "REBALANCE_MAX_SPREAD_BPS" 120 1 10_000 (omega arith) (omega arith),
        read_number_env_range env "REBALANCE_MIN_LIQUIDITY_COVERAGE" (int 1) (n.decimal 1 1)
            (int 100)
            (le_trans (n.decimal 1 1) (int 1) (int 100) tenth (between 1 100 (omega arith))) tenth
            (between 1 100 (omega arith)),
      )
