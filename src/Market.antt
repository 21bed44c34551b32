-- ===== src/Market.antt =====
-- backend/src/services/circuitBreakers.ts: the checks that the automatic rebalancer makes.
pub mod Laws
mod Tests
use stellar_portfolio_rebala.Prelude.{
  ℕ, ◌+◌, String, Bool, true, false, not, ◌&&◌, ◌||◌, Option, none, some, List, [], ◌∷◌, map,
  length, filter, all, ltb, leb, template, if◌then◌else◌,
}
use stellar_portfolio_rebala.Prelude.Table.{Table, values}
use stellar_portfolio_rebala.Number.{Number, int, gt, or_zero, truthy}

pub record PriceData (F : Type 0) : Type 0 where
  pub price : F
  pub change : F
  pub timestamp : F

pub record Check : Type 0 where
  pub safe : Bool
  pub reason : Option String

abbrev pub passed : Check
passed = record { safe = true; reason = none }

abbrev pub failed : String → Check
failed reason = record { safe = false; reason = some reason }

-- The first check that fails, or the last one.
abbrev pub and_then : Check → Check → Check
and_then first second = if first.safe then second else first

module _ {F : Type 0} ⦃n : Number F⦄ where
  open n use {decimal, sub, mul, div, lt, to_fixed, to_text, floor}

  abbrev pub is_volatile : PriceData F → Bool
  is_volatile p = gt (n.abs p.change) (int 15)

  unfoldable pub check_volatility : Table (PriceData F) → Check
  check_volatility [] = passed
  check_volatility ((asset, p) ∷ prices) =
      if is_volatile p
      then failed (
          template (
            "High volatility detected: "
            ∷ asset
            ∷ " moved "
            ∷ to_fixed p.change 2
            ∷ "% in 24h"
            ∷ []))
      else check_volatility prices

  -- `Date.now() / 1000`, from milliseconds.
  abbrev pub seconds : ℕ → F
  seconds now = div (int now) (int 1000)

  abbrev pub is_stale : ℕ → PriceData F → Bool
  is_stale now p = truthy p.timestamp && gt (sub (seconds now) p.timestamp) (mul (int 10) (int 60))

  unfoldable pub check_data_freshness : ℕ → Table (PriceData F) → Check
  check_data_freshness now [] = passed
  check_data_freshness now ((asset, p) ∷ prices) =
      if is_stale now p
      then failed (
          template (
            "Stale price data for "
            ∷ asset
            ∷ ": "
            ∷ to_text (int (floor (div (sub (seconds now) p.timestamp) (int 60))))
            ∷ " minutes old"
            ∷ []))
      else check_data_freshness now prices

  -- The changes of more than 5% either way.
  abbrev pub significant_moves : Table (PriceData F) → List F
  significant_moves prices =
      filter (λ change. gt (n.abs change) (int 5))
        (map (λ (p : PriceData F). or_zero p.change) (values prices))

  abbrev pub is_up : F → Bool
  is_up change = gt change (int 0)

  abbrev pub is_down : F → Bool
  is_down change = lt change (int 0)

  unfoldable pub check_correlation : Table (PriceData F) → Check
  check_correlation prices =
      let moves = significant_moves prices in
      if leb 3 (length moves) && (all is_up moves || all is_down moves)
      then failed (
          template (
            "Extreme market correlation detected: all assets moving "
            ∷ (if all is_up moves then "up" else "down")
            ∷ " together"
            ∷ []))
      else passed

  unfoldable pub check_market_conditions : ℕ → Table (PriceData F) → Check
  check_market_conditions now prices =
      and_then (check_volatility prices)
        (and_then (check_data_freshness now prices) (check_correlation prices))

  -- `last` is `new Date(lastRebalance).getTime()`.
  unfoldable pub check_cooldown_period : ℕ → F → F → Check
  check_cooldown_period now last min_cooldown_hours =
      let hours = div (sub (int now) last) (mul (mul (int 1000) (int 60)) (int 60)) in
      if lt hours min_cooldown_hours
      then failed (
          template (
            "Cooldown active: "
            ∷ to_fixed (sub min_cooldown_hours hours) 1
            ∷ " hours remaining"
            ∷ []))
      else passed

  abbrev pub is_concentrated : F → Bool
  is_concentrated percentage = gt percentage (int 80)

  -- The loop over the allocations, and the test of their number after it.
  unfoldable pub check_each_concentration : Table F → Check → Check
  check_each_concentration [] last = last
  check_each_concentration ((asset, percentage) ∷ allocations) last =
      if is_concentrated percentage
      then failed (
          template (
            "Concentration risk: "
            ∷ asset
            ∷ " represents "
            ∷ to_fixed percentage 1
            ∷ "% of portfolio"
            ∷ []))
      else check_each_concentration allocations last

  abbrev pub active_assets : Table F → ℕ
  active_assets allocations = length (filter (λ pct. gt pct (int 1)) (values allocations))

  unfoldable pub check_concentration_risk : Table F → Check
  check_concentration_risk allocations = check_each_concentration allocations (
      if ltb (active_assets allocations) 1
      then failed (
          template (
            "Insufficient diversification: only "
            ∷ to_text (int (active_assets allocations))
            ∷ " assets with meaningful allocation"
            ∷ []))
      else passed)

  unfoldable pub check_trade_size : F → F → Check
  check_trade_size trade_amount portfolio_value =
      let percentage = mul (div trade_amount portfolio_value) (int 100) in
      if gt percentage (int 25)
      then failed (
          template (
            "Trade size too large: "
            ∷ to_fixed percentage 1
            ∷ "% of portfolio exceeds "
            ∷ to_text (int 25)
            ∷ "% limit"
            ∷ []))
      else if lt trade_amount (int 10)
      then failed (
          template (
            "Trade size too small: $"
            ∷ to_fixed trade_amount 2
            ∷ " below minimum $10 threshold"
            ∷ []))
      else passed
