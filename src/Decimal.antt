-- ===== src/Decimal.antt =====
-- backend/src/utils/decimal.ts: arithmetic rounded to a fixed number of decimal places.
use stellar_portfolio_rebala.Prelude.{ℕ, String, Bool, foldl, if◌then◌else◌}
use stellar_portfolio_rebala.Prelude.Table.{Table, values}
use stellar_portfolio_rebala.Number.{Number, int, same}

module _ {F : Type 0} ⦃n : Number F⦄ where
  open n use {decimal, pow, round, le, to_fixed}

  abbrev pub stroop : F
  stroop = int 10_000_000

  abbrev pub pct_scale : F
  pct_scale = int 100_000_000

  abbrev pub bps_scale : F
  bps_scale = int 10_000

  abbrev pub alloc_epsilon : F
  alloc_epsilon = decimal 1 2

  unfoldable pub round_half_up : F → ℕ → F
  round_half_up value dp = let factor = pow (int 10) dp in n.div (round (n.mul value factor)) factor

  abbrev pub add : F → F → F
  add a b = round_half_up (n.add a b) 8

  abbrev pub sub : F → F → F
  sub a b = round_half_up (n.sub a b) 8

  abbrev pub mul : F → F → F
  mul a b = round_half_up (n.mul a b) 8

  abbrev pub div : F → F → F
  div a b = if same b (int 0) then int 0 else round_half_up (n.div a b) 8

  abbrev pub round_stellar : F → F
  round_stellar amount = round_half_up amount 7

  abbrev pub round_pct : F → F
  round_pct value = round_half_up value 8

  abbrev pub round_bps : F → F
  round_bps value = round_half_up value 4

  unfoldable pub allocations_sum : Table F → F
  allocations_sum allocations =
      n.div (foldl (λ acc v. n.add acc (round (n.mul v pct_scale))) (int 0) (values allocations))
        pct_scale

  unfoldable pub allocations_sum_valid : Table F → Bool
  allocations_sum_valid allocations =
      le (n.abs (n.sub (allocations_sum allocations) (int 100))) alloc_epsilon

  abbrev pub percentage : F → F → F
  percentage part total =
      if same total (int 0) then int 0 else round_half_up (n.mul (n.div part total) (int 100)) 8

  abbrev pub drift : F → F → F
  drift current target = round_half_up (n.abs (n.sub current target)) 8

  abbrev pub target_value : F → F → F
  target_value total pct =
      if same total (int 0) then int 0 else round_half_up (n.div (n.mul total pct) (int 100)) 8

  abbrev pub asset_qty_from_value : F → F → F
  asset_qty_from_value value price =
      if same price (int 0) then int 0 else round_stellar (n.div value price)

  abbrev pub price_limit : F → F → F
  price_limit reference_price max_slippage_bps =
      round_stellar
        (n.mul reference_price (round_half_up (n.sub (int 1) (n.div max_slippage_bps bps_scale)) 8))

  abbrev pub add_stroop_fee : F → F → F
  add_stroop_fee current_xlm stroops = round_half_up (n.add current_xlm (n.div stroops stroop)) 7

  abbrev pub format_stellar : F → String
  format_stellar amount = to_fixed (round_stellar amount) 7

  abbrev pub format_pct : F → ℕ → String
  format_pct value dp = to_fixed (round_half_up value dp) dp

  abbrev pub format_bps : F → ℕ → String
  format_bps value dp = to_fixed (round_half_up value dp) dp

  abbrev pub format_ratio : F → ℕ → String
  format_ratio ratio dp = to_fixed (round_half_up (n.mul ratio (int 100)) dp) dp
