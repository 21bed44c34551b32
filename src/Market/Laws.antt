-- ===== src/Market/Laws.antt =====
-- What the checks of `CircuitBreakers` accept, stated on the prices and allocations.
use stellar_portfolio_rebala.Prelude.{
  le→ltb_false, ℕ, ◌≡◌, refl, ◌↔◌, inl, inr, String, Bool, true, false, not, ◌&&◌, ◌||◌, none, List,
  [], ◌∷◌, arith, length, filter, all, Bool-cases, if◌then◌else◌, ltb, leb, any,
}
use stellar_portfolio_rebala.Prelude.Table.{Table, values}
use stellar_portfolio_rebala.Number.{Number, int, gt}
use stellar_portfolio_rebala.Market.{
  PriceData, Check, passed, failed, and_then, is_volatile, check_volatility, is_stale,
  check_data_freshness, significant_moves, is_up, is_down, check_correlation,
  check_market_conditions, is_concentrated, check_each_concentration, active_assets,
  check_concentration_risk, check_cooldown_period, check_trade_size,
}

-- A check gives a reason exactly if it fails.
abbrev pub IsCoherent : Check → Type 0
IsCoherent check = (check.safe ≡ true) ↔ (check.reason ≡ none)

passed-IsCoherent : IsCoherent passed
passed-IsCoherent = (λ _. refl, λ _. refl)

failed-IsCoherent : (reason : String) → IsCoherent (failed reason)
failed-IsCoherent reason = (λ h. ground arith, λ h. ground arith)

if-IsCoherent :
    (b : Bool) {c d : Check} → IsCoherent c → IsCoherent d → IsCoherent (if b then c else d)
if-IsCoherent true hc hd = hc
if-IsCoherent false hc hd = hd

and_then-IsCoherent : (c d : Check) → IsCoherent c → IsCoherent d → IsCoherent (and_then c d)
and_then-IsCoherent c d hc hd = if-IsCoherent c.safe hd hc

and_then-safe : (c d : Check) → (and_then c d).safe ≡ c.safe && d.safe
and_then-safe c d = elim (Bool-cases c.safe) [ inl h ↦ rw h refl | inr h ↦ rw h refl ]

if-safe : (b : Bool) (reason : String) → (if b then failed reason else passed).safe ≡ not b
if-safe true reason = refl
if-safe false reason = refl

none_holds :
    (a b c : Bool) → ((not a && (not b && not c)) ≡ true) ↔ (a ≡ false) × (b ≡ false) × (c ≡ false)
none_holds a b c = (λ h. ground arith, λ h. ground arith)

module _ {F : Type 0} ⦃n : Number F⦄ where
  open n use {mul, div, lt}

  check_volatility_safe :
      (prices : Table (PriceData F))
      → (check_volatility prices).safe ≡ not (any is_volatile (values prices))
  unfolding check_volatility
  check_volatility_safe [] = refl
  check_volatility_safe ((asset, p) ∷ prices) = ground (arith, check_volatility_safe prices)

  check_data_freshness_safe :
      (now : ℕ) (prices : Table (PriceData F))
      → (check_data_freshness now prices).safe ≡ not (any (is_stale now) (values prices))
  unfolding check_data_freshness
  check_data_freshness_safe now [] = refl
  check_data_freshness_safe now ((asset, p) ∷ prices) =
      ground (arith, check_data_freshness_safe now prices)

  -- At least three significant moves, all in one direction.
  abbrev pub moves_together : Table (PriceData F) → Bool
  moves_together prices =
      let moves = significant_moves prices in
      leb 3 (length moves) && (all is_up moves || all is_down moves)

  -- The market is safe exactly if no asset moved by more than 15%, no price with a timestamp is
  -- older than ten minutes, and there are no three or more moves above 5% all in one direction.
  pub check_market_conditions_iff :
      (now : ℕ) (prices : Table (PriceData F))
      → ((check_market_conditions now prices).safe ≡ true)
        ↔ (any is_volatile (values prices) ≡ false)
          × (any (is_stale now) (values prices) ≡ false)
          × (moves_together prices ≡ false)
  unfolding check_market_conditions check_correlation
  check_market_conditions_iff now prices =
      rw
        (
          and_then-safe (check_volatility prices)
              (and_then (check_data_freshness now prices) (check_correlation prices)),
          and_then-safe (check_data_freshness now prices) (check_correlation prices),
          check_volatility_safe prices,
          check_data_freshness_safe now prices,
          if-safe (moves_together prices),
        )
        (none_holds (any is_volatile (values prices)) (any (is_stale now) (values prices))
          (moves_together prices))

  check_volatility-IsCoherent :
      (prices : Table (PriceData F)) → IsCoherent (check_volatility prices)
  unfolding check_volatility
  check_volatility-IsCoherent [] = passed-IsCoherent
  check_volatility-IsCoherent ((asset, p) ∷ prices) =
      if-IsCoherent (is_volatile p) (failed-IsCoherent _) (check_volatility-IsCoherent prices)

  check_data_freshness-IsCoherent :
      (now : ℕ) (prices : Table (PriceData F)) → IsCoherent (check_data_freshness now prices)
  unfolding check_data_freshness
  check_data_freshness-IsCoherent now [] = passed-IsCoherent
  check_data_freshness-IsCoherent now ((asset, p) ∷ prices) =
      if-IsCoherent (is_stale now p) (failed-IsCoherent _)
        (check_data_freshness-IsCoherent now prices)

  check_correlation-IsCoherent :
      (prices : Table (PriceData F)) → IsCoherent (check_correlation prices)
  unfolding check_correlation
  check_correlation-IsCoherent prices =
      if-IsCoherent (moves_together prices) (failed-IsCoherent _) passed-IsCoherent

  check_each_concentration-IsCoherent :
      (allocations : Table F) (last : Check)
      → IsCoherent last
      → IsCoherent (check_each_concentration allocations last)
  unfolding check_each_concentration
  check_each_concentration-IsCoherent [] last h = h
  check_each_concentration-IsCoherent ((asset, pct) ∷ allocations) last h =
      if-IsCoherent (is_concentrated pct) (failed-IsCoherent _)
        (check_each_concentration-IsCoherent allocations last h)

  -- Each of the four checks gives a reason exactly if it fails.
  pub check_reason :
      (now : ℕ) (prices : Table (PriceData F)) (allocations : Table F)
      → (last hours trade value : F)
      → IsCoherent (check_market_conditions now prices)
        × IsCoherent (check_concentration_risk allocations)
        × IsCoherent (check_cooldown_period now last hours)
        × IsCoherent (check_trade_size trade value)
  unfolding check_market_conditions check_concentration_risk check_cooldown_period check_trade_size
  check_reason now prices allocations last hours trade value = (
    and_then-IsCoherent (check_volatility prices) _ (check_volatility-IsCoherent prices) (
        and_then-IsCoherent (check_data_freshness now prices) _
          (check_data_freshness-IsCoherent now prices) (check_correlation-IsCoherent prices)),
    check_each_concentration-IsCoherent allocations _
        (if-IsCoherent (ltb (active_assets allocations) 1) (failed-IsCoherent _) passed-IsCoherent),
    if-IsCoherent _ (failed-IsCoherent _) passed-IsCoherent,
    if-IsCoherent (gt (mul (div trade value) (int 100)) (int 25)) (failed-IsCoherent _)
        (if-IsCoherent (lt trade (int 10)) (failed-IsCoherent _) passed-IsCoherent),
  )

  check_each_concentration_safe :
      (allocations : Table F) (last : Check)
      → (check_each_concentration allocations last).safe
        ≡ not (any is_concentrated (values allocations)) && last.safe
  unfolding check_each_concentration
  check_each_concentration_safe [] last = refl
  check_each_concentration_safe ((asset, pct) ∷ allocations) last =
      ground (arith, check_each_concentration_safe allocations last)

  few-filter : (p : F → Bool) (xs : List F) → ltb (length (filter p xs)) 1 ≡ not (any p xs)
  few-filter p [] = refl
  few-filter p (x ∷ xs) = elim (Bool-cases (p x)) [
    | inl h ↦ rw h (le→ltb_false _ _ (ground arith))
    | inr h ↦ rw h (few-filter p xs)
  ]

  -- An allocation is safe exactly if no asset is above 80% and at least one is above 1%.
  pub check_concentration_risk_iff :
      (allocations : Table F)
      → ((check_concentration_risk allocations).safe ≡ true)
        ↔ (any is_concentrated (values allocations) ≡ false)
          × (any (λ pct. gt pct (int 1)) (values allocations) ≡ true)
  unfolding check_concentration_risk
  check_concentration_risk_iff allocations =
      rw
        (
          check_each_concentration_safe allocations,
          if-safe (ltb (active_assets allocations) 1),
          few-filter (λ pct. gt pct (int 1)) (values allocations),
        )
        (λ h. ground arith, λ h. ground arith)
