-- ===== src/Risk/Cooldown.antt =====
-- What the circuit breakers of `RiskManagementService` guarantee between calls.
use stellar_portfolio_rebala.Prelude.{
  ℕ, ◌+◌, ◌≤◌, ◌<◌, ◌≡◌, String, Bool, true, false, ◌&&◌, Option, none, some, [], ◌∷◌, arith, inl,
  inr, Bool-cases, Option-cases, str_eq, eq_iff, leb, if◌then◌else◌,
}
use stellar_portfolio_rebala.Prelude.Table.{
  Table, lookup, get_or, insert, lookup-insert, any-values, lookup-map_values,
}
use stellar_portfolio_rebala.Number.{Number}
use stellar_portfolio_rebala.Risk.Breakers.{
  circuit_breaker_cooldown, circuit_breaker_threshold, check_circuit_breaker, last_prices,
  price_change, trigger, triggered, ensure_breaker, ingest, is_price, update_asset,
  update_price_data, is_active, clear_expired, get_circuit_breaker_status, untriggered,
}
use stellar_portfolio_rebala.Risk.Breakers.Effects.{ingest-breakers}
use stellar_portfolio_rebala.Risk.Decision.{has_active_circuit_breaker}
use stellar_portfolio_rebala.Risk.Types.{CircuitBreakerStatus, RiskService}

-- The breaker is set, and its cooldown lasts until `until` at least.
abbrev pub lasts_until : ℕ → CircuitBreakerStatus → Bool
lasts_until until cb =
    cb.is_triggered && elim cb.cooldown_until [ none ↦ false | some end ↦ leb until end ]

abbrev pub lasts_at : ℕ → Option CircuitBreakerStatus → Bool
lasts_at until none = false
lasts_at until (some cb) = lasts_until until cb

-- The asset's breaker is set, and its cooldown lasts until `until` at least.
abbrev pub HoldsUntil : {F : Type 0} → String → ℕ → RiskService F → Type 0
HoldsUntil asset until s = lasts_at until (lookup asset s.circuit_breakers) ≡ true

-- A breaker that lasts beyond `now` blocks.
pub HoldsUntil-active :
    {F : Type 0} (asset : String) (until now : ℕ) (s : RiskService F)
    → HoldsUntil asset until s
    → now < until
    → has_active_circuit_breaker now s ≡ true
unfolding has_active_circuit_breaker
HoldsUntil-active asset until now s h later =
    elim (Option-cases (lookup asset s.circuit_breakers)) [
      | inl e ↦ absurd (ground arith)
      | inr (cb, e) ↦ any-values (is_active now) asset s.circuit_breakers cb e (ground arith)
    ]

lasts_at-insert :
    (until : ℕ) (asset a : String) (cb : CircuitBreakerStatus) (m : Table CircuitBreakerStatus)
    → lasts_at until (lookup asset (insert a cb m))
      ≡ (if str_eq a asset then lasts_until until cb else lasts_at until (lookup asset m))
lasts_at-insert until asset a cb m = ground (arith, lookup-insert a asset cb m)

-- Reading the status never resets a breaker before its cooldown ends.
pub status-HoldsUntil :
    {F : Type 0} (asset : String) (until now : ℕ) (s : RiskService F)
    → HoldsUntil asset until s
    → now ≤ until
    → HoldsUntil asset until (get_circuit_breaker_status now s).0
unfolding get_circuit_breaker_status
status-HoldsUntil asset until now s h later =
    ground (arith, lookup-map_values (clear_expired now) asset s.circuit_breakers)

module _ {F : Type 0} ⦃n : Number F⦄ where
  open n use {le}

  ensure_breaker-HoldsUntil :
      (asset a : String) (until : ℕ) (s : RiskService F)
      → HoldsUntil asset until s
      → HoldsUntil asset until (ensure_breaker a s)
  ensure_breaker-HoldsUntil asset a until s h =
      ground (arith, eq_iff a asset, lasts_at-insert until asset a untriggered s.circuit_breakers)

  trigger-HoldsUntil :
      (asset a : String) (until now : ℕ) (change : F) (s : RiskService F)
      → HoldsUntil asset until s
      → until ≤ now + circuit_breaker_cooldown
      → HoldsUntil asset until (trigger now a change s)
  trigger-HoldsUntil asset a until now change s h late =
      ground (arith, lasts_at-insert until asset a (triggered now a change) s.circuit_breakers)

  check-HoldsUntil :
      (asset a : String) (until now : ℕ) (s : RiskService F)
      → HoldsUntil asset until s
      → until ≤ now + circuit_breaker_cooldown
      → HoldsUntil asset until (check_circuit_breaker now s a).0
  unfolding check_circuit_breaker
  check-HoldsUntil asset a until now s h late =
      elim (Option-cases (last_prices (get_or a s.price_history []))) [
        | inl e ↦ rw (e, check_circuit_breaker) h
        | inr (prices, e) ↦ elim (Bool-cases (le (price_change prices) circuit_breaker_threshold)) [
          | inl small ↦ rw (e, check_circuit_breaker, small) h
          | inr large ↦
              rw (e, check_circuit_breaker, large)
                (trigger-HoldsUntil asset a until now (price_change prices) s h late)
        ]
      ]

  update_asset-HoldsUntil :
      (asset a : String) (until now : ℕ) (price : F) (s : RiskService F)
      → HoldsUntil asset until s
      → until ≤ now + circuit_breaker_cooldown
      → HoldsUntil asset until (update_asset now a price s).0
  unfolding update_asset
  update_asset-HoldsUntil asset a until now price s h late =
      let kept : HoldsUntil asset until (ingest now a price s) =
        rw (ingest-breakers now a price s) (ensure_breaker-HoldsUntil asset a until s h) in
      let checked = check-HoldsUntil asset a until now (ingest now a price s) kept late in
      elim (Bool-cases (is_price price)) [
        | inl good ↦ rw (good, update_asset) checked
        | inr bad ↦ rw (bad, update_asset) h
      ]

  -- A batch of prices never shortens a cooldown that is running.
  pub update-HoldsUntil :
      (asset : String) (until now : ℕ) (prices : Table F) (s : RiskService F)
      → HoldsUntil asset until s
      → until ≤ now + circuit_breaker_cooldown
      → HoldsUntil asset until (update_price_data now prices s).0
  unfolding update_price_data
  update-HoldsUntil asset until now [] s h late = h
  update-HoldsUntil asset until now ((a, price) ∷ prices) s h late =
      update-HoldsUntil asset until now prices (update_asset now a price s).0
        (update_asset-HoldsUntil asset a until now price s h late) late
