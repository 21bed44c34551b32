-- ===== src/Risk/Breakers.antt =====
-- The price histories and circuit breakers of backend/src/services/riskManagements.ts. A call reads
-- the clock as one number, `now`, in milliseconds.
pub mod Push
pub mod Effects
use stellar_portfolio_rebala.Prelude.{
  ℕ, ◌+◌, ◌-◌, String, Bool, true, false, not, ◌&&◌, Option, none, some, List, [], ◌∷◌, ◌++◌, map,
  foldl, length, get_elem?, slice_last, ltb, template, if◌then◌else◌,
}
use stellar_portfolio_rebala.Prelude.Table.{Table, insert, get_or, has}
use stellar_portfolio_rebala.Number.{Number, int, gt}
use stellar_portfolio_rebala.Risk.Stats.{compute_ewma_volatility}
use stellar_portfolio_rebala.Risk.Types.{
  RiskAlert, circuit_breaker, Severity, warning, CircuitBreakerStatus, AlertType, ReturnPoint,
  PricePoint, RiskService,
}

abbrev pub max_price_history : ℕ
max_price_history = 400

abbrev pub max_return_history : ℕ
max_return_history = 400

abbrev pub circuit_breaker_cooldown : ℕ
circuit_breaker_cooldown = 300_000

abbrev pub untriggered : CircuitBreakerStatus
untriggered = record {
  is_triggered = false;
  trigger_reason = none;
  cooldown_until = none;
  triggered_assets = [];
}

-- `symbols` is what the asset registry lists.
unfoldable pub initial_symbols : List String → List String
initial_symbols [] = "XLM" ∷ "BTC" ∷ "ETH" ∷ "USDC" ∷ []
initial_symbols (s ∷ symbols) = s ∷ symbols

-- The last entry of a list.
abbrev pub last? {ℓ} : {A : Type ℓ} → List A → Option A
last? xs = get_elem? xs (length xs - 1)

-- `push`, and then `slice` where the list has outgrown its bound.
unfoldable pub push_bounded {ℓ} : {A : Type ℓ} → ℕ → List A → A → List A
push_bounded bound xs x =
    let pushed = xs ++ (x ∷ []) in
    if ltb bound (length pushed) then slice_last bound pushed else pushed

abbrev pub alerts_of : Option RiskAlert → List RiskAlert
alerts_of none = []
alerts_of (some alert) = alert ∷ []

module _ {F : Type 0} ⦃n : Number F⦄ where
  open n use {decimal, sub, mul, div, le, is_finite, to_fixed}

  abbrev pub new_service : List String → RiskService F
  new_service symbols = record {
    price_history = [];
    return_series = [];
    circuit_breakers = foldl (λ m asset. insert asset untriggered m) [] (initial_symbols symbols);
  }

  abbrev pub volatility_alert_threshold : F
  volatility_alert_threshold = decimal 15 2

  abbrev pub circuit_breaker_threshold : F
  circuit_breaker_threshold = decimal 20 2

  abbrev pub return_values : List (ReturnPoint F) → List F
  return_values = map (λ p. p.value)

  unfoldable pub check_volatility : ℕ → RiskService F → String → Option RiskAlert
  check_volatility now s asset =
      let series = get_or asset s.return_series [] in
      let ewma_vol = compute_ewma_volatility (slice_last 30 (return_values series)) in
      if ltb (length series) 10
      then none
      else if le ewma_vol volatility_alert_threshold
      then none
      else some (record {
        type = AlertType.volatility;
        severity =
            if gt ewma_vol (mul volatility_alert_threshold (decimal 15 1))
            then Severity.critical
            else warning;
        message = template (
            "High EWMA volatility detected in "
            ∷ asset
            ∷ " ("
            ∷ to_fixed (mul ewma_vol (int 100)) 2
            ∷ "%)"
            ∷ []);
        asset = some asset;
        recommended_action = "Consider reducing exposure or widening rebalance cooldown";
        timestamp = now;
      })

  -- The last price and the one before it, once there are two.
  unfoldable pub last_prices : List (PricePoint F) → Option (F × F)
  last_prices history =
      if ltb (length history) 2 then none else elim (get_elem? history (length history - 1)) [
        | none ↦ none
        | some current ↦ elim (get_elem? history (length history - 2)) [
          | none ↦ none
          | some previous ↦ some (current.price, previous.price)
        ]
      ]

  abbrev pub price_change : F × F → F
  price_change (current, previous) = div (n.abs (sub current previous)) previous

  abbrev pub triggered : ℕ → String → F → CircuitBreakerStatus
  triggered now asset change = record {
    is_triggered = true;
    trigger_reason = some (template (to_fixed (mul change (int 100)) 1 ∷ "% price movement" ∷ []));
    cooldown_until = some (now + circuit_breaker_cooldown);
    triggered_assets = asset ∷ [];
  }

  -- The breaker is set only if the table has one for the asset.
  abbrev pub trigger : ℕ → String → F → RiskService F → RiskService F
  trigger now asset change s =
      if has asset s.circuit_breakers
      then record s {
        circuit_breakers = insert asset (triggered now asset change) s.circuit_breakers;
      }
      else s

  abbrev pub breaker_alert : ℕ → String → F → RiskAlert
  breaker_alert now asset change = record {
    type = circuit_breaker;
    severity = Severity.critical;
    message = template (
        "Circuit breaker triggered for "
        ∷ asset
        ∷ " due to "
        ∷ to_fixed (mul change (int 100)) 1
        ∷ "% price movement"
        ∷ []);
    asset = some asset;
    recommended_action = "Rebalancing temporarily suspended for this asset";
    timestamp = now;
  }

  unfoldable pub check_circuit_breaker :
      ℕ → RiskService F → String → RiskService F × Option RiskAlert
  check_circuit_breaker now s asset = elim (last_prices (get_or asset s.price_history [])) [
    | none ↦ (s, none)
    | some prices ↦ if le (price_change prices) circuit_breaker_threshold then (s, none) else (
      trigger now asset (price_change prices) s,
      some (breaker_alert now asset (price_change prices)),
    )
  ]

  abbrev pub ensure_breaker : String → RiskService F → RiskService F
  ensure_breaker asset s =
      if has asset s.circuit_breakers
      then s
      else record s { circuit_breakers = insert asset untriggered s.circuit_breakers }

  abbrev pub record_price : ℕ → String → F → RiskService F → RiskService F
  record_price now asset price s =
      let point : PricePoint F = record { price = price; timestamp = now } in
      let history = push_bounded max_price_history (get_or asset s.price_history []) point in
      record s { price_history = insert asset history s.price_history }

  -- `previous` is the last price before this one.
  abbrev pub record_return : ℕ → String → F → Option F → RiskService F → RiskService F
  record_return now asset price previous s = elim previous [
    | none ↦ s
    | some p ↦
        let point : ReturnPoint F = record { value = div (sub price p) p; timestamp = now } in
        let returns = push_bounded max_return_history (get_or asset s.return_series []) point in
        if gt p (int 0)
        then record s { return_series = insert asset returns s.return_series }
        else s
  ]

  abbrev pub previous_price : String → RiskService F → Option F
  previous_price asset s = elim (last? (get_or asset s.price_history [])) [
    | none ↦ none
    | some point ↦ some point.price
  ]

  -- The state after a usable price is recorded, before the checks.
  unfoldable pub ingest : ℕ → String → F → RiskService F → RiskService F
  ingest now asset price s =
      let s' = ensure_breaker asset s in
      record_return now asset price (previous_price asset s') (record_price now asset price s')

  abbrev pub is_price : F → Bool
  is_price price = is_finite price && not (le price (int 0))

  -- One round of the loop of `updatePriceData`.
  unfoldable pub update_asset : ℕ → String → F → RiskService F → RiskService F × List RiskAlert
  update_asset now asset price s =
      let s' = ingest now asset price s in
      let volatility_alert = check_volatility now s' asset in
      let (s'', breaker) = check_circuit_breaker now s' asset in
      if is_price price then (s'', alerts_of volatility_alert ++ alerts_of breaker) else (s, [])

  -- The entries of `prices`, each an asset and its price.
  unfoldable pub update_price_data : ℕ → Table F → RiskService F → RiskService F × List RiskAlert
  update_price_data now [] s = (s, [])
  update_price_data now ((asset, price) ∷ prices) s =
      let (s', alerts) = update_asset now asset price s in
      let (s'', more) = update_price_data now prices s' in (s'', alerts ++ more)

-- `cb.isTriggered && (cb.cooldownUntil || 0) > Date.now()`
abbrev pub is_active : ℕ → CircuitBreakerStatus → Bool
is_active now cb =
    cb.is_triggered && elim cb.cooldown_until [ none ↦ false | some until ↦ ltb now until ]

abbrev pub is_expired : ℕ → CircuitBreakerStatus → Bool
is_expired now cb =
    cb.is_triggered
    && elim cb.cooldown_until [ none ↦ false | some until ↦ ltb 0 until && ltb until now ]

abbrev pub clear_expired : ℕ → CircuitBreakerStatus → CircuitBreakerStatus
clear_expired now cb = if is_expired now cb then untriggered else cb

-- The breakers, those past their cooldown reset; the result is a copy of the new table.
unfoldable pub get_circuit_breaker_status :
    {F : Type 0} → ℕ → RiskService F → RiskService F × Table CircuitBreakerStatus
get_circuit_breaker_status now s =
    let cleared = map (λ e. (e.0, clear_expired now e.1)) s.circuit_breakers in
    (record s { circuit_breakers = cleared }, cleared)
