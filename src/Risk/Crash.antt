-- ===== src/Risk/Crash.antt =====
-- A price that moves too far, and what `RiskManagementService` answers until the cooldown ends.
use stellar_portfolio_rebala.Prelude.{
  ℕ, ◌+◌, ◌-◌, ◌≤◌, ◌<◌, ◌≡◌, ◌∙◌, refl, String, true, false, some, List, [], ◌∷◌, arith, inl, inr,
  Option-cases, eq_refl, length, get_elem?, All, All-imp,
}
use stellar_portfolio_rebala.Prelude.Table.{
  Table, get_or, has, lookup-insert, get_or-insert, has-insert,
}
use stellar_portfolio_rebala.Number.{Number}
use stellar_portfolio_rebala.Risk.Breakers.{
  max_price_history, circuit_breaker_cooldown, circuit_breaker_threshold, check_circuit_breaker,
  last_prices, last?, price_change, push_bounded, trigger, triggered, ingest, previous_price,
  is_price, update_asset, update_price_data, get_circuit_breaker_status, untriggered,
}
use stellar_portfolio_rebala.Risk.Breakers.Effects.{ingest-breakers, ingest-history}
use stellar_portfolio_rebala.Risk.Breakers.Push.{
  length-push_bounded, push_bounded-last, push_bounded-previous,
}
use stellar_portfolio_rebala.Risk.Cooldown.{
  HoldsUntil, HoldsUntil-active, status-HoldsUntil, update-HoldsUntil,
}
use stellar_portfolio_rebala.Risk.Decision.{should_allow_rebalance}
use stellar_portfolio_rebala.Risk.Types.{PricePoint, RiskService, circuit_breaker_active}

-- The calls that change the service's state.
pub data Call (F : Type 0) : Type 0 where
  update : ℕ → Table F → Call F
  status : ℕ → Call F

abbrev pub time : {F : Type 0} → Call F → ℕ
time (update now prices) = now
time (status now) = now

module _ {F : Type 0} ⦃n : Number F⦄ where
  open n use {le}

  unfoldable pub run : List (Call F) → RiskService F → RiskService F
  run [] s = s
  run (update now prices ∷ calls) s = run calls (update_price_data now prices s).0
  run (status now ∷ calls) s = run calls (get_circuit_breaker_status now s).0

  run-HoldsUntil :
      (asset : String) (until : ℕ) (calls : List (Call F)) (s : RiskService F)
      → HoldsUntil asset until s
      → All (λ c. (until ≤ time c + circuit_breaker_cooldown) × (time c ≤ until)) calls
      → HoldsUntil asset until (run calls s)
  unfolding run
  run-HoldsUntil asset until [] s h times = h
  run-HoldsUntil asset until (update now prices ∷ calls) s h (t, times) =
      run-HoldsUntil asset until calls (update_price_data now prices s).0
        (update-HoldsUntil asset until now prices s h t.0) times
  run-HoldsUntil asset until (status now ∷ calls) s h (t, times) =
      run-HoldsUntil asset until calls (get_circuit_breaker_status now s).0
        (status-HoldsUntil asset until now s h t.1) times

  last_prices_lem :
      (history : List (PricePoint F)) (a b : PricePoint F)
      → 1 < length history
      → last? history ≡ some a
      → get_elem? history (length history - 2) ≡ some b
      → last_prices history ≡ some (a.price, b.price)
  unfolding last_prices
  last_prices_lem history a b h ea eb = rw (ea, eb) (ground arith)

  last_prices-push :
      (history : List (PricePoint F)) (point last : PricePoint F)
      → last? history ≡ some last
      → last_prices (push_bounded max_price_history history point) ≡ some (point.price, last.price)
  last_prices-push [] point last e = cc
  last_prices-push (p ∷ history) point last e =
      last_prices_lem _ point last
        (omega (arith, length-push_bounded max_price_history (p ∷ history) point (omega arith)))
        (push_bounded-last max_price_history (p ∷ history) point (omega arith))
        (push_bounded-previous max_price_history (p ∷ history) point (omega arith) (omega arith)
          ∙ e)

  ingest-last_prices :
      (now : ℕ) (asset : String) (price previous : F) (s : RiskService F)
      → previous_price asset s ≡ some previous
      → last_prices (get_or asset (ingest now asset price s).price_history [])
        ≡ some (price, previous)
  ingest-last_prices now asset price previous s e =
      let history = get_or asset s.price_history [] in
      let point : PricePoint F = record { price = price; timestamp = now } in
      rw
        (
          ingest-history now asset price s,
          get_or-insert asset (push_bounded max_price_history history point) [] s.price_history,
        )
        (elim (Option-cases (last? history)) [
          | inl missing ↦ absurd (ground arith)
          | inr (last, found) ↦ last_prices-push history point last found ∙ ground arith
        ])

  has-ingest :
      (now : ℕ) (asset : String) (price : F) (s : RiskService F)
      → has asset (ingest now asset price s).circuit_breakers ≡ true
  has-ingest now asset price s =
      rw (ingest-breakers now asset price s)
        (ground (arith, has-insert asset untriggered s.circuit_breakers))

  trigger-HoldsUntil :
      (now : ℕ) (asset : String) (change : F) (s : RiskService F)
      → has asset s.circuit_breakers ≡ true
      → HoldsUntil asset (now + circuit_breaker_cooldown) (trigger now asset change s)
  trigger-HoldsUntil now asset change s h = ground (
    arith,
    eq_refl asset,
    lookup-insert asset asset (triggered now asset change) s.circuit_breakers,
  )

  -- The round for a price that moved too far sets the breaker for the whole cooldown.
  crash-HoldsUntil :
      (now : ℕ) (asset : String) (price previous : F) (s : RiskService F)
      → previous_price asset s ≡ some previous
      → is_price price ≡ true
      → le (price_change (price, previous)) circuit_breaker_threshold ≡ false
      → HoldsUntil asset (now + circuit_breaker_cooldown) (update_asset now asset price s).0
  unfolding update_asset check_circuit_breaker
  crash-HoldsUntil now asset price previous s e good large =
      rw
        (
          good,
          update_asset,
          check_circuit_breaker,
          ingest-last_prices now asset price previous s e,
          large,
        )
        (trigger-HoldsUntil now asset (price_change (price, previous)) (ingest now asset price s)
          (has-ingest now asset price s))

  -- When the price of an asset moves by more than a fifth from the last one recorded, every
  -- decision in the next 300,000 ms is a refusal for an active circuit breaker: whatever prices follow
  -- it or come in between, however often the status is read, and for every portfolio. The
  -- calls in between read the clock at values from the crash's to the decision's.
  pub crash-should_allow_rebalance :
      (now t : ℕ) (asset : String) (price previous : F) (rest : Table F) (s : RiskService F)
      → (calls : List (Call F)) (allocations : Table F) → previous_price asset s ≡ some previous
      → is_price price ≡ true
      → le (price_change (price, previous)) circuit_breaker_threshold ≡ false
      → t < now + circuit_breaker_cooldown
      → All (λ c. (now ≤ time c) × (time c ≤ t)) calls
      → let s' = (update_price_data now ((asset, price) ∷ rest) s).0 in
        let decision = should_allow_rebalance t (run calls s') allocations in
        (decision.allowed ≡ false) × (decision.reason_code ≡ circuit_breaker_active)
  unfolding should_allow_rebalance update_price_data
  crash-should_allow_rebalance now t asset price previous rest s calls allocations e good large soon
        times =
      let until = now + circuit_breaker_cooldown in
      let first = (update_asset now asset price s).0 in
      let s' = (update_price_data now rest first).0 in
      let start : HoldsUntil asset until s' =
        update-HoldsUntil asset until now rest first
          (crash-HoldsUntil now asset price previous s e good large) (omega arith) in
      let held : HoldsUntil asset until (run calls s') =
        run-HoldsUntil asset until calls s' start
          (All-imp calls (λ c h. (omega arith, omega arith)) times) in
      rw (HoldsUntil-active asset until t (run calls s') held soon) (refl, refl)
