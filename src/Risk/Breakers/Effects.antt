-- ===== src/Risk/Breakers/Effects.antt =====
-- Which fields of the service each part of a round of `updatePriceData` changes.
use stellar_portfolio_rebala.Prelude.{
  ℕ, ◌≡◌, String, true, false, Option, none, some, [], arith, inl, inr, Bool-cases, refl, str_eq,
  ◌∙◌,
}
use stellar_portfolio_rebala.Prelude.Table.{insert, get_or, get_or-insert_ne}
use stellar_portfolio_rebala.Number.{Number, int, gt}
use stellar_portfolio_rebala.Risk.Breakers.{
  max_price_history, push_bounded, ensure_breaker, record_return, previous_price, ingest,
  check_circuit_breaker, max_return_history, record_price,
}
use stellar_portfolio_rebala.Risk.Types.{RiskService}

module _ {F : Type 0} ⦃n : Number F⦄ (now : ℕ) (asset : String) where
  open n use {sub, div, le}

  module _ (price : F) (s : RiskService F) where
    pub ingest-breakers :
        (ingest now asset price s).circuit_breakers ≡ (ensure_breaker asset s).circuit_breakers
    unfolding ingest
    ingest-breakers = ground arith

    pub ingest-history :
        (ingest now asset price s).price_history
        ≡ insert asset
            (push_bounded max_price_history
              (get_or asset s.price_history [])
              (record { price = price; timestamp = now }))
            s.price_history
    unfolding ingest
    ingest-history = ground arith

    -- Without a previous price there is no return.
    pub ingest-returns_none :
        previous_price asset s ≡ none → (ingest now asset price s).return_series ≡ s.return_series
    unfolding ingest
    ingest-returns_none e = ground arith

    pub ingest-returns_some :
        (previous : F)
        → previous_price asset s ≡ some previous
        → gt previous (int 0) ≡ true
        → (ingest now asset price s).return_series
          ≡ insert asset
              (push_bounded max_return_history
                (get_or asset s.return_series [])
                (record { value = div (sub price previous) previous; timestamp = now }))
              s.return_series
    unfolding ingest
    ingest-returns_some previous e h = ground arith

  -- The checks leave the histories alone.
  pub check-histories :
      (s : RiskService F)
      → ((check_circuit_breaker now s asset).0.price_history ≡ s.price_history)
        × ((check_circuit_breaker now s asset).0.return_series ≡ s.return_series)
  unfolding check_circuit_breaker
  check-histories s = ground arith

  -- The histories of the other assets stay.
  record_return_ne :
      (j : String) (price : F) (previous : Option F) (s : RiskService F)
      → str_eq asset j ≡ false
      → get_or j (record_return now asset price previous s).return_series []
        ≡ get_or j s.return_series []
  record_return_ne j price none s h = refl
  record_return_ne j price (some p) s h = elim (Bool-cases (gt p (int 0))) [
    | inl positive ↦ rw positive (get_or-insert_ne asset j _ [] s.return_series h)
    | inr other ↦ rw other
  ]

  ingest-returns_ne :
      (j : String) (price : F) (s : RiskService F)
      → str_eq asset j ≡ false
      → get_or j (ingest now asset price s).return_series [] ≡ get_or j s.return_series []
  unfolding ingest
  ingest-returns_ne j price s h =
      let s' = ensure_breaker asset s in
      record_return_ne j price (previous_price asset s') (record_price now asset price s') h
      ∙ ground arith

  pub ingest_ne :
      (j : String) (price : F) (s : RiskService F)
      → str_eq asset j ≡ false
      → (get_or j (ingest now asset price s).price_history [] ≡ get_or j s.price_history [])
        × (get_or j (ingest now asset price s).return_series [] ≡ get_or j s.return_series [])
  ingest_ne j price s h = (
    rw (ingest-history price s) (get_or-insert_ne asset j _ [] s.price_history h),
    ingest-returns_ne j price s h,
  )
