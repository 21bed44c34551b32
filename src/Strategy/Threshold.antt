-- ===== src/Strategy/Threshold.antt =====
-- What the threshold strategy asks of the drifts.
use stellar_portfolio_rebala.Prelude.{
  ◌≡◌, refl, ap, ◌∙◌, ◌↔◌, inl, inr, true, false, List, [], ◌∷◌, ◌++◌, All, arith, Bool-cases,
}
use stellar_portfolio_rebala.Prelude.Table.{Table}
use stellar_portfolio_rebala.Number.{Number, int, gt}
use stellar_portfolio_rebala.Market.{PriceData}
use stellar_portfolio_rebala.Strategy.{
  StrategyPortfolio, threshold_of, current_values, decide, drifts_of, threshold_strategy,
}

module _ {F : Type 0} ⦃n : Number F⦄ where
  -- A drift that decides nothing.
  abbrev pub IsQuiet : F → F → Type 0
  IsQuiet limit d = (gt d (int 50) ≡ false) × (gt d limit ≡ false)

  -- Some drift is above the limit and not above 50%, and all before it decide nothing.
  pub record Triggers (limit : F) (drifts : List F) : Type 0 where
    pub before : List F
    pub drift : F
    pub after : List F
    pub shape : drifts ≡ before ++ drift ∷ after
    pub quiet : All (IsQuiet limit) before
    pub not_extreme : gt drift (int 50) ≡ false
    pub above : gt drift limit ≡ true

  decide-Triggers :
      (limit : F) (drifts : List F) → decide limit drifts ≡ true → Triggers limit drifts
  unfolding decide
  decide-Triggers limit [] = λ h. absurd (ground (arith, h))
  decide-Triggers limit (d ∷ drifts) = elim (Bool-cases (gt d (int 50))) [
    | inl e ↦ rw (e, decide) (λ h. absurd (ground (arith, h)))
    | inr low ↦ elim (Bool-cases (gt d limit)) [
      | inl e ↦
          rw (low, decide, e)
            (λ h. record {
              before = [];
              drift = d;
              after = drifts;
              shape = refl;
              quiet = tt;
              not_extreme = low;
              above = e;
            })
      | inr e ↦
          rw (low, decide, e)
            (λ h.
              let t = decide-Triggers limit drifts h in
              record {
                before = d ∷ t.before;
                drift = t.drift;
                after = t.after;
                shape = ap (λ ds. d ∷ ds) t.shape;
                quiet = ((low, e), t.quiet);
                not_extreme = t.not_extreme;
                above = t.above;
              })
    ]
  ]

  Triggers-decide :
      (limit : F) (before : List F) (d : F) (after : List F)
      → All (IsQuiet limit) before
      → gt d (int 50) ≡ false
      → gt d limit ≡ true
      → decide limit (before ++ d ∷ after) ≡ true
  unfolding decide
  Triggers-decide limit [] d after quiet low above = rw (low, decide, above) refl
  Triggers-decide limit (x ∷ before) d after quiet low above =
      rw (quiet.0.0, decide, quiet.0.1) (Triggers-decide limit before d after quiet.1 low above)

  -- The threshold strategy asks for a rebalance exactly if the total value is not zero or negative
  -- and, in the order of the allocations, some drift is above the threshold, 5 where it is missing,
  -- and not above 50%, and none before it is above either.
  pub threshold_strategy_iff :
      (portfolio : StrategyPortfolio F) (prices : Table (PriceData F))
      → (threshold_strategy portfolio prices ≡ true) ↔ (
          (n.le (current_values portfolio prices).1 (int 0) ≡ false)
          × Triggers (threshold_of portfolio) (drifts_of portfolio prices))
  unfolding threshold_strategy
  threshold_strategy_iff portfolio prices =
      elim (Bool-cases (n.le (current_values portfolio prices).1 (int 0))) [
        | inl e ↦
            rw (e, threshold_strategy)
              ((λ h. absurd (ground (arith, h))), λ h. absurd (ground (arith, h.0)))
        | inr e ↦
            rw (e, threshold_strategy)
              (
                (λ h. (
                  refl,
                  decide-Triggers (threshold_of portfolio) (drifts_of portfolio prices) h,
                )),
                λ h.
                    ap (decide (threshold_of portfolio)) h.1.shape
                    ∙ Triggers-decide (threshold_of portfolio) h.1.before h.1.drift h.1.after
                        h.1.quiet h.1.not_extreme h.1.above,
              )
      ]
