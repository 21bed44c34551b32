-- ===== src/Dex/Tracking.antt =====
-- The loop over the trades goes on only with trades that a rebalance keeps.
use stellar_portfolio_rebala.Prelude.{
  String, ◌≡◌, refl, sym, ap, subst, ◌∙◌, ◌⊎◌, inl, inr, true, false, not, ◌&&◌, List, [], ◌∷◌,
  ◌++◌, map, All, All-append, arith, Bool-cases, length, length-append, ltb,
}
use stellar_portfolio_rebala.Number.{Number, int, gt}
use stellar_portfolio_rebala.Dex.Types.{
  DexTradeRequest, RebalanceExecutionConfig, DexTradeExecutionResult, is_failed, is_partial,
}
use stellar_portfolio_rebala.Dex.Progress.{
  Progress, Step, next, stop, after_trade, total_slippage, weigh_result, fail_with,
}

pub Step-cases :
    {F : Type 0} (s : Step F)
    → ((p : Progress F) × (s ≡ stop p)) ⊎ ((p : Progress F) × (s ≡ next p))
Step-cases (stop p) = inl (p, refl)
Step-cases (next p) = inr (p, refl)

abbrev progress_of : {F : Type 0} → Step F → Progress F
progress_of (stop p) = p
progress_of (next p) = p

abbrev IsNext : {F : Type 0} → Step F → Type 0
IsNext (stop p) = ⊥
IsNext (next p) = Unit

stop_not_next : {F : Type 0} (p q : Progress F) → stop p ≡ next q → ⊥
stop_not_next p q e = subst IsNext (sym e) tt

map-append {ℓ κ} :
    {A : Type ℓ} {B : Type κ} (f : A → B) (xs ys : List A) → map f (xs ++ ys) ≡ map f xs ++ map f ys
map-append f [] ys = refl
map-append f (x ∷ xs) ys = ap (λ zs. f x ∷ zs) (map-append f xs ys)

module _ {F : Type 0} ⦃n : Number F⦄ where
  -- A trade that a rebalance keeps.
  abbrev pub IsKept : RebalanceExecutionConfig F → DexTradeExecutionResult F → Type 0
  IsKept config t =
      (is_failed t.status ≡ false)
      × ((is_partial t.status && not config.allow_partial_fill) ≡ false)

  -- The trades so far are kept, and their average slippage is within the limit.
  pub record IsOnTrack (config : RebalanceExecutionConfig F) (ids : List String) (p : Progress F)
      : Type 0 where
    pub without_failure : p.failures ≡ []
    pub all_executed : map (λ t. t.trade_id) p.executed ≡ ids
    pub all_kept : All (IsKept config) p.executed
    pub within_limit : gt (total_slippage p) config.max_slippage_bps_per_rebalance ≡ false

  weigh_result_same :
      (effective : F) (t : DexTradeExecutionResult F) (p : Progress F)
      → ((weigh_result effective t p).failures ≡ p.failures)
        × ((weigh_result effective t p).executed ≡ p.executed)
  weigh_result_same effective t p = elim (Bool-cases (gt t.executed_amount (int 0))) [
    | inl e ↦ rw e (refl, refl)
    | inr e ↦ rw e (refl, refl)
  ]

  module _ (config : RebalanceExecutionConfig F) (trade : DexTradeRequest F) (effective : F)
      (t : DexTradeExecutionResult F) (p p' : Progress F) where
    abbrev weighed : Progress F
    weighed = weigh_result effective t (record p { executed = p.executed ++ t ∷ [] })

    weighed-IsOnTrack :
        (ids : List String)
        → IsOnTrack config ids p
        → t.trade_id ≡ trade.trade_id
        → IsKept config t
        → gt (total_slippage weighed) config.max_slippage_bps_per_rebalance ≡ false
        → IsOnTrack config (ids ++ trade.trade_id ∷ []) weighed
    weighed-IsOnTrack ids track same kept within =
        let (failures, executed) =
          weigh_result_same effective t (record p { executed = p.executed ++ t ∷ [] }) in
        record {
          without_failure = failures ∙ track.without_failure;
          all_executed =
              ap (map (λ x. x.trade_id)) executed
              ∙ map-append (λ x. x.trade_id) p.executed (t ∷ [])
              ∙ cc (track.all_executed, same);
          all_kept =
              subst (All (IsKept config)) (sym executed)
                (All-append (IsKept config) p.executed (t ∷ []) track.all_kept (kept, tt));
          within_limit = within;
        }

    pub after_trade-IsOnTrack :
        (ids : List String)
        → IsOnTrack config ids p
        → t.trade_id ≡ trade.trade_id
        → after_trade config trade effective t p ≡ next p'
        → IsOnTrack config (ids ++ trade.trade_id ∷ []) p'
    unfolding after_trade
    after_trade-IsOnTrack ids track same = elim (Bool-cases (is_failed t.status)) [
      | inl e ↦ rw (e, after_trade) (λ stopped. absurd (stop_not_next _ p' stopped))
      | inr unfailed ↦ elim (Bool-cases (is_partial t.status && not config.allow_partial_fill)) [
        | inl e ↦ rw (unfailed, after_trade, e) (λ stopped. absurd (stop_not_next _ p' stopped))
        | inr allowed ↦
            elim (Bool-cases (gt (total_slippage weighed) config.max_slippage_bps_per_rebalance)) [
              | inl e ↦
                  rw (unfailed, after_trade, allowed, e)
                    (λ stopped. absurd (stop_not_next _ p' stopped))
              | inr within ↦
                  rw (unfailed, after_trade, allowed, within)
                    (λ goes_on.
                      subst (IsOnTrack config (ids ++ trade.trade_id ∷ [])) (ap progress_of goes_on)
                        (weighed-IsOnTrack ids track same (unfailed, allowed) within))
            ]
      ]
    ]

    failed_by :
        (x : DexTradeExecutionResult F) (q : Progress F)
        → stop (fail_with x q) ≡ stop p'
        → ltb 0 (length p'.failures) ≡ true
    failed_by x q e =
        subst (λ z. ltb 0 (length z.failures) ≡ true) (ap progress_of e)
          (ground (arith, length-append q.failures (x ∷ [])))

    pub after_trade-failures :
        after_trade config trade effective t p ≡ stop p' → ltb 0 (length p'.failures) ≡ true
    unfolding after_trade
    after_trade-failures = elim (Bool-cases (is_failed t.status)) [
      | inl e ↦ rw (e, after_trade) (failed_by _ p)
      | inr unfailed ↦ elim (Bool-cases (is_partial t.status && not config.allow_partial_fill)) [
        | inl e ↦
            rw (unfailed, after_trade, e)
              (failed_by _ (record p { executed = p.executed ++ t ∷ [] }))
        | inr allowed ↦
            elim (Bool-cases (gt (total_slippage weighed) config.max_slippage_bps_per_rebalance)) [
              | inl e ↦ rw (unfailed, after_trade, allowed, e) (failed_by _ weighed)
              | inr within ↦
                  rw (unfailed, after_trade, allowed, within)
                    (λ goes_on. absurd (stop_not_next p' weighed (sym goes_on)))
            ]
      ]
    ]
