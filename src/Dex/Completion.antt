-- ===== src/Dex/Completion.antt =====
-- What a rebalance that does not fail has done.
use stellar_portfolio_rebala.Prelude.{
  ℕ, String, ◌≡◌, refl, sym, ap, subst, ◌∙◌, ◌⊎◌, inl, inr, true, false, not, ◌||◌, List, [], ◌∷◌,
  ◌++◌, map, All, arith, Bool-cases, length, ltb,
}
use mathlib.Core.List.{append-nil, append_assoc, reverse}
use stellar_portfolio_rebala.Prelude.Table.{Table}
use stellar_portfolio_rebala.Number.{Number, int, gt, IsOrdered, IsNum, ◌≼◌}
use stellar_portfolio_rebala.Decimal.{round_stellar, price_limit, add_stroop_fee}
use stellar_portfolio_rebala.Async.{returned}
use stellar_portfolio_rebala.Dex.Types.{
  Float, DexTradeRequest, RebalanceExecutionConfig, RequestedConfig, DexTradeExecutionResult,
  DexRollbackResult, MarketAssessment, Asset, Keypair, Sdk, Horizon,
}
use stellar_portfolio_rebala.Async.Returns.{
  Returns, Outcome-cases, thrown_not_returned, pure-Returns, bind-Returns, Any-Returns, Any,
  catching-Returns,
}
use stellar_portfolio_rebala.Dex.Settings.{execution_config, resolve_signer}
use stellar_portfolio_rebala.Dex.Trade.{
  TradeLimits, assets_of, place_offer, filled_result, execute_in_market, execute_single_trade,
}
use stellar_portfolio_rebala.Dex.Assess.{limits_of, failed}
use stellar_portfolio_rebala.Dex.Progress.{Progress, no_progress, after_trade}
use stellar_portfolio_rebala.Dex.Tracking.{
  Step-cases, IsKept, IsOnTrack, after_trade-IsOnTrack, after_trade-failures,
}
use stellar_portfolio_rebala.Dex.Report.{
  no_rollback, DexRebalanceExecutionResult, execution_result, status_of,
}
use stellar_portfolio_rebala.Dex.Rebalance.{
  needs_rollback, execute_trades, finish, execute_rebalance_trades,
}

List-cases : {A : Type 0} (xs : List A) → (xs ≡ []) ⊎ ((x : A) × ((ys : List A) × (xs ≡ x ∷ ys)))
List-cases [] = inl refl
List-cases (x ∷ xs) = inr (x, (xs, refl))

module _ {F : Type 0} ⦃n : Number F⦄ where
  no_progress-IsOnTrack :
      (order : IsOrdered F) (config : RebalanceExecutionConfig F)
      → int 0 ≼ config.max_slippage_bps_per_rebalance
      → IsOnTrack config [] no_progress
  no_progress-IsOnTrack order config bound =
      let zero_num : IsNum {F = F} (int 0) = order.zero-le 0 0 in
      let not_above : (x : F) → int 0 ≼ x → gt (int 0) x ≡ false =
        λ x h. order.lt-eq-not-le x (int 0) (order.num_of_le (int 0) x h).1 zero_num ∙ ap not h in
      record {
        without_failure = refl;
        all_executed = refl;
        all_kept = tt;
        within_limit =
            rw (not_above (int 0) zero_num) (not_above config.max_slippage_bps_per_rebalance bound);
      }

  -- What a rebalance is that is not reported as failed.
  pub record IsCompleted (config : RebalanceExecutionConfig F) (ids : List String)
      (r : DexRebalanceExecutionResult F) : Type 0 where
    pub all_executed : map (λ t. t.trade_id) r.executed_trades ≡ ids
    pub all_kept : All (IsKept config) r.executed_trades
    pub without_failure : r.failed_trades ≡ []
    pub within_limit : gt r.total_slippage_bps config.max_slippage_bps_per_rebalance ≡ false
    pub not_rolled_back : r.rollback.attempted ≡ false

  execution_result-failed :
      (config : RebalanceExecutionConfig F) (p : Progress F) (rollback : DexRollbackResult)
      → ltb 0 (length p.failures) ≡ true
      → (execution_result config p rollback).status ≡ failed
  unfolding execution_result status_of
  execution_result-failed config p rollback = elim (List-cases p.failures) [
    | inl e ↦ rw e (λ none_failed. absurd (ground (arith, none_failed)))
    | inr (x, (xs, e)) ↦ rw (e, execution_result, status_of) (λ some_failed. refl)
  ]

  module _ ⦃float : Float F⦄ {H : Type 0} ⦃horizon : Horizon H⦄ where
    place_offer-trade_id :
        (signer : Keypair) (trade : DexTradeRequest F) (assets : Asset × Asset) (amount : F)
        (market : MarketAssessment F) (limit : F) (base_fee : ℕ)
        → Returns {H = H}
            (λ t. t.trade_id ≡ trade.trade_id)
            (place_offer signer trade assets amount market limit base_fee)
    unfolding place_offer filled_result
    place_offer-trade_id signer trade (from_asset, to_asset) amount market limit base_fee =
        let P = λ (t : DexTradeExecutionResult F). t.trade_id ≡ trade.trade_id in
        bind-Returns P Any _ _ (Any-Returns _) (λ before _.
          bind-Returns P Any _ _ (Any-Returns _) (λ account _.
            bind-Returns P Any _ _ (Any-Returns _) (λ tx_hash _.
              bind-Returns P Any _ _ (Any-Returns _) (λ offer _.
                bind-Returns P Any _ _ (Any-Returns _) (λ remaining _.
                  bind-Returns P Any _ _ (Any-Returns _) (λ observed _. pure-Returns P _ refl))))))

    execute_in_market-trade_id :
        (signer : Keypair) (trade : DexTradeRequest F) (limits : TradeLimits F) (base_fee : ℕ)
        (assets : Asset × Asset) (amount : F) (market : MarketAssessment F)
        → Returns {H = H}
            (λ t. t.trade_id ≡ trade.trade_id)
            (execute_in_market signer trade limits base_fee assets amount market)
    unfolding execute_in_market
    execute_in_market-trade_id signer trade limits base_fee assets amount market =
        let P = λ (t : DexTradeExecutionResult F). t.trade_id ≡ trade.trade_id in
        let limit = price_limit market.reference_price limits.max_slippage_bps in
        elim (Bool-cases (gt market.spread_bps limits.max_spread_bps)) [
          | inl wide ↦ rw (wide, execute_in_market) (pure-Returns P _ refl)
          | inr narrow ↦
              elim (Bool-cases (n.lt market.liquidity_coverage limits.min_liquidity_coverage)) [
                | inl thin ↦ rw (narrow, execute_in_market, thin) (pure-Returns P _ refl)
                | inr deep ↦ elim (Bool-cases (not (n.is_finite limit) || n.le limit (int 0))) [
                  | inl invalid ↦
                      rw (narrow, execute_in_market, deep, invalid) (pure-Returns P _ refl)
                  | inr valid ↦
                      rw (narrow, execute_in_market, deep, valid)
                        (catching-Returns P _ _ (λ message. refl)
                          (place_offer-trade_id signer trade assets amount market limit base_fee))
                ]
              ]
        ]

    execute_single_trade-trade_id :
        ⦃sdk : Sdk⦄
        → (issuers : Table String) (signer : Keypair) (trade : DexTradeRequest F)
          (limits : TradeLimits F) (base_fee : ℕ)
        → Returns {H = H}
            (λ t. t.trade_id ≡ trade.trade_id)
            (execute_single_trade issuers signer trade limits base_fee)
    unfolding execute_single_trade
    execute_single_trade-trade_id issuers signer trade limits base_fee =
        let P = λ (t : DexTradeExecutionResult F). t.trade_id ≡ trade.trade_id in
        let amount = round_stellar trade.amount in
        elim (Outcome-cases (assets_of issuers trade.from_asset trade.to_asset)) [
          | inr (message, e) ↦ rw (e, execute_single_trade) (pure-Returns P _ refl)
          | inl (assets, e) ↦ elim (Bool-cases (n.le amount (int 0))) [
            | inl empty ↦ rw (e, execute_single_trade, empty) (pure-Returns P _ refl)
            | inr positive ↦
                rw (e, execute_single_trade, positive)
                  (bind-Returns P Any _ _ (Any-Returns _) (λ market _.
                    execute_in_market-trade_id signer trade limits base_fee assets amount market))
          ]
        ]

    -- A loop that records no failure has executed every trade.
    execute_trades-IsOnTrack :
        ⦃sdk : Sdk⦄
        → (issuers : Table String) (signer : Keypair) (config : RebalanceExecutionConfig F)
          (base_fee : ℕ) (trades : List (DexTradeRequest F)) (ids : List String) (p : Progress F)
        → IsOnTrack config ids p
        → Returns {H = H}
            (λ q.
              (ltb 0 (length q.failures) ≡ true)
              ⊎ IsOnTrack config (ids ++ map (λ x. x.trade_id) trades) q)
            (execute_trades issuers signer config base_fee trades p)
    unfolding execute_trades
    execute_trades-IsOnTrack issuers signer config base_fee [] ids p track =
        pure-Returns _ p (inr (subst (λ l. IsOnTrack config l p) (sym (append-nil ids)) track))
    execute_trades-IsOnTrack issuers signer config base_fee (trade ∷ trades) ids p track =
        let limits = limits_of config trade.max_slippage_bps in
        let charged = record p { fee = add_stroop_fee p.fee (int base_fee) } in
        let still : IsOnTrack config ids charged = record {
          without_failure = track.without_failure;
          all_executed = track.all_executed;
          all_kept = track.all_kept;
          within_limit = track.within_limit;
        } in
        bind-Returns _ (λ t. t.trade_id ≡ trade.trade_id) _ _
          (execute_single_trade-trade_id issuers signer trade limits base_fee)
          (λ t same.
            elim (Step-cases (after_trade config trade limits.max_slippage_bps t charged)) [
              | inl (q, e) ↦ rw e (
                  pure-Returns _ q
                    (inl (after_trade-failures config trade limits.max_slippage_bps t charged q e)))
              | inr (q, e) ↦ rw e (
                  subst
                    (λ l.
                      Returns {H = H}
                        (λ x. (ltb 0 (length x.failures) ≡ true) ⊎ IsOnTrack config l x)
                        (execute_trades issuers signer config base_fee trades q))
                    (append_assoc ids (trade.trade_id ∷ []) (map (λ x. x.trade_id) trades))
                    (execute_trades-IsOnTrack issuers signer config base_fee trades
                      (ids ++ trade.trade_id ∷ []) q
                      (after_trade-IsOnTrack config trade limits.max_slippage_bps t charged q ids
                        still same e)))
            ])

    finish-Returns :
        ⦃sdk : Sdk⦄
        → (issuers : Table String) (signer : Keypair) (config : RebalanceExecutionConfig F)
          (base_fee : ℕ) (ids : List String) (p : Progress F)
        → (ltb 0 (length p.failures) ≡ true) ⊎ IsOnTrack config ids p
        → Returns {H = H}
            (λ r. (r.status ≡ failed) ⊎ IsCompleted config ids r)
            (finish issuers signer config base_fee p)
    unfolding finish execution_result
    finish-Returns issuers signer config base_fee ids p (inl failure) =
        let P =
          λ (r : DexRebalanceExecutionResult F). (r.status ≡ failed) ⊎ IsCompleted config ids r in
        elim (Bool-cases (needs_rollback config p)) [
          | inl e ↦
              rw (e, finish)
                (bind-Returns P Any _ _ (Any-Returns _) (λ done _. pure-Returns P _ (
                  inl (
                    execution_result-failed config (record p { executed = reverse done.0 }) done.1
                      failure))))
          | inr e ↦
              rw (e, finish)
                (pure-Returns P _ (inl (execution_result-failed config p no_rollback failure)))
        ]
    finish-Returns issuers signer config base_fee ids p (inr track) =
        let P =
          λ (r : DexRebalanceExecutionResult F). (r.status ≡ failed) ⊎ IsCompleted config ids r in
        rw (track.without_failure, finish)
          (pure-Returns P _ (
            inr (record {
              all_executed = track.all_executed;
              all_kept = track.all_kept;
              without_failure = refl;
              within_limit = track.within_limit;
              not_rolled_back = refl;
            })))

    -- A rebalance whose slippage limit is not negative, and which returns a result that is not
    -- reported as failed, has executed every trade asked for, in order. None of their results is a
    -- failure, and none is a partial fill unless these are allowed. No failed trade is recorded, the
    -- average slippage is not above the limit, and nothing has been rolled back.
    pub execute_rebalance_trades-IsCompleted :
        (order : IsOrdered F)
        → ⦃sdk : Sdk⦄
        → (env issuers : Table String) (user_address : String) (trades : List (DexTradeRequest F))
          (requested : RequestedConfig F) (h : H) (r : DexRebalanceExecutionResult F)
        → let config = execution_config env requested in
          int 0 ≼ config.max_slippage_bps_per_rebalance
          → (execute_rebalance_trades env issuers user_address trades requested h).0 ≡ returned r
          → (r.status ≡ failed) ⊎ IsCompleted config (map (λ x. x.trade_id) trades) r
    unfolding execute_rebalance_trades
    execute_rebalance_trades-IsCompleted order env issuers user_address trades requested h r bound =
        let config = execution_config env requested in
        let P = λ (x : DexRebalanceExecutionResult F).
          (x.status ≡ failed) ⊎ IsCompleted config (map (λ x. x.trade_id) trades) x in
        elim (Outcome-cases (resolve_signer env user_address config.signer_secret)) [
          | inr (message, e) ↦
              rw (e, execute_rebalance_trades) (λ e'. absurd (thrown_not_returned message r e'))
          | inl (signer, e) ↦
              rw (e, execute_rebalance_trades)
                (Returns.holds
                  (bind-Returns P Any _ _ (Any-Returns _) (λ base_fee _.
                    bind-Returns P _ _ _
                      (execute_trades-IsOnTrack issuers signer config base_fee trades [] no_progress
                        (no_progress-IsOnTrack order config bound))
                      (λ p ended. finish-Returns issuers signer config base_fee _ p ended)))
                  h r)
        ]
