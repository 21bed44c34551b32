-- ===== src/Dex/Rollback.antt =====
-- The rollback accounts for every trade that it is given.
use stellar_portfolio_rebala.Prelude.{
  ℕ, ◌+◌, String, ◌≡◌, refl, inl, inr, true, false, List, [], ◌∷◌, filter, All, arith, Bool-cases,
  length, length-append, ◌==◌,
}
use stellar_portfolio_rebala.Prelude.Table.{Table}
use stellar_portfolio_rebala.Number.{Number}
use stellar_portfolio_rebala.Async.{returned}
use stellar_portfolio_rebala.Dex.Types.{
  Float, RebalanceExecutionConfig, DexTradeExecutionResult, DexRollbackResult, Keypair, Sdk,
  Horizon, is_filled,
}
use stellar_portfolio_rebala.Async.Returns.{Returns, pure-Returns, bind-Returns, Any-Returns, Any}
use stellar_portfolio_rebala.Dex.Report.{no_rollback}
use stellar_portfolio_rebala.Dex.Rebalance.{
  is_undoable, rollback_failure, after_rollback, undo, rollback_executed_trades,
}

module _ {F : Type 0} ⦃n : Number F⦄ where
  -- From one result to the next, over trades that become others.
  record Accounts (trades : List (DexTradeExecutionResult F)) (r : DexRollbackResult)
      (out : List (DexTradeExecutionResult F) × DexRollbackResult) : Type 0 where
    pub each_counted :
        out.1.rolled_back_trades + length out.1.failures
        ≡ r.rolled_back_trades + length r.failures + length (filter is_undoable trades)
    pub each_marked :
        out.1.rolled_back_trades ≡ r.rolled_back_trades + length (filter (λ t. t.rolled_back) out.0)
    pub success_kept :
        r.success ≡ (length r.failures == 0) → out.1.success ≡ (length out.1.failures == 0)

  after_rollback-Accounts :
      (t undone : DexTradeExecutionResult F) (r : DexRollbackResult)
      → t.rolled_back ≡ false
      → is_undoable t ≡ true
      → Accounts (t ∷ []) r ((after_rollback t undone r).0 ∷ [], (after_rollback t undone r).1)
  unfolding after_rollback
  after_rollback-Accounts t undone r fresh able =
      let grown = length-append r.failures (rollback_failure t undone ∷ []) in
      elim (Bool-cases (is_filled undone.status)) [
        | inl e ↦
            rw (e, after_rollback)
              (record {
                each_counted = ground (arith, able);
                each_marked = ground (arith);
                success_kept = λ h. h;
              })
        | inr e ↦
            rw (e, after_rollback)
              (record {
                each_counted = ground (arith, able, grown);
                each_marked = ground (arith, fresh);
                success_kept = λ h. ground (arith, grown);
              })
      ]

  -- A second step after a first.
  Accounts-step :
      (t t' : DexTradeExecutionResult F) (ts ts' : List (DexTradeExecutionResult F))
      (r r' r'' : DexRollbackResult)
      → Accounts (t ∷ []) r (t' ∷ [], r')
      → Accounts ts r' (ts', r'')
      → Accounts (t ∷ ts) r (t' ∷ ts', r'')
  Accounts-step t t' ts ts' r r' r'' first rest = record {
    each_counted = ground (arith, first.each_counted, rest.each_counted);
    each_marked = ground (arith, first.each_marked, rest.each_marked);
    success_kept = λ h. rest.success_kept (first.success_kept h);
  }

  module _ ⦃float : Float F⦄ ⦃sdk : Sdk⦄ {H : Type 0} ⦃horizon : Horizon H⦄ where
    undo-Accounts :
        (issuers : Table String) (signer : Keypair) (config : RebalanceExecutionConfig F)
        (base_fee : ℕ) (t : DexTradeExecutionResult F) (r : DexRollbackResult)
        → t.rolled_back ≡ false
        → Returns {H = H}
            (λ out. Accounts (t ∷ []) r (out.0 ∷ [], out.1))
            (undo issuers signer config base_fee t r)
    unfolding undo
    undo-Accounts issuers signer config base_fee t r fresh =
        let P = λ (out : DexTradeExecutionResult F × DexRollbackResult).
          Accounts (t ∷ []) r (out.0 ∷ [], out.1) in
        elim (Bool-cases (is_undoable t)) [
          | inl able ↦
              rw (able, undo)
                (bind-Returns P Any _ _ (Any-Returns _)
                  (λ undone _. pure-Returns P _ (after_rollback-Accounts t undone r fresh able)))
          | inr unable ↦
              rw (unable, undo)
                (pure-Returns P _ (record {
                  each_counted = ground (arith, unable);
                  each_marked = ground (arith, fresh);
                  success_kept = λ h. h;
                }))
        ]

    rollback_executed_trades-Accounts :
        (issuers : Table String) (signer : Keypair) (config : RebalanceExecutionConfig F)
        (base_fee : ℕ) (trades : List (DexTradeExecutionResult F)) (r : DexRollbackResult)
        → All (λ t. t.rolled_back ≡ false) trades
        → Returns {H = H}
            (Accounts trades r)
            (rollback_executed_trades issuers signer config base_fee trades r)
    unfolding rollback_executed_trades
    rollback_executed_trades-Accounts issuers signer config base_fee [] r fresh =
        pure-Returns _ _
          (record { each_counted = omega arith; each_marked = omega arith; success_kept = λ h. h })
    rollback_executed_trades-Accounts issuers signer config base_fee (t ∷ trades) r fresh =
        let P = Accounts (t ∷ trades) r in
        bind-Returns P _ _ _ (undo-Accounts issuers signer config base_fee t r fresh.0)
          (λ first counted.
            bind-Returns P _ _ _
              (rollback_executed_trades-Accounts issuers signer config base_fee trades first.1
                fresh.1)
              (λ rest more.
                pure-Returns P _
                  (Accounts-step t first.0 trades rest.0 r first.1 rest.1 counted more)))

    -- A rollback that returns, of trades none of which was rolled back before, accounts for each of them
    -- that executed and received something: it is counted as rolled back or has a message of
    -- failure. As many trades are marked as are counted, and the rollback is a success exactly if
    -- there is no message.
    pub rollback_executed_trades-counts :
        (issuers : Table String) (signer : Keypair) (config : RebalanceExecutionConfig F)
        (base_fee : ℕ) (trades : List (DexTradeExecutionResult F)) (h : H)
        (out : List (DexTradeExecutionResult F) × DexRollbackResult)
        → All (λ t. t.rolled_back ≡ false) trades
        → (rollback_executed_trades issuers signer config base_fee trades
            (record no_rollback { attempted = true })
            h).0
          ≡ returned out
        → (out.1.rolled_back_trades + length out.1.failures ≡ length (filter is_undoable trades))
          × (out.1.rolled_back_trades ≡ length (filter (λ t. t.rolled_back) out.0))
          × (out.1.success ≡ (length out.1.failures == 0))
    rollback_executed_trades-counts issuers signer config base_fee trades h out fresh e =
        let start = record no_rollback { attempted = true } in
        let a =
          Returns.holds
            (rollback_executed_trades-Accounts issuers signer config base_fee trades start fresh) h
            out e in
        (omega (arith, a.each_counted), omega (arith, a.each_marked), a.success_kept refl)
