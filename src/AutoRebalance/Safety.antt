-- ===== src/AutoRebalance/Safety.antt =====
-- The job together with the risk service: a crash stops every rebalance, and otherwise no due
-- portfolio is passed over.
use native.Mathlib.Nat.{zero-add}
use stellar_portfolio_rebala.Prelude.{
  ℕ, ◌+◌, ◌≤◌, ◌<◌, suc, String, ◌≡◌, refl, ◌∙◌, Bool, true, false, ◌&&◌, Option, none, some, List,
  [], ◌∷◌, foldl, filter, length, arith, ◌==◌, template, All, if◌then◌else◌, Bool-cases, inl, inr,
}
use stellar_portfolio_rebala.Prelude.Table.{Table}
use stellar_portfolio_rebala.Number.{Number}
use stellar_portfolio_rebala.Market.{PriceData, check_market_conditions}
use stellar_portfolio_rebala.Plan.{Portfolio}
use stellar_portfolio_rebala.Risk.Types.{RiskService}
use stellar_portfolio_rebala.Risk.Breakers.{
  previous_price, is_price, price_change, circuit_breaker_threshold, circuit_breaker_cooldown,
  update_price_data,
}
use stellar_portfolio_rebala.Risk.Crash.{Call, time, run, crash-should_allow_rebalance}
use stellar_portfolio_rebala.Risk.Decision.{should_allow_rebalance}
use stellar_portfolio_rebala.AutoRebalance.{
  JobQueue, RebalanceJob, Cycle, is_eligible, job_of, enqueue, check_portfolio, start,
  process_auto_rebalance_job,
}
use stellar_portfolio_rebala.AutoRebalance.Accounts.{
  is_due, no_length, if_same, skip_reason_due, process_auto_rebalance_job-queue,
}

is_due-refused :
    {F : Type 0} ⦃n : Number F⦄ (now : ℕ) (service : RiskService F) (prices : Table (PriceData F))
    (p : Portfolio F)
    → (should_allow_rebalance now service p.allocations).allowed ≡ false
    → is_due now service prices p ≡ false
is_due-refused now service prices p h = ground (arith, h)

filter_none :
    {A : Type 0} (test : A → Bool) (xs : List A) → ((x : A) → test x ≡ false) → filter test xs ≡ []
filter_none test [] h = refl
filter_none test (x ∷ xs) h = rw (h x) (filter_none test xs h)

module _ {F Q : Type 0} ⦃n : Number F⦄ ⦃jobs : JobQueue Q⦄ where
  open n use {le}

  -- After the price of an asset has moved by more than a fifth from the last one recorded, no job in
  -- the next 300,000 ms changes the queue, whatever prices the job reads, whatever prices and status
  -- reads the risk service has had in between, and whatever portfolios there are.
  pub crash-process_auto_rebalance_job :
      (now t : ℕ) (asset : String) (price previous : F) (rest : Table F) (s : RiskService F)
      → (calls : List (Call F)) (prices : Table (PriceData F)) (correlation : Option String)
      → (available : Bool) (portfolios : List (Portfolio F)) (queue : Q)
      → previous_price asset s ≡ some previous
      → is_price price ≡ true
      → le (price_change (price, previous)) circuit_breaker_threshold ≡ false
      → t < now + circuit_breaker_cooldown
      → All (λ c. (now ≤ time c) × (time c ≤ t)) calls
      → let service = run calls (update_price_data now ((asset, price) ∷ rest) s).0 in
        (process_auto_rebalance_job t service prices correlation available portfolios queue).1
        ≡ queue
  crash-process_auto_rebalance_job now t asset price previous rest s calls prices correlation
        available portfolios queue e good large soon times =
      let service = run calls (update_price_data now ((asset, price) ∷ rest) s).0 in
      let refused : (p : Portfolio F) → is_due t service prices p ≡ false = λ p.
        is_due-refused t service prices p
          (crash-should_allow_rebalance now t asset price previous rest s calls p.allocations e good
            large soon times).0 in
      let none_due =
        filter_none (is_due t service prices) (filter is_eligible portfolios) refused in
      process_auto_rebalance_job-queue t service prices correlation portfolios queue available
      ∙ rw none_due (if_same ((check_market_conditions t prices).safe && available) queue)

  module _ (now : ℕ) (service : RiskService F) (prices : Table (PriceData F))
      (correlation : Option String)
      (accepts : (name : String) (job : RebalanceJob) (queue : Q)
        → (jobs.add name job queue).0 ≡ none) where
    check_portfolio-triggered :
        (c : Cycle Q) (p : Portfolio F)
        → (check_portfolio now service prices correlation c p).triggered
          ≡ (if is_due now service prices p then suc c.triggered else c.triggered)
    unfolding check_portfolio enqueue
    check_portfolio-triggered c p = elim (skip_reason_due now service prices p) [
      | inr (due, (reason, e)) ↦ rw (due, e, check_portfolio) refl
      | inl (due, e) ↦
          rw
            (
              due,
              e,
              check_portfolio,
              accepts (template ("rebalance-" ∷ p.id ∷ [])) (job_of correlation p) c.queue,
              enqueue,
            )
            refl
    ]

    cycle-triggered :
        (c : Cycle Q) (ps : List (Portfolio F))
        → (foldl (check_portfolio now service prices correlation) c ps).triggered
          ≡ c.triggered + length (filter (is_due now service prices) ps)
    cycle-triggered c [] = omega arith
    cycle-triggered c (p ∷ ps) =
        let rest = cycle-triggered (check_portfolio now service prices correlation c p) ps in
        rest ∙ ground (arith, check_portfolio-triggered c p)

    -- Where the market conditions are safe and the queue accepts every job, the portfolios that are
    -- triggered are as many as are eligible and due: no due portfolio is passed over.
    pub process_auto_rebalance_job-triggered :
        (portfolios : List (Portfolio F)) (queue : Q)
        → (check_market_conditions now prices).safe ≡ true
        → (process_auto_rebalance_job now service prices correlation true portfolios
            queue).0.portfolios_triggered
          ≡ length (filter (is_due now service prices) (filter is_eligible portfolios))
    unfolding process_auto_rebalance_job
    process_auto_rebalance_job-triggered portfolios queue safe =
        let eligible = filter is_eligible portfolios in
        elim (Bool-cases (length eligible == 0)) [
          | inl e ↦ rw e (rw (no_length eligible e) refl)
          | inr e ↦ rw (e, safe) (cycle-triggered (start queue) eligible ∙ zero-add _)
        ]
