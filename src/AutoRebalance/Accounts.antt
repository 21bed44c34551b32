-- ===== src/AutoRebalance/Accounts.antt =====
-- Which portfolios a cycle enqueues, and that its summary accounts for every portfolio.
use stellar_portfolio_rebala.Prelude.{
  ℕ, ◌+◌, suc, String, ◌≡◌, refl, sym, ap, ◌∙◌, Bool, true, false, ◌&&◌, Option, none, some, List,
  [], ◌∷◌, foldl, filter, length, arith, ltb, ◌==◌, template, if◌then◌else◌, Bool-cases,
  Option-cases, inl, inr, ◌⊎◌, length-append,
}
use stellar_portfolio_rebala.Prelude.Table.{Table}
use stellar_portfolio_rebala.Number.{Number, int}
use stellar_portfolio_rebala.Market.{PriceData, check_market_conditions, check_cooldown_period}
use stellar_portfolio_rebala.Plan.{Portfolio}
use stellar_portfolio_rebala.RateLimit.Counts.{total, total-count_up}
use stellar_portfolio_rebala.Risk.Types.{RiskService}
use stellar_portfolio_rebala.Risk.Decision.{should_allow_rebalance}
use stellar_portfolio_rebala.AutoRebalance.{
  compute_drift, JobQueue, Cycle, is_eligible, skip_reason, job_of, enqueue, check_portfolio, start,
  process_auto_rebalance_job,
}

-- Every portfolio is counted once: as enqueued, as skipped or as an error.
abbrev pub IsAccounted : {Q : Type 0} → Cycle Q → Type 0
IsAccounted c = c.checked ≡ c.triggered + total c.skip_counts + length c.cycle_errors

total-filter : (m : Table ℕ) → total (filter (λ e. ltb 0 e.1) m) ≡ total m
total-filter [] = refl
total-filter (e ∷ m) = ground (arith, total-filter m)

pub no_length : {A : Type 0} (xs : List A) → (length xs == 0) ≡ true → xs ≡ []
no_length [] h = refl
no_length (x ∷ xs) h = ground (arith, h)

pub if_same : {A : Type 0} (b : Bool) (x : A) → (if b then x else x) ≡ x
if_same true x = refl
if_same false x = refl

-- The guards of the loop.
abbrev pub is_due :
    {F : Type 0} → ⦃n : Number F⦄ → ℕ → RiskService F → Table (PriceData F) → Portfolio F → Bool
is_due now service prices p =
    (check_cooldown_period now p.last_rebalance (int 1)).safe
    && (should_allow_rebalance now service p.allocations).allowed
    && (compute_drift p prices).drifted

-- The guards as a reason to skip.
pub skip_reason_due :
    {F : Type 0} ⦃n : Number F⦄ (now : ℕ) (service : RiskService F) (prices : Table (PriceData F))
    → (p : Portfolio F)
    → ((is_due now service prices p ≡ true) × (skip_reason now service prices p ≡ none))
      ⊎ ((is_due now service prices p ≡ false)
          × ((reason : String) × (skip_reason now service prices p ≡ some reason)))
unfolding skip_reason
skip_reason_due now service prices p = ground arith

module _ {F Q : Type 0} ⦃n : Number F⦄ ⦃jobs : JobQueue Q⦄ where
  enqueue-IsAccounted :
      (correlation : Option String) (p : Portfolio F) (c : Cycle Q)
      → c.checked ≡ suc (c.triggered + total c.skip_counts + length c.cycle_errors)
      → IsAccounted (enqueue correlation p c) × ((enqueue correlation p c).checked ≡ c.checked)
  unfolding enqueue
  enqueue-IsAccounted correlation p c h =
      let added = jobs.add (template ("rebalance-" ∷ p.id ∷ [])) (job_of correlation p) c.queue in
      elim (Option-cases added.0) [
        | inl e ↦ rw (e, enqueue) (omega (arith, h), refl)
        | inr (message, e) ↦ rw (e, enqueue) (omega (arith, h, length-append c.cycle_errors), refl)
      ]

  module _ (now : ℕ) (service : RiskService F) (prices : Table (PriceData F))
      (correlation : Option String) where
    check_portfolio-IsAccounted :
        (c : Cycle Q) (p : Portfolio F)
        → IsAccounted c
        → IsAccounted (check_portfolio now service prices correlation c p)
          × ((check_portfolio now service prices correlation c p).checked ≡ suc c.checked)
    unfolding check_portfolio
    check_portfolio-IsAccounted c p h = elim (Option-cases (skip_reason now service prices p)) [
      | inl e ↦
          rw (e, check_portfolio)
            (enqueue-IsAccounted correlation p (record c { checked = suc c.checked })
              (omega (arith, h)))
      | inr (reason, e) ↦
          rw (e, check_portfolio) (omega (arith, h, total-count_up reason c.skip_counts), refl)
    ]

    cycle-IsAccounted :
        (c : Cycle Q) (ps : List (Portfolio F))
        → IsAccounted c
        → IsAccounted (foldl (check_portfolio now service prices correlation) c ps)
          × ((foldl (check_portfolio now service prices correlation) c ps).checked
              ≡ c.checked + length ps)
    cycle-IsAccounted c [] h = (h, omega arith)
    cycle-IsAccounted c (p ∷ ps) h =
        let (accounted, counted) = check_portfolio-IsAccounted c p h in
        let rest =
          cycle-IsAccounted (check_portfolio now service prices correlation c p) ps accounted in
        (rest.0, rest.1 ∙ omega (arith, counted))

    -- In safe market conditions and with a queue, a cycle checks every eligible portfolio, and the
    -- summary counts each of them once: as triggered, as skipped for a reason, or as an error.
    pub process_auto_rebalance_job-counts :
        (portfolios : List (Portfolio F)) (queue : Q)
        → (check_market_conditions now prices).safe ≡ true
        → let summary =
            (process_auto_rebalance_job now service prices correlation true portfolios queue).0 in
          (summary.portfolios_checked ≡ length (filter is_eligible portfolios))
          × (summary.portfolios_checked
              ≡ summary.portfolios_triggered
                + total summary.portfolios_skipped
                + length summary.errors)
    unfolding process_auto_rebalance_job
    process_auto_rebalance_job-counts portfolios queue safe =
        let eligible = filter is_eligible portfolios in
        let (accounted, counted) = cycle-IsAccounted (start queue) eligible (omega arith) in
        let c = foldl (check_portfolio now service prices correlation) (start queue) eligible in
        elim (Bool-cases (length eligible == 0)) [
          | inl e ↦ rw e (ap length (sym (no_length eligible e)), refl)
          | inr e ↦
              rw (e, safe)
                (counted ∙ omega arith, omega (arith, accounted, total-filter c.skip_counts))
        ]

    -- What `add` does to the queue for a portfolio.
    abbrev pub add_job : Q → Portfolio F → Q
    add_job queue p =
        (jobs.add (template ("rebalance-" ∷ p.id ∷ [])) (job_of correlation p) queue).1

    check_portfolio-queue :
        (c : Cycle Q) (p : Portfolio F)
        → (check_portfolio now service prices correlation c p).queue
          ≡ (if is_due now service prices p then add_job c.queue p else c.queue)
    unfolding check_portfolio enqueue
    check_portfolio-queue c p = elim (skip_reason_due now service prices p) [
      | inr (due, (reason, e)) ↦ rw (due, e, check_portfolio) refl
      | inl (due, e) ↦
          let added =
            jobs.add (template ("rebalance-" ∷ p.id ∷ [])) (job_of correlation p) c.queue in
          elim (Option-cases added.0) [
            | inl a ↦ rw (due, e, check_portfolio, a, enqueue) refl
            | inr (message, a) ↦ rw (due, e, check_portfolio, a, enqueue) refl
          ]
    ]

    cycle-queue :
        (c : Cycle Q) (ps : List (Portfolio F))
        → (foldl (check_portfolio now service prices correlation) c ps).queue
          ≡ foldl add_job c.queue (filter (is_due now service prices) ps)
    cycle-queue c [] = refl
    cycle-queue c (p ∷ ps) =
        let rest = cycle-queue (check_portfolio now service prices correlation c p) ps in
        rest
        ∙ rw (check_portfolio-queue c p) (elim (Bool-cases (is_due now service prices p)) [
          | inl e ↦ rw e refl
          | inr e ↦ rw e refl
        ])

    -- The queue after a job is that after adding, in order, each eligible portfolio that has cooled
    -- down, that the risk service allows and that has drifted; and none of them unless the market
    -- conditions are safe and there is a queue.
    pub process_auto_rebalance_job-queue :
        (portfolios : List (Portfolio F)) (queue : Q) (available : Bool)
        → (process_auto_rebalance_job now service prices correlation available portfolios queue).1
          ≡ (if (check_market_conditions now prices).safe && available
              then foldl add_job queue
                  (filter (is_due now service prices) (filter is_eligible portfolios))
              else queue)
    unfolding process_auto_rebalance_job
    process_auto_rebalance_job-queue portfolios queue available =
        let eligible = filter is_eligible portfolios in
        let safe = (check_market_conditions now prices).safe in
        let added = cycle-queue (start queue) eligible in
        elim (Bool-cases (length eligible == 0)) [
          | inl e ↦ rw e (rw (no_length eligible e) (sym (if_same (safe && available) queue)))
          | inr e ↦ elim (Bool-cases safe) [
            | inr f ↦ rw (e, f) refl
            | inl f ↦ elim (Bool-cases available) [
              | inr g ↦ rw (e, f, g) refl
              | inl g ↦ rw (e, f, g) added
            ]
          ]
        ]
