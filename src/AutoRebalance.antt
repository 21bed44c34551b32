-- ===== src/AutoRebalance.antt =====
-- backend/src/jobs/autoRebalance.ts: the job that checks every portfolio and enqueues rebalances.
pub mod Accounts
pub mod Safety
mod Tests
use stellar_portfolio_rebala.Prelude.{
  ℕ, suc, String, Bool, true, false, not, ◌&&◌, ◌||◌, Option, none, some, List, [], ◌∷◌, ◌++◌,
  foldl, filter, length, ltb, str_eq, ◌==◌, template, if◌then◌else◌,
}
use stellar_portfolio_rebala.Prelude.Table.{Table, lookup, insert, get_or}
use stellar_portfolio_rebala.Number.{Number, int, gt}
use stellar_portfolio_rebala.Market.{PriceData, check_market_conditions, check_cooldown_period}
use stellar_portfolio_rebala.Plan.{Portfolio}
use stellar_portfolio_rebala.RateLimit.{count_up}
use stellar_portfolio_rebala.Risk.Types.{RiskService}
use stellar_portfolio_rebala.Risk.Decision.{should_allow_rebalance}

pub record RebalanceJob : Type 0 where
  pub portfolio_id : String
  pub triggered_by : String
  pub correlation_id : Option String

-- The job queue: `add` takes the job's name and data, and rejects with a message.
pub record JobQueue (Q : Type 0) : Type 0 where
  pub add : String → RebalanceJob → Q → Option String × Q

pub record AutoRebalanceSummary : Type 0 where
  pub portfolios_checked : ℕ
  pub portfolios_triggered : ℕ
  pub portfolios_skipped : List (String × ℕ)
  pub errors : List String

pub record AssetDrift (F : Type 0) : Type 0 where
  pub target : F
  pub current : F
  pub drift : F

pub record Drift (F : Type 0) : Type 0 where
  pub drifted : Bool
  pub max_drift_pct : F
  pub details : Table (AssetDrift F)

-- What the loop changes: the summary's counts, `skipCounts`, and the queue.
pub record Cycle (Q : Type 0) : Type 0 where
  pub checked : ℕ
  pub triggered : ℕ
  pub skip_counts : Table ℕ
  pub cycle_errors : List String
  pub queue : Q

abbrev pub is_demo : String → Bool
is_demo id = str_eq id "demo" || str_eq id "demo-portfolio-1"

abbrev pub skip : {Q : Type 0} → String → Cycle Q → Cycle Q
skip reason c = record c { skip_counts = count_up reason c.skip_counts }

abbrev pub empty_summary : AutoRebalanceSummary
empty_summary = record {
  portfolios_checked = 0;
  portfolios_triggered = 0;
  portfolios_skipped = [];
  errors = [];
}

abbrev pub start : {Q : Type 0} → Q → Cycle Q
start queue = record {
  checked = 0;
  triggered = 0;
  skip_counts = [];
  cycle_errors = [];
  queue = queue;
}

abbrev pub summary_of : {Q : Type 0} → Cycle Q → AutoRebalanceSummary
summary_of c = record {
  portfolios_checked = c.checked;
  portfolios_triggered = c.triggered;
  portfolios_skipped = filter (λ e. ltb 0 e.1) c.skip_counts;
  errors = c.cycle_errors;
}

module _ {F : Type 0} ⦃n : Number F⦄ where
  open n use {add, sub, mul, div, abs, le}

  unfoldable pub is_auto_rebalance_enabled : Portfolio F → Bool
  is_auto_rebalance_enabled p =
      not (le p.threshold (int 0)) && elim p.strategy_enabled [ none ↦ true | some b ↦ b ]

  abbrev pub is_eligible : Portfolio F → Bool
  is_eligible p = not (is_demo p.id) && is_auto_rebalance_enabled p

  abbrev pub job_of : Option String → Portfolio F → RebalanceJob
  job_of correlation portfolio = record {
    portfolio_id = portfolio.id;
    triggered_by = "auto";
    correlation_id = correlation;
  }

  -- `prices[asset]?.price ?? 1`
  abbrev pub price_or_one : Table (PriceData F) → String → F
  price_or_one prices asset = elim (lookup asset prices) [ none ↦ int 1 | some p ↦ p.price ]

  unfoldable pub total_usd_value : Portfolio F → Table (PriceData F) → F
  total_usd_value portfolio prices =
      foldl (λ sum e. add sum (mul e.1 (price_or_one prices e.0))) (int 0) portfolio.balances

  abbrev pub no_drift : Drift F
  no_drift = record { drifted = false; max_drift_pct = int 0; details = [] }

  abbrev pub current_pct : Portfolio F → Table (PriceData F) → F → String → F
  current_pct portfolio prices total asset =
      mul (div (mul (get_or asset portfolio.balances (int 0)) (price_or_one prices asset)) total)
        (int 100)

  -- One round of the loop over the allocations.
  unfoldable pub add_drift : Portfolio F → Table (PriceData F) → F → Drift F → String × F → Drift F
  add_drift portfolio prices total d (asset, target) =
      let current = current_pct portfolio prices total asset in
      let drift = abs (sub current target) in
      record {
        drifted = if gt drift portfolio.threshold then true else d.drifted;
        max_drift_pct = if gt drift d.max_drift_pct then drift else d.max_drift_pct;
        details =
            insert asset (record { target = target; current = current; drift = drift }) d.details;
      }

  unfoldable pub compute_drift : Portfolio F → Table (PriceData F) → Drift F
  compute_drift portfolio prices =
      let total = total_usd_value portfolio prices in
      if le total (int 0)
      then no_drift
      else foldl (add_drift portfolio prices total) no_drift portfolio.allocations

  -- `MIN_COOLDOWN_HOURS` is 1. The first guard that fails gives the reason, none the word to go on.
  unfoldable pub skip_reason : ℕ → RiskService F → Table (PriceData F) → Portfolio F → Option String
  skip_reason now service prices portfolio =
      if not (check_cooldown_period now portfolio.last_rebalance (int 1)).safe
      then some "cooldown"
      else if not (should_allow_rebalance now service portfolio.allocations).allowed
      then some "circuit_breaker"
      else if not (compute_drift portfolio prices).drifted
      then some "no_drift_needed"
      else none

  module _ {Q : Type 0} ⦃jobs : JobQueue Q⦄ where
    unfoldable pub enqueue : Option String → Portfolio F → Cycle Q → Cycle Q
    enqueue correlation portfolio c =
        let (rejected, queue) =
          jobs.add (template ("rebalance-" ∷ portfolio.id ∷ [])) (job_of correlation portfolio)
            c.queue in
        elim rejected [
          | none ↦ record c { triggered = suc c.triggered; queue = queue }
          | some message ↦ record c {
            cycle_errors =
                c.cycle_errors ++ template ("Portfolio " ∷ portfolio.id ∷ ": " ∷ message ∷ []) ∷ [];
            queue = queue;
          }
        ]

    -- The body of the loop over the eligible portfolios.
    unfoldable pub check_portfolio :
        ℕ → RiskService F → Table (PriceData F) → Option String → Cycle Q → Portfolio F → Cycle Q
    check_portfolio now service prices correlation c portfolio =
        let c' = record c { checked = suc c.checked } in
        elim (skip_reason now service prices portfolio) [
          | some reason ↦ skip reason c'
          | none ↦ enqueue correlation portfolio c'
        ]

    -- `available` says whether `getRebalanceQueue` gives a queue.
    unfoldable pub process_auto_rebalance_job :
        ℕ
        → RiskService F
        → Table (PriceData F)
        → Option String
        → Bool
        → List (Portfolio F)
        → Q
        → AutoRebalanceSummary × Q
    process_auto_rebalance_job now service prices correlation available portfolios queue =
        let eligible = filter is_eligible portfolios in
        let c = foldl (check_portfolio now service prices correlation) (start queue) eligible in
        if length eligible == 0
        then (empty_summary, queue)
        else if not (check_market_conditions now prices).safe
        then (
          record empty_summary { portfolios_skipped = ("market_conditions", length eligible) ∷ [] },
          queue,
        )
        else if not available
        then (record empty_summary { errors = "Rebalance queue unavailable" ∷ [] }, queue)
        else (summary_of c, c.queue)
