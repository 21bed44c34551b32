-- ===== src/AutoRebalance/Tests.antt =====
-- Runs of the job, and its theorems at concrete inputs.
use stellar_portfolio_rebala.Prelude.{
  ◌+◌, ◌≡◌, refl, true, ◌&&◌, none, some, List, [], ◌∷◌, ◌++◌, arith, length, filter, foldl,
  if◌then◌else◌,
}
use stellar_portfolio_rebala.Prelude.Table.{Table, lookup, insert}
use stellar_portfolio_rebala.Number.{int}
use stellar_portfolio_rebala.Number.Fixed.{Fixed, fixed_number}
use stellar_portfolio_rebala.Market.{
  PriceData, check_volatility, check_data_freshness, check_correlation, check_market_conditions,
}
use stellar_portfolio_rebala.Plan.{Portfolio}
use stellar_portfolio_rebala.RateLimit.Counts.{total}
use stellar_portfolio_rebala.Risk.Types.{RiskService}
use stellar_portfolio_rebala.Risk.Breakers
use stellar_portfolio_rebala.Risk.Breakers.{
  new_service, initial_symbols, ingest, last_prices, check_circuit_breaker, push_bounded,
  update_asset, update_price_data, previous_price,
}
use stellar_portfolio_rebala.Risk.Crash.{update, status, run}
use stellar_portfolio_rebala.AutoRebalance.{
  JobQueue, RebalanceJob, is_eligible, compute_drift, total_usd_value, add_drift,
  process_auto_rebalance_job,
}
use stellar_portfolio_rebala.AutoRebalance.Accounts.{
  is_due, add_job, process_auto_rebalance_job-counts, process_auto_rebalance_job-queue,
}
use stellar_portfolio_rebala.AutoRebalance.Safety.{
  crash-process_auto_rebalance_job, process_auto_rebalance_job-triggered,
}

-- A queue that keeps its jobs.
instance abbrev kept : JobQueue (List RebalanceJob)
kept = record { add = λ name job queue. (none, queue ++ job ∷ []) }

abbrev before : RiskService Fixed
before = (update_price_data 1000 (("XLM", int 100) ∷ []) (new_service [])).0

before_price : previous_price "XLM" before ≡ some (int 100)
unfolding initial_symbols lookup insert ingest Breakers.check_volatility last_prices
    check_circuit_breaker push_bounded update_asset update_price_data
before_price = refl

abbrev quote : Fixed → PriceData Fixed
quote price = record { price = price; change = int 1; timestamp = int 0 }

abbrev prices : Table (PriceData Fixed)
prices = ("XLM", quote (int 1)) ∷ ("USDC", quote (int 1)) ∷ []

-- All in XLM, to be halved.
abbrev drifted : Portfolio Fixed
drifted = record {
  id = "p";
  allocations = ("XLM", int 50) ∷ ("USDC", int 50) ∷ [];
  balances = ("XLM", int 300) ∷ [];
  slippage_tolerance_percent = none;
  slippage_tolerance = none;
  threshold = int 5;
  strategy_enabled = none;
  last_rebalance = int 0;
}

abbrev demo : Portfolio Fixed
demo = record drifted { id = "demo" }

abbrev portfolios : List (Portfolio Fixed)
portfolios = demo ∷ drifted ∷ []

drifts : (compute_drift drifted prices).drifted ≡ true
unfolding compute_drift total_usd_value add_drift lookup
drifts = refl

calm : (check_market_conditions 9_000_000 prices).safe ≡ true
unfolding check_market_conditions check_volatility check_data_freshness check_correlation
calm = refl

abbrev no_jobs : List RebalanceJob
no_jobs = []

process_auto_rebalance_job-counts_example :
    let summary =
      (process_auto_rebalance_job 9_000_000 before prices none true portfolios no_jobs).0 in
    (summary.portfolios_checked ≡ length (filter is_eligible portfolios))
    × (summary.portfolios_checked
        ≡ summary.portfolios_triggered + total summary.portfolios_skipped + length summary.errors)
process_auto_rebalance_job-counts_example =
    process_auto_rebalance_job-counts 9_000_000 before prices none portfolios no_jobs calm

process_auto_rebalance_job-queue_example :
    (process_auto_rebalance_job 9_000_000 before prices none true portfolios no_jobs).1 ≡ (
      if (check_market_conditions 9_000_000 prices).safe && true
      then foldl
          (add_job 9_000_000 before prices none)
          no_jobs
          (filter (is_due 9_000_000 before prices) (filter is_eligible portfolios))
      else no_jobs)
process_auto_rebalance_job-queue_example =
    process_auto_rebalance_job-queue 9_000_000 before prices none portfolios no_jobs true

process_auto_rebalance_job-triggered_example :
    (process_auto_rebalance_job 9_000_000 before prices none true portfolios
      no_jobs).0.portfolios_triggered
    ≡ length (filter (is_due 9_000_000 before prices) (filter is_eligible portfolios))
process_auto_rebalance_job-triggered_example =
    process_auto_rebalance_job-triggered 9_000_000 before prices none (λ name job queue. refl)
      portfolios no_jobs calm

crash-process_auto_rebalance_job_example :
    let service =
      run
        (update 3000 (("XLM", int 131) ∷ []) ∷ status 4000 ∷ [])
        (update_price_data 2000 (("XLM", int 130) ∷ []) before).0 in
    (process_auto_rebalance_job 200_000 service prices none true portfolios no_jobs).1 ≡ no_jobs
crash-process_auto_rebalance_job_example =
    crash-process_auto_rebalance_job 2000 200_000 "XLM" (int 130) (int 100) [] before
      (update 3000 (("XLM", int 131) ∷ []) ∷ status 4000 ∷ []) prices none true portfolios no_jobs
      before_price refl refl (omega arith) (omega arith)
