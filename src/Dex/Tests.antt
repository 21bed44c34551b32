-- ===== src/Dex/Tests.antt =====
-- Runs of the execution against a small exchange, and its theorems at concrete inputs.
use stellar_portfolio_rebala.Prelude.{
  ℕ, ◌+◌, suc, ◌≡◌, refl, ◌⊎◌, String, true, none, some, List, [], ◌∷◌, map, filter, length, str_eq,
  ◌==◌, if◌then◌else◌, to_upper_case, trim, trim_start, trim_end,
}
use stellar_portfolio_rebala.Prelude.Table.{lookup}
use stellar_portfolio_rebala.Number.{int, ◌≼◌}
use stellar_portfolio_rebala.Number.Fixed.{Fixed, fixed_number, Fixed-IsOrdered}
use stellar_portfolio_rebala.Decimal.{add_stroop_fee, price_limit, round_half_up}
use stellar_portfolio_rebala.Async.{returned, thrown, ◌>>=◌, catching}
use stellar_portfolio_rebala.Dex.Types.{
  Float, DexTradeRequest, DexTradeExecutionResult, DexRollbackResult, RequestedConfig, Asset,
  native, credit, Level, OrderBook, Keypair, Sdk, Horizon,
}
use stellar_portfolio_rebala.Dex.Settings.{
  default_issuers, get_default_execution_config, execution_config, read_number_env,
  get_asset_object, get_effective_trade_slippage, resolve_signer, read_boolean_env,
}
use stellar_portfolio_rebala.Dex.Exchange.{
  assess_market, market_of, available_liquidity, get_open_offers_by_id, offers_by_id,
  find_new_offer, try_get_average_trade_price, average_price,
}
use stellar_portfolio_rebala.Dex.Trade.{
  TradeLimits, filled_result, new_offer, settle, place_offer, execute_in_market,
  execute_single_trade,
}
use stellar_portfolio_rebala.Dex.Assess.{
  DexTradeAssessmentResult, assess_single_trade, assess_in_market, success, failed,
}
use stellar_portfolio_rebala.Dex.Progress.{Progress, no_progress, after_trade, weigh_result}
use stellar_portfolio_rebala.Dex.Report.{
  no_rollback, DexRebalanceExecutionResult, execution_result, status_of,
}
use stellar_portfolio_rebala.Dex.Rebalance.{
  execute_rebalance_trades, execute_trades, finish, rollback_executed_trades, undo, after_rollback,
  is_undoable,
}
use stellar_portfolio_rebala.Dex.Limits.{get_default_execution_config_range}
use stellar_portfolio_rebala.Dex.Agreement.{as_failure, execute_single_trade-assess_single_trade}
use stellar_portfolio_rebala.Dex.Completion.{IsCompleted, execute_rebalance_trades-IsCompleted}
use stellar_portfolio_rebala.Dex.Rollback.{rollback_executed_trades-counts}
use stellar_portfolio_rebala.Dex.Loss.{execute_rebalance_trades-orderbook}

instance abbrev test_float : Float Fixed
test_float = record {
  parse_float = λ s. if str_eq s "2" then int 2 else if str_eq s "1000" then int 1000 else int 0;
  ceil = λ x. x;
  positive_infinity = int 1_000_000;
}

instance abbrev test_sdk : Sdk
test_sdk = record {
  new_asset = λ code issuer. returned (credit code issuer);
  from_secret = λ secret. returned (record { public_key = "GABC"; secret = secret });
}

abbrev level : Level
level = record { price = "2"; amount = "1000" }

-- An exchange that fills every offer at once, counts them, and has no order book for XLM.
instance abbrev exchange : Horizon ℕ
exchange = record {
  fetch_base_fee = λ h. (returned 100, h);
  orderbook = λ selling buying h. elim buying [
    | native ↦ (thrown "timeout", h)
    | credit code issuer ↦
        (returned (record { bids = some (level ∷ []); asks = some (level ∷ []) }), h)
  ];
  offers = λ account h. (returned (some []), h);
  load_account = λ account h. (returned (record { account_id = account; sequence = "1" }), h);
  submit = λ signer account fee offer memo h. (returned "tx", suc h);
  trades = λ hash h. (returned none, h);
}

abbrev requested : RequestedConfig Fixed
requested = record {
  trade_slippage = none;
  rebalance_slippage = none;
  spread = none;
  coverage = none;
  partial_fill = none;
  rollback = none;
  secret = some "S";
}

abbrev request : String → String → String → Fixed → DexTradeRequest Fixed
request id from_asset to_asset amount = record {
  trade_id = id;
  from_asset = from_asset;
  to_asset = to_asset;
  amount = amount;
  max_slippage_bps = none;
}

abbrev buy_usdc : DexTradeRequest Fixed
buy_usdc = request "t1" "XLM" "USDC" (int 10)

abbrev sell_usdc : DexTradeRequest Fixed
sell_usdc = request "t2" "USDC" "XLM" (int 5)

abbrev limits : TradeLimits Fixed
limits = record {
  max_slippage_bps = int 100;
  max_spread_bps = int 120;
  min_liquidity_coverage = int 1;
}

abbrev signer : Keypair
signer = record { public_key = "GABC"; secret = "S" }

get_default_execution_config_range_example :
    let config = get_default_execution_config {F = Fixed} [] in
    ((int 1 ≼ config.max_slippage_bps_per_trade) × (config.max_slippage_bps_per_trade ≼ int 5000))
    × ((int 1 ≼ config.max_slippage_bps_per_rebalance)
        × (config.max_slippage_bps_per_rebalance ≼ int 10_000))
    × ((int 1 ≼ config.max_spread_bps) × (config.max_spread_bps ≼ int 10_000))
    × ((fixed_number.decimal 1 1 ≼ config.min_liquidity_coverage)
        × (config.min_liquidity_coverage ≼ int 100))
get_default_execution_config_range_example =
    get_default_execution_config_range Fixed-IsOrdered [] refl

-- A trade for more than the order book holds.
abbrev too_large : DexTradeRequest Fixed
too_large = request "t3" "XLM" "USDC" (int 2000)

abbrev book : OrderBook
book = record { bids = some (level ∷ []); asks = some (level ∷ []) }

abbrev oversized : DexTradeAssessmentResult Fixed
oversized = assess_in_market too_large limits (int 2000) (market_of book (int 2000))

execute_single_trade-assess_single_trade_example :
    execute_single_trade {H = ℕ} default_issuers signer too_large limits 100 7 ≡ (
      returned (as_failure oversized),
      (assess_single_trade {H = ℕ} default_issuers too_large limits 7).1,
    )
unfolding assess_single_trade assess_in_market market_of available_liquidity round_half_up
    assess_market ◌>>=◌ get_asset_object to_upper_case lookup
execute_single_trade-assess_single_trade_example =
    execute_single_trade-assess_single_trade signer too_large limits 100 default_issuers 7 oversized
      refl refl

-- The result of the first trade, and the progress after it.
abbrev bought : DexTradeExecutionResult Fixed
bought =
    filled_result buy_usdc (price_limit (int 2) (int 100)) (market_of book (int 10)) (int 10) "tx"
      (int 0) none

abbrev charged : Progress Fixed
charged = record no_progress { fee = add_stroop_fee (int 0) (int 100) }

abbrev bought_progress : Progress Fixed
bought_progress = weigh_result (int 100) bought (record charged { executed = bought ∷ [] })

execute_rebalance_trades-orderbook_example :
    execute_rebalance_trades {H = ℕ} [] default_issuers "GABC"
      (buy_usdc ∷ sell_usdc ∷ [])
      requested
      0
    ≡ (thrown "timeout", 1)
unfolding execute_single_trade execute_in_market place_offer new_offer settle assess_market
    market_of available_liquidity round_half_up ◌>>=◌ catching get_asset_object to_upper_case lookup
    resolve_signer trim trim_end trim_start execution_config read_boolean_env after_trade
    filled_result get_default_execution_config read_number_env get_effective_trade_slippage
    get_open_offers_by_id offers_by_id find_new_offer try_get_average_trade_price average_price
execute_rebalance_trades-orderbook_example =
    execute_rebalance_trades-orderbook [] default_issuers "GABC" "timeout" buy_usdc sell_usdc []
      requested signer 100
      (credit "USDC" "GBBD47IF6LWK7P7MDEVSCWR7DPUWV3NY3DTQEVFL4NAT4AQH3ZLLFLA5", native) bought
      bought_progress 0 0 1 1 refl refl refl refl refl refl refl

abbrev usd_pair : Asset × Asset
usd_pair = (native, credit "USDC" "GBBD47IF6LWK7P7MDEVSCWR7DPUWV3NY3DTQEVFL4NAT4AQH3ZLLFLA5")

abbrev completed : DexRebalanceExecutionResult Fixed
completed = execution_result (execution_config [] requested) bought_progress no_rollback

execute_rebalance_trades-IsCompleted_example :
    (completed.status ≡ failed)
    ⊎ IsCompleted (execution_config [] requested) (map (λ x. x.trade_id) (buy_usdc ∷ [])) completed
unfolding execute_rebalance_trades execute_trades finish execute_single_trade execute_in_market
    place_offer new_offer settle assess_market market_of available_liquidity round_half_up ◌>>=◌
    catching get_asset_object to_upper_case lookup resolve_signer trim trim_end trim_start
    execution_config read_boolean_env after_trade filled_result get_default_execution_config
    read_number_env get_effective_trade_slippage get_open_offers_by_id offers_by_id find_new_offer
    try_get_average_trade_price average_price
execute_rebalance_trades-IsCompleted_example =
    execute_rebalance_trades-IsCompleted {H = ℕ} Fixed-IsOrdered [] default_issuers "GABC"
      (buy_usdc ∷ []) requested 0 completed refl refl

completed_in_full : completed.status ≡ success
unfolding execution_result status_of round_half_up filled_result
completed_in_full = refl

-- A sale of USDC, which is bought back.
abbrev sold : DexTradeExecutionResult Fixed
sold = record bought { from_asset = "USDC"; to_asset = "XLM" }

abbrev bought_back : List (DexTradeExecutionResult Fixed) × DexRollbackResult
bought_back = (
  record sold { rolled_back = true; rollback_tx_hash = some "tx" } ∷ [],
  record { attempted = true; success = true; rolled_back_trades = 1; failures = [] },
)

rollback_executed_trades-counts_example :
    (bought_back.1.rolled_back_trades + length bought_back.1.failures
      ≡ length (filter is_undoable (sold ∷ [])))
    × (bought_back.1.rolled_back_trades ≡ length (filter (λ t. t.rolled_back) bought_back.0))
    × (bought_back.1.success ≡ (length bought_back.1.failures == 0))
unfolding rollback_executed_trades undo after_rollback execute_single_trade execute_in_market
    place_offer new_offer settle assess_market market_of available_liquidity round_half_up ◌>>=◌
    catching get_asset_object to_upper_case lookup execution_config filled_result
    get_default_execution_config read_number_env get_effective_trade_slippage get_open_offers_by_id
    offers_by_id find_new_offer try_get_average_trade_price average_price
rollback_executed_trades-counts_example =
    rollback_executed_trades-counts {H = ℕ} default_issuers signer (execution_config [] requested)
      100 (sold ∷ []) 0 bought_back (refl, tt) refl
