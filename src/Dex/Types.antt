-- ===== src/Dex/Types.antt =====
-- The data of services/dex.ts, and its libraries: the Stellar SDK and the network's server.
use stellar_portfolio_rebala.Async.{Outcome, Run}
use stellar_portfolio_rebala.Prelude.{ℕ, String, Bool, true, false, Option, List}

-- What the code uses of numbers beyond the record Number: `parseFloat`, `Math.ceil`, and
-- `Number.POSITIVE_INFINITY`.
pub record Float (F : Type 0) : Type 0 where
  pub parse_float : String → F
  pub ceil : F → F
  pub positive_infinity : F

pub record DexTradeRequest (F : Type 0) : Type 0 where
  pub trade_id : String
  pub from_asset : String
  pub to_asset : String
  pub amount : F
  pub max_slippage_bps : Option F

pub record RebalanceExecutionConfig (F : Type 0) : Type 0 where
  pub max_slippage_bps_per_trade : F
  pub max_slippage_bps_per_rebalance : F
  pub max_spread_bps : F
  pub min_liquidity_coverage : F
  pub allow_partial_fill : Bool
  pub rollback_on_failure : Bool
  pub signer_secret : Option String

-- `Partial<RebalanceExecutionConfig>`
pub record RequestedConfig (F : Type 0) : Type 0 where
  pub trade_slippage : Option F
  pub rebalance_slippage : Option F
  pub spread : Option F
  pub coverage : Option F
  pub partial_fill : Option Bool
  pub rollback : Option Bool
  pub secret : Option String

pub data ExecutionStatus : Type 0 where
  executed partial failed skipped : ExecutionStatus

abbrev pub is_failed : ExecutionStatus → Bool
is_failed failed = true
is_failed _ = false

abbrev pub is_partial : ExecutionStatus → Bool
is_partial partial = true
is_partial _ = false

abbrev pub is_filled : ExecutionStatus → Bool
is_filled executed = true
is_filled partial = true
is_filled _ = false

pub record DexTradeExecutionResult (F : Type 0) : Type 0 where
  pub trade_id : String
  pub from_asset : String
  pub to_asset : String
  pub requested_amount : F
  pub executed_amount : F
  pub estimated_received_amount : F
  pub remaining_amount : F
  pub reference_price : F
  pub price_limit : F
  pub spread_bps : F
  pub slippage_bps : F
  pub liquidity_coverage : F
  pub status : ExecutionStatus
  pub tx_hash : Option String
  pub rollback_tx_hash : Option String
  pub rolled_back : Bool
  pub failure_reason : Option String

pub record DexRollbackResult : Type 0 where
  pub attempted : Bool
  pub success : Bool
  pub rolled_back_trades : ℕ
  pub failures : List String

pub record MarketAssessment (F : Type 0) : Type 0 where
  pub reference_price : F
  pub spread_bps : F
  pub liquidity_coverage : F

-- `Asset.native()` and `new Asset(code, issuer)`.
pub data Asset : Type 0 where
  native : Asset
  credit : String → String → Asset

pub record RawOfferAsset : Type 0 where
  pub asset_type : String
  pub asset_code : Option String
  pub asset_issuer : Option String

-- The id is the text that `String(offer.id)` gives.
pub record RawOfferRecord : Type 0 where
  pub id : String
  pub amount : String
  pub price : String
  pub selling : RawOfferAsset
  pub buying : RawOfferAsset

-- A level of the order book.
pub record Level : Type 0 where
  pub price : String
  pub amount : String

-- None where the field is not an array.
pub record OrderBook : Type 0 where
  pub bids : Option (List Level)
  pub asks : Option (List Level)

pub record Keypair : Type 0 where
  pub public_key : String
  pub secret : String

-- An account as the server gives it, of which a transaction takes the sequence number.
pub record Account : Type 0 where
  pub account_id : String
  pub sequence : String

-- The arguments of `Operation.manageSellOffer`.
pub record SellOffer : Type 0 where
  pub selling : Asset
  pub buying : Asset
  pub amount : String
  pub price : String
  pub offer_id : String

pub record TradeRecord : Type 0 where
  pub base_amount : String
  pub counter_amount : String

-- The Stellar SDK: `new_asset` is the constructor, which throws on a malformed code or issuer.
pub record Sdk : Type 0 where
  pub new_asset : String → String → Outcome Asset
  pub from_secret : String → Outcome Keypair

-- The server, whose base fee is a whole number of stroops. `submit` builds a transaction of the loaded
-- account with the fee, the offer and the memo, signs and submits it, and gives its hash. `trades` gives none where the SDK cannot ask for the
-- trades of a transaction or the records are no array.
pub record Horizon (H : Type 0) : Type 0 where
  pub fetch_base_fee : Run H ℕ
  pub orderbook : Asset → Asset → Run H OrderBook
  pub offers : String → Run H (Option (List RawOfferRecord))
  pub load_account : String → Run H Account
  pub submit : Keypair → Account → ℕ → SellOffer → String → Run H String
  pub trades : String → Run H (Option (List TradeRecord))
