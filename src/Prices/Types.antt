-- ===== src/Prices/Types.antt =====
-- The data of services/reflector.ts, and what it asks of the price sources and of Redis.
use stellar_portfolio_rebala.Async.{Outcome, Run}
use stellar_portfolio_rebala.Prelude.{ℕ, String, Bool, Option, List}
use stellar_portfolio_rebala.Prelude.Table.{Table}

pub data PriceDataSource : Type 0 where
  reflector coingecko_pro coingecko_free coingecko_browser external fallback fallback_browser :
      PriceDataSource

pub data PriceDataTier : Type 0 where
  primary cached_primary stale_cached synthetic_tier : PriceDataTier

pub data ResolutionHint : Type 0 where
  fresh_primary cached_only partial_merge rate_limited_cache error_recovery_cache
        synthetic_fallback :
      ResolutionHint

pub data CacheStatus : Type 0 where
  redis_hit redis_miss redis_unavailable redis_bypassed : CacheStatus

-- `PriceData`, with the fields that are undefined as none.
pub record Quote (F : Type 0) : Type 0 where
  pub price : F
  pub change : F
  pub timestamp : F
  pub source : Option PriceDataSource
  pub volume : Option F
  pub served_from_cache : Option Bool
  pub server_fetched_at_ms : Option ℕ
  pub cache_age_ms : Option ℕ
  pub quote_age_seconds : Option F
  pub data_tier : Option PriceDataTier

abbrev pub PricesMap : Type 0 → Type 0
PricesMap F = Table (Quote F)

pub record PriceFeedMeta : Type 0 where
  pub resolved_at_ms : ℕ
  pub degraded : Bool
  pub stale_or_limited : Bool
  pub resolution_hint : ResolutionHint
  pub assets_count : ℕ
  pub cache_status : Option CacheStatus

-- An entry of `priceCache`.
pub record CachedQuote (F : Type 0) : Type 0 where
  pub quote : Quote F
  pub cached_at_ms : ℕ

pub record CacheStats : Type 0 where
  pub hits : ℕ
  pub misses : ℕ
  pub last_age_ms : ℕ

-- The fields of ReflectorService.
pub record PriceFeed (F : Type 0) : Type 0 where
  pub coin_gecko_api_key : String
  pub price_cache : Table (CachedQuote F)
  pub reflector_api_url : String
  pub price_data_max_age : F
  pub cache_duration : ℕ
  pub last_request_time : ℕ
  pub oracle_cache_ttl_seconds : ℕ
  pub cache_stats : Table CacheStats
  pub redis_connected : Bool

-- What a call reads of its surroundings: the symbols and CoinGecko ids of the asset registry, the
-- feature flag, and two random numbers for each asset.
pub record Surroundings (F : Type 0) : Type 0 where
  pub symbols : List String
  pub coingecko_ids : Table String
  pub allow_fallback_prices : Bool
  pub random : String → F × F

-- `Math.floor`, of any number.
pub record Floor (F : Type 0) : Type 0 where
  pub floor_of : F → F

-- A row of the Reflector's answer: the price is what `Number` makes of it; a negative number of
-- decimals is 0, as both leave the price as it is.
pub record ReflectorRow (F : Type 0) : Type 0 where
  pub price : F
  pub timestamp : F
  pub decimals : Option ℕ
  pub change : Option F
  pub volume : Option F

-- `prices` is none where the payload has no such field, or an empty value there; `rows` are those of
-- the payload itself.
pub record ReflectorPayload (F : Type 0) : Type 0 where
  pub prices : Option (Table (ReflectorRow F))
  pub rows : Table (ReflectorRow F)

pub record CoinData (F : Type 0) : Type 0 where
  pub usd : Option F
  pub usd_24h_change : Option F
  pub last_updated_at : Option F
  pub usd_24h_vol : Option F

-- Reading the body of a response may throw; so does reading an entry of a body that is no object.
pub record Response (A : Type 0) : Type 0 where
  pub ok : Bool
  pub status : ℕ
  pub json : Outcome A
  pub text : Outcome String

-- The clock, the requests, the database's column of freshness, and Redis.
pub record Sources (F W : Type 0) : Type 0 where
  -- `Date.now()`
  pub clock : W → ℕ
  -- GET of `/prices?assets=...` at a base URL, for assets joined by commas.
  pub reflector_request : String → String → Run W (Response (ReflectorPayload F))
  -- GET of `/simple/price?ids=...`, with the fixed parameters, within 15 seconds.
  pub coin_gecko_request : String → Run W (Response (Table (CoinData F)))
  pub set_asset_freshness : String → ℕ → Run W (Unit {0})
  -- The constructor, `connect` and `ping`.
  pub redis_connect : Run W (Unit {0})
  pub redis_get : String → Run W (Option String)
  -- `SET key text EX seconds`
  pub redis_set : String → String → ℕ → Run W (Unit {0})

-- `JSON.parse`, none where the value is not an object, and `JSON.stringify`.
pub record PricesJson (F : Type 0) : Type 0 where
  pub parse : String → Outcome (Option (PricesMap F))
  pub stringify : PricesMap F → String
