-- ===== src/Prices/Cache.antt =====
-- The cache of prices in memory, its statistics and settings.
use stellar_portfolio_rebala.Prelude.{
  ℕ, suc, ◌+◌, ◌-◌, String, Bool, true, false, Option, none, some, List, [], ◌∷◌, foldl, map,
  length, ltb, if◌then◌else◌,
}
use stellar_portfolio_rebala.Prelude.Table.{Table, lookup, insert, get_or}
use stellar_portfolio_rebala.Number.{Number, int}
use stellar_portfolio_rebala.Prices.Types.{
  PriceDataSource, fallback, cached_primary, synthetic_tier, Quote, PricesMap, CachedQuote,
  CacheStats, PriceFeed, Surroundings,
}

abbrev pub default_symbols : List String
default_symbols = "XLM" ∷ "BTC" ∷ "ETH" ∷ "USDC" ∷ []

abbrev pub default_coin_ids : Table String
default_coin_ids =
    ("XLM", "stellar") ∷ ("BTC", "bitcoin") ∷ ("ETH", "ethereum") ∷ ("USDC", "usd-coin") ∷ []

abbrev pub min_request_interval : ℕ
min_request_interval = 90_000

abbrev pub oracle_cache_key : String
oracle_cache_key = "oracle:prices"

abbrev pub is_fallback : PriceDataSource → Bool
is_fallback fallback = true
is_fallback _ = false

-- `source === 'fallback'`
abbrev pub from_fallback : Option PriceDataSource → Bool
from_fallback none = false
from_fallback (some source) = is_fallback source

abbrev pub no_stats : CacheStats
no_stats = record { hits = 0; misses = 0; last_age_ms = 0 }

abbrev pub stats_of : Table CacheStats → String → CacheStats
stats_of table asset = get_or asset table no_stats

unfoldable pub update_cache_stats : String → Bool → ℕ → Table CacheStats → Table CacheStats
update_cache_stats asset is_hit age_ms table =
    let current = stats_of table asset in
    insert asset
      (if is_hit
        then record current { hits = suc current.hits; last_age_ms = age_ms }
        else record current { misses = suc current.misses })
      table

-- The constructor, with what it reads of the environment: the key and the URL, the maximal age, as
-- `parseInt` gives it, whether this is production, and the time to live, none where it is not a
-- number or negative.
unfoldable pub new_price_feed : {F : Type 0} → String → String → F → Bool → Option ℕ → PriceFeed F
new_price_feed api_key url max_age production raw_ttl = record {
  coin_gecko_api_key = api_key;
  price_cache = [];
  reflector_api_url = url;
  price_data_max_age = max_age;
  cache_duration = if production then 600_000 else 300_000;
  last_request_time = 0;
  oracle_cache_ttl_seconds = elim raw_ttl [ none ↦ 30 | some ttl ↦ ttl ];
  cache_stats = [];
  redis_connected = false;
}

module _ {F : Type 0} where
  unfoldable pub get_asset_list : Surroundings F → List String
  get_asset_list c = if ltb 0 (length c.symbols) then c.symbols else default_symbols

  unfoldable pub get_coin_id_map : Surroundings F → Table String
  get_coin_id_map c = if ltb 0 (length c.coingecko_ids) then c.coingecko_ids else default_coin_ids

  -- What is served of an entry of the cache. The clock does not go back.
  abbrev pub served_quote : ℕ → CachedQuote F → Quote F
  served_quote now cached =
      let q = cached.quote in
      record q {
        served_from_cache = some true;
        server_fetched_at_ms = some cached.cached_at_ms;
        cache_age_ms = some (now - cached.cached_at_ms);
        quote_age_seconds = none;
        data_tier = some (if from_fallback q.source then synthetic_tier else cached_primary);
      }

  abbrev pub is_live : ℕ → PriceFeed F → CachedQuote F → Bool
  is_live now feed cached = ltb (now - cached.cached_at_ms) feed.cache_duration

  -- One round of the loop over the assets.
  unfoldable pub add_cached : ℕ → PricesMap F × PriceFeed F → String → PricesMap F × PriceFeed F
  add_cached now (prices, feed) asset =
      let missed = record feed {
        cache_stats = update_cache_stats asset false 0 feed.cache_stats;
      } in
      elim (lookup asset feed.price_cache) [
        | none ↦ (prices, missed)
        | some cached ↦
            let age = now - cached.cached_at_ms in
            if is_live now feed cached
            then (
              insert asset (served_quote now cached) prices,
              record feed { cache_stats = update_cache_stats asset true age feed.cache_stats },
            )
            else (prices, missed)
      ]

  unfoldable pub get_cached_prices : ℕ → List String → PriceFeed F → PricesMap F × PriceFeed F
  get_cached_prices now assets feed = foldl (add_cached now) ([], feed) assets

  -- `now - this.lastRequestTime < this.MIN_REQUEST_INTERVAL`
  abbrev pub is_rate_limited : ℕ → PriceFeed F → Bool
  is_rate_limited now feed = ltb (now - feed.last_request_time) min_request_interval

  unfoldable pub clear_cache : PriceFeed F → PriceFeed F
  clear_cache feed = record feed { price_cache = [] }

  -- The age, the price and the source of each entry.
  unfoldable pub get_cache_status : ℕ → PriceFeed F → Table (ℕ × F × Option PriceDataSource)
  get_cache_status now feed =
      map (λ e. (e.0, (now - e.1.cached_at_ms, e.1.quote.price, e.1.quote.source))) feed.price_cache

pub record AssetAnalytics (F : Type 0) : Type 0 where
  pub asset : String
  pub cached : Bool
  pub age_ms : ℕ
  pub hit_count : ℕ
  pub miss_count : ℕ
  pub hit_ratio : F
  pub price : Option F
  pub source : Option PriceDataSource

-- A number of the options: a natural number, or any other.
pub data Setting : Type 0 where
  whole : ℕ → Setting
  not_whole : Setting

pub record TuneResult (F : Type 0) : Type 0 where
  pub success : Bool
  pub message : String
  pub config : Option (ℕ × F)

abbrev pub setting_at_least : ℕ → Setting → Option ℕ
setting_at_least low (whole k) = if ltb k low then none else some k
setting_at_least low not_whole = none

module _ {F : Type 0} ⦃n : Number F⦄ where
  unfoldable pub analytics_of : ℕ → PriceFeed F → String → AssetAnalytics F
  analytics_of now feed asset =
      let cached = lookup asset feed.price_cache in
      let stats = stats_of feed.cache_stats asset in
      let total = stats.hits + stats.misses in
      record {
        asset = asset;
        cached = elim cached [ none ↦ false | some e ↦ true ];
        age_ms = elim cached [ none ↦ 0 | some e ↦ now - e.cached_at_ms ];
        hit_count = stats.hits;
        miss_count = stats.misses;
        hit_ratio = if ltb 0 total then n.div (int stats.hits) (int total) else int 0;
        price = elim cached [ none ↦ none | some e ↦ some e.quote.price ];
        source = elim cached [ none ↦ none | some e ↦ e.quote.source ];
      }

  -- The assets of `getCacheAnalytics`.
  unfoldable pub get_cache_analytics : Surroundings F → ℕ → PriceFeed F → List (AssetAnalytics F)
  get_cache_analytics c now feed = map (analytics_of now feed) (get_asset_list c)

  abbrev refusal : String → TuneResult F
  refusal message = record { success = false; message = message; config = none }

  abbrev pub tuned : PriceFeed F → TuneResult F
  tuned feed = record {
    success = true;
    message = "Cache settings tuned successfully";
    config = some (feed.cache_duration, feed.price_data_max_age);
  }

  -- The second half of `tuneCacheSettings`.
  unfoldable pub tune_max_age : Option Setting → PriceFeed F → TuneResult F × PriceFeed F
  tune_max_age max_age feed = elim max_age [
    | none ↦ (tuned feed, feed)
    | some setting ↦ elim (setting_at_least 60 setting) [
      | none ↦ (refusal "priceDataMaxAgeSeconds must be an integer >= 60", feed)
      | some seconds ↦
          let set : PriceFeed F = record feed { price_data_max_age = int seconds } in
          (tuned set, set)
    ]
  ]

  unfoldable pub tune_cache_settings :
      Option Setting → Option Setting → PriceFeed F → TuneResult F × PriceFeed F
  tune_cache_settings duration max_age feed = elim duration [
    | none ↦ tune_max_age max_age feed
    | some setting ↦ elim (setting_at_least 1000 setting) [
      | none ↦ (refusal "cacheDurationMs must be an integer >= 1000 (1 second minimum)", feed)
      | some ms ↦ tune_max_age max_age (record feed { cache_duration = ms })
    ]
  ]
