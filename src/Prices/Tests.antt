-- ===== src/Prices/Tests.antt =====
-- Runs of the price feed against small services, and its theorems at concrete inputs.
use stellar_portfolio_rebala.Prelude.{
  join, ℕ, suc, ◌≡◌, refl, ◌⊎◌, ◌↔◌, ◌≤◌, ◌<◌, String, Bool, true, false, ◌&&◌, min, if◌then◌else◌,
  Option, none, some, [], ◌∷◌, any, All, length, arith, template,
}
use stellar_portfolio_rebala.Prelude.Sort.{includes}
use stellar_portfolio_rebala.Prelude.Table.{lookup, insert, values}
use stellar_portfolio_rebala.Number.{int}
use stellar_portfolio_rebala.Number.Fixed.{Fixed, fixed_number}
use stellar_portfolio_rebala.Async.{returned, thrown, ◌>>=◌, catching, rescuing, outside}
use stellar_portfolio_rebala.Prices.Types.{
  coingecko_free, fallback, redis_hit, Quote, PriceFeed, Surroundings, Floor, Sources, PricesJson,
}
use stellar_portfolio_rebala.Prices.Cache.{
  from_fallback, get_cached_prices, add_cached, update_cache_stats, get_asset_list, get_coin_id_map,
  whole, tune_cache_settings, tune_max_age,
}
use stellar_portfolio_rebala.Prices.Sources.{
  get_reflector_prices, add_fresh_price, add_fresh_prices, add_reflector_price,
  add_reflector_prices, coin_ids_of, get_fresh_prices, is_price_stale, normalize_reflector_price,
  read_coin_gecko, read_reflector_rows, request_fresh_prices,
}
use stellar_portfolio_rebala.Prices.Redis.{
  strip_all, get_redis_cache, read_from_redis_cache, write_to_redis_cache,
}
use stellar_portfolio_rebala.Prices.Resolve.{
  Resolved, PricesFeedPayload, apply_quote_ages, resolve_prices_internal,
  resolve_prices_with_redis_cache, resolve_missed, resolve_within, fetch_and_merge, build_feed_meta,
  get_fallback_prices, rate_limited, recover, spread, get_current_prices_with_meta,
}
use stellar_portfolio_rebala.Prices.Lookups.{IsServed, get_cached_prices-IsServed}
use stellar_portfolio_rebala.Prices.Walk.{IsGenuine}
use stellar_portfolio_rebala.Prices.Genuine.{IsUnforged, resolve_prices_internal-IsGenuine}
use stellar_portfolio_rebala.Prices.Interval.{IsKeptByOthers, get_current_prices_with_meta_interval}
use stellar_portfolio_rebala.Prices.Answers.{get_current_prices_with_meta_answers}
use stellar_portfolio_rebala.Prices.Stored.{
  IsStore, write_to_redis_cache-get_current_prices_with_meta,
}
use stellar_portfolio_rebala.Prices.Tuning.{is_valid, tune_cache_settings_settings}

instance abbrev test_floor : Floor Fixed
test_floor = record { floor_of = λ x. x }

-- The clock, the number of requests to CoinGecko, and the text in Redis.
record World : Type 0 where
  pub time : ℕ
  pub requests : ℕ
  pub stored : Option String

-- CoinGecko has a price of XLM, the Reflector does not answer, and Redis keeps one text.
instance abbrev services : Sources Fixed World
services = record {
  clock = λ w. w.time;
  reflector_request = λ url assets w. (thrown "no route", w);
  coin_gecko_request = λ ids w. (
    returned (record {
      ok = true;
      status = 200;
      json = returned (
          (
            "stellar",
            record {
              usd = some (int 2);
              usd_24h_change = none;
              last_updated_at = none;
              usd_24h_vol = none;
            },
          )
          ∷ []);
      text = returned "";
    }),
    record w { requests = suc w.requests },
  );
  set_asset_freshness = λ asset at w. (thrown "locked", w);
  redis_connect = λ w. (returned tt, w);
  redis_get = λ key w. (returned w.stored, w);
  redis_set = λ key value seconds w. (returned tt, record w { stored = some value });
}

abbrev quote : Quote Fixed
quote = record {
  price = int 2;
  change = int 0;
  timestamp = int 100;
  source = some fallback;
  volume = none;
  served_from_cache = none;
  server_fetched_at_ms = none;
  cache_age_ms = none;
  quote_age_seconds = none;
  data_tier = none;
}

instance abbrev test_json : PricesJson Fixed
test_json = record {
  parse = λ text. returned (some (("XLM", quote) ∷ []));
  stringify = λ prices. "prices";
}

abbrev market_quote : Quote Fixed
market_quote = record quote { source = some coingecko_free }

abbrev feed : PriceFeed Fixed
feed = record {
  coin_gecko_api_key = "";
  price_cache = ("XLM", record { quote = market_quote; cached_at_ms = 1000 }) ∷ [];
  reflector_api_url = "";
  price_data_max_age = int 600;
  cache_duration = 300_000;
  last_request_time = 0;
  oracle_cache_ttl_seconds = 30;
  cache_stats = [];
  redis_connected = true;
}

abbrev world : World
world = record { time = 100_000; requests = 0; stored = none }

abbrev surroundings : Bool → Surroundings Fixed
surroundings allowed = record {
  symbols = "XLM" ∷ [];
  coingecko_ids = ("XLM", "stellar") ∷ [];
  allow_fallback_prices = allowed;
  random = λ asset. (int 0, int 0);
}

get_cached_prices-IsServed_example :
    (lookup "XLM" (get_cached_prices 100_000 ("XLM" ∷ "BTC" ∷ []) feed).0 ≡ some market_quote)
    ↔ ((includes "XLM" ("XLM" ∷ "BTC" ∷ []) ≡ true) × IsServed 100_000 feed "XLM" market_quote)
get_cached_prices-IsServed_example =
    get_cached_prices-IsServed 100_000 ("XLM" ∷ "BTC" ∷ []) feed "XLM" market_quote

resolve_prices_internal-IsGenuine_example :
    IsUnforged (resolve_prices_internal (surroundings false) (feed, world)).1.0
    × ((r : Resolved Fixed)
        → (resolve_prices_internal (surroundings false) (feed, world)).0 ≡ returned r
        → All (λ e. IsGenuine e.1) r.prices)
resolve_prices_internal-IsGenuine_example =
    resolve_prices_internal-IsGenuine (surroundings false) feed world refl (refl, tt)

abbrev NotAsked : World → Type 0
NotAsked w = w.requests ≡ 0

others_keep-NotAsked : IsKeptByOthers services NotAsked
others_keep-NotAsked = record {
  reflector = λ url assets w h. h;
  freshness = λ asset at w h. h;
  connect = λ w h. h;
  got = λ key w h. h;
  was_set = λ key value seconds w h. h;
}

-- The cache is empty, so that CoinGecko is asked.
abbrev empty_feed : PriceFeed Fixed
empty_feed = record feed { price_cache = [] }

get_current_prices_with_meta_interval_example :
    let after = (get_current_prices_with_meta (surroundings true) (empty_feed, world)).1 in
    ((after.0.last_request_time ≡ 0) × NotAsked after.1) ⊎ (90_000 ≤ after.0.last_request_time)
get_current_prices_with_meta_interval_example =
    get_current_prices_with_meta_interval NotAsked (surroundings true) empty_feed world
      others_keep-NotAsked refl

get_current_prices_with_meta_answers_example :
    (payload : PricesFeedPayload Fixed) × (((get_current_prices_with_meta
          (surroundings true)
          (empty_feed, world)).0
        ≡ returned payload)
      × ((0 < length payload.prices) × (payload.feed_meta.assets_count ≡ length payload.prices)))
get_current_prices_with_meta_answers_example =
    get_current_prices_with_meta_answers (surroundings true) empty_feed world refl

services-IsStore : IsStore services
services-IsStore = record {
  set_returns = λ key value seconds w. refl;
  get-set = λ key value seconds w. refl;
}

write_to_redis_cache-get_current_prices_with_meta_example :
    let written = (write_to_redis_cache (("XLM", quote) ∷ []) (feed, world)).1 in
    let after = get_current_prices_with_meta (surroundings false) written in
    (payload : PricesFeedPayload Fixed) × ((after.0 ≡ returned payload)
      × ((payload.prices
            ≡ apply_quote_ages (services.clock after.1.1) (strip_all (("XLM", quote) ∷ [])))
          × ((payload.feed_meta.cache_status ≡ some redis_hit)
              × (payload.feed_meta.degraded
                  ≡ any (λ q. from_fallback q.source) (values (("XLM", quote) ∷ []))))))
write_to_redis_cache-get_current_prices_with_meta_example =
    write_to_redis_cache-get_current_prices_with_meta (surroundings false) feed world
      (("XLM", quote) ∷ []) services-IsStore refl refl (omega arith) refl refl

tune_cache_settings_settings_example :
    let (r, after) = tune_cache_settings (some (whole 5000)) (some (whole 10)) feed in
    let valid = is_valid 1000 (some (whole 5000)) && is_valid 60 (some (whole 10)) in
    (r.success ≡ valid)
    × (r.config ≡ (if valid then some (after.cache_duration, after.price_data_max_age) else none))
    × (after ≡ record feed {
      cache_duration = 5000;
      price_data_max_age = if valid then int 10 else feed.price_data_max_age;
    })
    × (min 1000 feed.cache_duration ≤ after.cache_duration)
tune_cache_settings_settings_example =
    tune_cache_settings_settings (some (whole 5000)) (some (whole 10)) feed

-- A refused call that has changed the duration.
tune_refused :
    let (r, after) = tune_cache_settings (some (whole 5000)) (some (whole 10)) feed in
    (r.success ≡ false) × (after.cache_duration ≡ 5000)
unfolding tune_cache_settings tune_max_age
tune_refused = (refl, refl)

-- With an empty cache CoinGecko is asked once, its price is served, and Redis has it afterwards.
feed_run :
    let (outcome, after) = get_current_prices_with_meta (surroundings true) (empty_feed, world) in
    (after.1.requests ≡ 1)
    × ((after.0.last_request_time ≡ 100_000) × (after.1.stored ≡ some "prices"))
unfolding get_current_prices_with_meta ◌>>=◌ resolve_prices_with_redis_cache read_from_redis_cache
    catching get_redis_cache outside resolve_missed resolve_prices_internal rescuing resolve_within
    get_cached_prices get_asset_list add_cached lookup fetch_and_merge get_reflector_prices insert
    template get_coin_id_map update_cache_stats write_to_redis_cache apply_quote_ages
    build_feed_meta get_fallback_prices rate_limited recover spread add_fresh_price add_fresh_prices
    add_reflector_price add_reflector_prices coin_ids_of get_fresh_prices is_price_stale join
    normalize_reflector_price read_coin_gecko read_reflector_rows request_fresh_prices
feed_run = (refl, (refl, refl))
