-- ===== src/Prices/Resolve.antt =====
-- Which prices a caller gets: those of the caches, of the sources, or made up.
use stellar_portfolio_rebala.Async.{Run, ◌>>=◌, ◌>>◌, pure, catching, rescuing, failing, reading}
use stellar_portfolio_rebala.Prelude.{
  ℕ, ◌+◌, ◌-◌, String, Bool, true, false, not, ◌||◌, Option, none, some, [], ◌∷◌, map, foldl,
  filter, any, length, ltb, ◌==◌, if◌then◌else◌,
}
use stellar_portfolio_rebala.Prelude.Table.{Table, lookup, insert, has, values}
use stellar_portfolio_rebala.Number.{Number, int}
use stellar_portfolio_rebala.Prices.Types.{
  fallback, PriceDataTier, synthetic_tier, ResolutionHint, fresh_primary, cached_only,
  partial_merge, rate_limited_cache, error_recovery_cache, synthetic_fallback, CacheStatus,
  redis_hit, redis_miss, redis_unavailable, redis_bypassed, Quote, PricesMap, PriceFeedMeta,
  PriceFeed, Surroundings, Floor, Sources, PricesJson,
}
use stellar_portfolio_rebala.Prices.Cache.{
  from_fallback, get_asset_list, get_coin_id_map, is_rate_limited,
}
use stellar_portfolio_rebala.Prices.Sources.{
  given_or, in_seconds, now_seconds, now_of, cached_prices_of, get_reflector_prices,
  get_fresh_prices,
}
use stellar_portfolio_rebala.Prices.Redis.{RedisResult, read_from_redis_cache, write_to_redis_cache}

pub record Resolved (F : Type 0) : Type 0 where
  pub prices : PricesMap F
  pub hint : ResolutionHint

pub record PricesFeedPayload (F : Type 0) : Type 0 where
  pub prices : PricesMap F
  pub feed_meta : PriceFeedMeta

abbrev pub is_synthetic_tier : Option PriceDataTier → Bool
is_synthetic_tier (some synthetic_tier) = true
is_synthetic_tier _ = false

abbrev pub is_synthetic_hint : ResolutionHint → Bool
is_synthetic_hint synthetic_fallback = true
is_synthetic_hint _ = false

abbrev pub is_limited_hint : ResolutionHint → Bool
is_limited_hint error_recovery_cache = true
is_limited_hint rate_limited_cache = true
is_limited_hint _ = false

-- `redisResult?.cacheStatus === 'redis_unavailable' ? 'redis_unavailable' : 'redis_miss'`
abbrev pub missed_status : CacheStatus → CacheStatus
missed_status redis_unavailable = redis_unavailable
missed_status _ = redis_miss

abbrev pub is_hit : CacheStatus → Bool
is_hit redis_hit = true
is_hit _ = false

abbrev pub hint_of : ℕ → ℕ → ℕ → ResolutionHint
hint_of found assets cached =
    if found == assets then fresh_primary else if ltb 0 cached then partial_merge else fresh_primary

-- `{ ...first, ...second }`
unfoldable pub spread {ℓ} : {V : Type ℓ} → Table V → Table V → Table V
spread first [] = first
spread first ((key, value) ∷ second) = spread (insert key value first) second

-- The prices that are made up for the assets without a source: price and range of the change.
module _ {F : Type 0} ⦃n : Number F⦄ ⦃floor : Floor F⦄ where
  open n use {decimal, add, sub, mul}

  abbrev pub default_prices : Table (F × F)
  default_prices =
      ("XLM", (decimal 354 3, int 4))
      ∷ ("USDC", (int 1, decimal 1 1))
      ∷ ("BTC", (int 110_000, int 6))
      ∷ ("ETH", (int 4200, int 5))
      ∷ []

  abbrev pub add_variation : F → F → F
  add_variation random base_price =
      mul base_price (add (int 1) (mul (sub random (decimal 5 1)) (decimal 2 2)))

  abbrev pub fallback_quote : Surroundings F → ℕ → String → Quote F
  fallback_quote c now asset =
      let base = given_or (lookup asset default_prices) (int 1, int 2) in
      record {
        price = add_variation (c.random asset).0 base.0;
        change = mul (sub (c.random asset).1 (decimal 5 1)) base.1;
        timestamp = now_seconds now;
        source = some fallback;
        volume = none;
        served_from_cache = some false;
        server_fetched_at_ms = some now;
        cache_age_ms = none;
        quote_age_seconds = none;
        data_tier = some synthetic_tier;
      }

  unfoldable pub get_fallback_prices : Surroundings F → ℕ → PricesMap F
  get_fallback_prices c now =
      foldl (λ out asset. insert asset (fallback_quote c now asset) out) [] (get_asset_list c)

  -- The age of a quote that the server fetched and then kept.
  abbrev pub cache_age : ℕ → Quote F → Option ℕ
  cache_age now q =
      if given_or q.served_from_cache false
      then elim q.server_fetched_at_ms [ none ↦ none | some at ↦ some (now - at) ]
      else none

  abbrev pub with_ages : ℕ → Quote F → Quote F
  with_ages now q = record q {
    quote_age_seconds = some (n.max (int 0) (n.sub (now_seconds now) (in_seconds q.timestamp)));
    cache_age_ms = cache_age now q;
  }

  unfoldable pub apply_quote_ages : ℕ → PricesMap F → PricesMap F
  apply_quote_ages now = map λ e. (e.0, with_ages now e.1)

  unfoldable pub build_feed_meta :
      ℕ → PricesMap F → ResolutionHint → Option CacheStatus → PriceFeedMeta
  build_feed_meta now prices hint status = record {
    resolved_at_ms = now;
    degraded =
        is_synthetic_hint hint
        || any (λ q. is_synthetic_tier q.data_tier || from_fallback q.source) (values prices);
    stale_or_limited = is_limited_hint hint;
    resolution_hint = hint;
    assets_count = length prices;
    cache_status = status;
  }

  module _ {W : Type 0} ⦃sources : Sources F W⦄ (c : Surroundings F) where
    abbrev pub synthetic : Run (PriceFeed F × W) (Resolved F)
    synthetic = do
      now ← now_of
      pure (record { prices = get_fallback_prices c now; hint = synthetic_fallback })

    -- Where the interval between requests is not over.
    unfoldable pub rate_limited : PricesMap F → Run (PriceFeed F × W) (Resolved F)
    rate_limited cached =
        if ltb 0 (length cached)
        then pure (record { prices = cached; hint = rate_limited_cache })
        else if c.allow_fallback_prices
        then synthetic
        else failing "Price request rate-limited and ALLOW_FALLBACK_PRICES is disabled"

    -- The requests, and the three maps in one.
    unfoldable pub fetch_and_merge : PricesMap F → Run (PriceFeed F × W) (Resolved F)
    fetch_and_merge cached = do
      reflector ← catching (λ message. []) (get_reflector_prices (get_asset_list c))
      let missing = filter (λ asset. not (has asset reflector)) (get_asset_list c)
      fresh ←
          if ltb 0 (length missing) then get_fresh_prices missing (get_coin_id_map c) else pure []
      let merged = spread (spread cached reflector) fresh
      if length merged == 0
          then failing "No valid price data available from Reflector or CoinGecko"
          else pure (record {
            prices = merged;
            hint =
                hint_of (length reflector + length fresh) (length (get_asset_list c))
                  (length cached);
          })

    -- The body of `resolvePricesInternal` within its `try`.
    unfoldable pub resolve_within : Run (PriceFeed F × W) (Resolved F)
    resolve_within = do
      cached ← cached_prices_of (get_asset_list c)
      if length cached == length (get_asset_list c)
          then pure (record { prices = cached; hint = cached_only })
          else (do
            now ← now_of
            limited ← reading (is_rate_limited now)
            if limited then rate_limited cached else fetch_and_merge cached)

    -- Its `catch`.
    unfoldable pub recover : String → Run (PriceFeed F × W) (Resolved F)
    recover error = do
      cached ← cached_prices_of (get_asset_list c)
      if ltb 0 (length cached)
          then pure (record { prices = cached; hint = error_recovery_cache })
          else if c.allow_fallback_prices
          then synthetic
          else failing "Price sources unavailable and ALLOW_FALLBACK_PRICES is disabled"

    unfoldable pub resolve_prices_internal : Run (PriceFeed F × W) (Resolved F)
    resolve_prices_internal = rescuing recover resolve_within

    module _ ⦃json : PricesJson F⦄ where
      -- Where Redis has no prices.
      unfoldable pub resolve_missed : CacheStatus → Run (PriceFeed F × W) (Resolved F × CacheStatus)
      resolve_missed status = do
        resolved ← resolve_prices_internal
        if ltb 0 (length resolved.prices)
            then (do write_to_redis_cache resolved.prices; pure (resolved, missed_status status))
            else pure (resolved, missed_status status)

      -- What Redis has said.
      abbrev pub resolve_after :
          Option (RedisResult F) → Run (PriceFeed F × W) (Resolved F × CacheStatus)
      resolve_after redis = elim redis [
        | none ↦ resolve_missed redis_miss
        | some result ↦
            if is_hit result.cache_status
            then pure (record { prices = result.prices; hint = cached_only }, redis_hit)
            else resolve_missed result.cache_status
      ]

      unfoldable pub resolve_prices_with_redis_cache :
          Run (PriceFeed F × W) (Resolved F × CacheStatus)
      resolve_prices_with_redis_cache = do
        ttl ← reading (λ feed. feed.oracle_cache_ttl_seconds)
        if ttl == 0
            then (do resolved ← resolve_prices_internal; pure (resolved, redis_bypassed))
            else (do redis ← read_from_redis_cache; resolve_after redis)

      unfoldable pub get_current_prices : Run (PriceFeed F × W) (PricesMap F)
      get_current_prices = do
        resolved ← resolve_prices_with_redis_cache
        now ← now_of
        pure (apply_quote_ages now resolved.0.prices)

      abbrev pub answer : Resolved F × CacheStatus → Run (PriceFeed F × W) (PricesFeedPayload F)
      answer (resolved, status) = do
        now ← now_of
        let prices : PricesMap F = apply_quote_ages now resolved.prices
        pure (record {
          prices = prices;
          feed_meta = build_feed_meta now prices resolved.hint (some status);
        })

      unfoldable pub get_current_prices_with_meta : Run (PriceFeed F × W) (PricesFeedPayload F)
      get_current_prices_with_meta = do resolved ← resolve_prices_with_redis_cache; answer resolved
