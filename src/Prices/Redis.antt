-- ===== src/Prices/Redis.antt =====
-- The cache of prices in Redis. Its errors are never the caller's.
use stellar_portfolio_rebala.Async.{
  Run, ◌>>=◌, ◌>>◌, pure, catching, lift, reading, modifying, outside,
}
use stellar_portfolio_rebala.Prelude.{
  Bool, true, false, ◌||◌, Option, none, some, [], map, length, ltb, ◌==◌, str_eq, if◌then◌else◌,
}
use stellar_portfolio_rebala.Prices.Types.{
  CacheStatus, redis_hit, redis_miss, redis_unavailable, PricesMap, PriceFeed, Sources, PricesJson,
}
use stellar_portfolio_rebala.Prices.Cache.{oracle_cache_key}
use stellar_portfolio_rebala.Prices.Sources.{stripped}

pub record RedisResult (F : Type 0) : Type 0 where
  pub prices : PricesMap F
  pub cache_status : CacheStatus

abbrev pub no_prices : {F : Type 0} → CacheStatus → RedisResult F
no_prices status = record { prices = []; cache_status = status }

module _ {F : Type 0} where
  abbrev pub strip_all : PricesMap F → PricesMap F
  strip_all = map λ e. (e.0, stripped e.1)

  -- `typeof map === 'object' && map !== null && Object.keys(map).length > 0`
  abbrev pub parsed_result : Option (PricesMap F) → RedisResult F
  parsed_result none = no_prices redis_miss
  parsed_result (some prices) =
      if ltb 0 (length prices)
      then record { prices = prices; cache_status = redis_hit }
      else no_prices redis_miss

  module _ {W : Type 0} ⦃sources : Sources F W⦄ where
    open sources use {redis_connect, redis_get, redis_set}

    abbrev pub connected : Bool → Run (PriceFeed F × W) Bool
    connected there = modifying λ feed. (there, record feed { redis_connected = there })

    -- Whether there is a connection, once the call has tried to make one.
    unfoldable pub get_redis_cache : Run (PriceFeed F × W) Bool
    get_redis_cache = do
      there ← reading (λ feed. feed.redis_connected)
      if there then pure true else (do
        made ← catching (λ message. false) (do outside redis_connect; pure true)
        connected made)

    module _ ⦃json : PricesJson F⦄ where
      -- The work of `readFromRedisCache` within its `try`.
      abbrev pub read_redis : Run (PriceFeed F × W) (RedisResult F)
      read_redis = do
        there ← get_redis_cache
        if there
            then (do
              raw ← outside (redis_get oracle_cache_key)
              elim raw [
                | none ↦ pure (no_prices redis_miss)
                | some text ↦
                    if str_eq text ""
                    then pure (no_prices redis_miss)
                    else (do parsed ← lift (json.parse text); pure (parsed_result parsed))
              ])
            else pure (no_prices redis_unavailable)

      unfoldable pub read_from_redis_cache : Run (PriceFeed F × W) (Option (RedisResult F))
      read_from_redis_cache = do
        ttl ← reading (λ feed. feed.oracle_cache_ttl_seconds)
        if ttl == 0 then pure none else (do
          result ← catching (λ message. no_prices redis_unavailable) read_redis
          pure (some result))

      unfoldable pub write_to_redis_cache : PricesMap F → Run (PriceFeed F × W) (Unit {0})
      write_to_redis_cache prices = do
        ttl ← reading (λ feed. feed.oracle_cache_ttl_seconds)
        if (ttl == 0) || (length prices == 0)
            then pure tt
            else catching (λ message. tt)
                (do
                  there ← get_redis_cache
                  if there
                      then outside
                          (redis_set oracle_cache_key (json.stringify (strip_all prices)) ttl)
                      else pure tt)
