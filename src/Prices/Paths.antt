-- ===== src/Prices/Paths.antt =====
-- Invariants of a price feed, along the paths of the methods: what holds of the quotes of the sources
-- and the cache holds of all prices.
use stellar_portfolio_rebala.Prelude.{
  ℕ, ◌≡◌, ◌⊎◌, inl, inr, String, Bool, true, false, [], ◌∷◌, if◌then◌else◌,
}
use stellar_portfolio_rebala.Prelude.Table.{insert, All-insert}
use stellar_portfolio_rebala.Number.{Number}
use stellar_portfolio_rebala.Async.{failing, outside}
use stellar_portfolio_rebala.Async.Returns.{Any}
use stellar_portfolio_rebala.Async.Keeps.{
  Keeps, pure-Keeps, bind-Keeps, catching-Keeps, rescuing-Keeps, failing-Keeps, if-Keeps,
  lift-Keeps, option-Keeps,
}
use stellar_portfolio_rebala.Prices.Types.{
  Quote, PricesMap, PriceFeed, Surroundings, Floor, Sources,
}
use stellar_portfolio_rebala.Prices.Cache.{get_asset_list, get_coin_id_map}
use stellar_portfolio_rebala.Prices.Sources.{}
use stellar_portfolio_rebala.Prices.Resolve.{
  spread, synthetic, rate_limited, fetch_and_merge, resolve_within, recover,
  resolve_prices_internal,
}
use stellar_portfolio_rebala.Prices.Walk.{
  IsFeedInvariant, AllGood, now_of-Keeps, reading-Keeps, get_reflector_prices-Keeps,
  get_fresh_prices-Keeps,
}
use stellar_portfolio_rebala.Prices.Types.{CacheStatus, PricesJson}
use stellar_portfolio_rebala.Prices.Cache.{oracle_cache_key}
use stellar_portfolio_rebala.Prices.Redis.{
  connected, get_redis_cache, read_redis, read_from_redis_cache, write_to_redis_cache,
}
use stellar_portfolio_rebala.Prices.Resolve.{
  resolve_missed, resolve_prices_with_redis_cache, get_current_prices_with_meta,
}

module _ {F W : Type 0} ⦃n : Number F⦄ ⦃floor : Floor F⦄ ⦃sources : Sources F W⦄
    (I : PriceFeed F × W → Type 0) (G : Quote F → Type 0) (inv : IsFeedInvariant I G) where
  spread-All :
      (first second : PricesMap F)
      → AllGood G first
      → AllGood G second
      → AllGood G (spread first second)
  unfolding spread
  spread-All first [] good more = good
  spread-All first ((key, value) ∷ second) good (more, rest) =
      spread-All (insert key value first) second (All-insert G key value first more good) rest

  -- `synthetic` is reached only with the flag, and not where `allowed` says that it is off.
  module _ (c : Surroundings F)
      (made_up : Keeps I (λ r. AllGood G r.prices) (synthetic c)
        ⊎ (c.allow_fallback_prices ≡ false)) where
    synthetic_or-Keeps :
        (message : String)
        → Keeps I
            (λ r. AllGood G r.prices)
            (if c.allow_fallback_prices then synthetic c else failing message)
    synthetic_or-Keeps message = elim made_up [
      | inl good ↦ if-Keeps I _ _ _ _ good (failing-Keeps I _ message)
      | inr off ↦ rw off (failing-Keeps I _ message)
    ]

    rate_limited-Keeps :
        (cached : PricesMap F)
        → AllGood G cached
        → Keeps I (λ r. AllGood G r.prices) (rate_limited c cached)
    unfolding rate_limited
    rate_limited-Keeps cached good =
        if-Keeps I _ _ _ _ (pure-Keeps I _ _ good) (synthetic_or-Keeps _)

    fetch_and_merge-Keeps :
        (cached : PricesMap F)
        → AllGood G cached
        → Keeps I (λ r. AllGood G r.prices) (fetch_and_merge c cached)
    unfolding fetch_and_merge
    fetch_and_merge-Keeps cached good =
        bind-Keeps I _ (AllGood G) _ _
          (catching-Keeps I (AllGood G) _ _ (λ message. tt)
            (get_reflector_prices-Keeps I G inv (get_asset_list c)))
          λ reflector r.
            bind-Keeps I _ (AllGood G) _ _
              (if-Keeps I (AllGood G) _ _ _ (get_fresh_prices-Keeps I G inv _ (get_coin_id_map c))
                (pure-Keeps I (AllGood G) [] tt))
              λ fresh f. if-Keeps I _ _ _ _ (failing-Keeps I _ _) (
                pure-Keeps I _ _ (
                  spread-All (spread cached reflector) fresh (spread-All cached reflector good r)
                    f))

    resolve_within-Keeps : Keeps I (λ r. AllGood G r.prices) (resolve_within c)
    unfolding resolve_within
    resolve_within-Keeps =
        bind-Keeps I _ (AllGood G) _ _ (inv.cached (get_asset_list c)) λ cached good.
          if-Keeps I _ _ _ _ (pure-Keeps I _ _ good) (
            bind-Keeps I _ Any _ _ (now_of-Keeps I G inv) λ now _.
              bind-Keeps I _ Any _ _ (reading-Keeps I G inv _) λ limited _.
                if-Keeps I _ _ _ _ (rate_limited-Keeps cached good)
                  (fetch_and_merge-Keeps cached good))

    recover-Keeps : (error : String) → Keeps I (λ r. AllGood G r.prices) (recover c error)
    unfolding recover
    recover-Keeps error =
        bind-Keeps I _ (AllGood G) _ _ (inv.cached (get_asset_list c))
          λ cached good. if-Keeps I _ _ _ _ (pure-Keeps I _ _ good) (synthetic_or-Keeps _)

    pub resolve_prices_internal-Keeps :
        Keeps I (λ r. AllGood G r.prices) (resolve_prices_internal c)
    unfolding resolve_prices_internal
    resolve_prices_internal-Keeps =
        rescuing-Keeps I _ (recover c) (resolve_within c) recover-Keeps resolve_within-Keeps

  -- The steps of Redis keep I.
  pub record IsRedisInvariant : Type 0 where
    pub connect : Keeps I Any (outside {S = PriceFeed F} sources.redis_connect)
    pub flagged : (there : Bool) → Keeps I Any (connected there)
    pub got : (key : String) → Keeps I Any (outside {S = PriceFeed F} (sources.redis_get key))
    pub was_set :
        (key value : String) (seconds : ℕ)
        → Keeps I Any (outside {S = PriceFeed F} (sources.redis_set key value seconds))

  module _ (redis : IsRedisInvariant) ⦃json : PricesJson F⦄ where
    get_redis_cache-Keeps : Keeps I Any get_redis_cache
    unfolding get_redis_cache
    get_redis_cache-Keeps = bind-Keeps I _ Any _ _ (reading-Keeps I G inv _) λ there _.
        if-Keeps I Any _ _ _ (pure-Keeps I Any true tt) (
          bind-Keeps I _ Any _ _
            (catching-Keeps I Any _ _ (λ message. tt)
              (bind-Keeps I _ Any _ _ redis.connect λ _ _. pure-Keeps I Any true tt))
            λ made _. redis.flagged made)

    read_redis-Keeps : Keeps I Any read_redis
    read_redis-Keeps = bind-Keeps I _ Any _ _ get_redis_cache-Keeps λ there _.
        if-Keeps I Any _ _ _
          (bind-Keeps I _ Any _ _ (redis.got oracle_cache_key) λ raw _.
            option-Keeps I Any raw _ _ (pure-Keeps I Any _ tt) λ text.
              if-Keeps I Any _ _ _ (pure-Keeps I Any _ tt)
                (bind-Keeps I _ Any _ _ (lift-Keeps I _) λ parsed _. pure-Keeps I Any _ tt))
          (pure-Keeps I Any _ tt)

    read_from_redis_cache-Keeps : Keeps I Any read_from_redis_cache
    unfolding read_from_redis_cache
    read_from_redis_cache-Keeps = bind-Keeps I _ Any _ _ (reading-Keeps I G inv _) λ ttl _.
        if-Keeps I Any _ _ _ (pure-Keeps I Any _ tt) (
          bind-Keeps I _ Any _ _ (catching-Keeps I Any _ _ (λ message. tt) read_redis-Keeps)
            λ result _. pure-Keeps I Any _ tt)

    write_to_redis_cache-Keeps : (prices : PricesMap F) → Keeps I Any (write_to_redis_cache prices)
    unfolding write_to_redis_cache
    write_to_redis_cache-Keeps prices = bind-Keeps I _ Any _ _ (reading-Keeps I G inv _) λ ttl _.
        if-Keeps I Any _ _ _ (pure-Keeps I Any tt tt) (
          catching-Keeps I Any _ _ (λ message. tt)
            (bind-Keeps I _ Any _ _ get_redis_cache-Keeps
              λ there _. if-Keeps I Any _ _ _ (redis.was_set _ _ ttl) (pure-Keeps I Any tt tt)))

    module _ (c : Surroundings F)
        (made_up : Keeps I (λ r. AllGood G r.prices) (synthetic c)
          ⊎ (c.allow_fallback_prices ≡ false)) where
      resolve_missed-Keeps : (status : CacheStatus) → Keeps I Any (resolve_missed c status)
      unfolding resolve_missed
      resolve_missed-Keeps status =
          bind-Keeps I _ _ _ _ (resolve_prices_internal-Keeps c made_up) λ resolved _.
            if-Keeps I Any _ _ _
              (bind-Keeps I _ Any _ _ (write_to_redis_cache-Keeps resolved.prices)
                λ _ _. pure-Keeps I Any _ tt)
              (pure-Keeps I Any _ tt)

      resolve_prices_with_redis_cache-Keeps : Keeps I Any (resolve_prices_with_redis_cache c)
      unfolding resolve_prices_with_redis_cache
      resolve_prices_with_redis_cache-Keeps =
          bind-Keeps I _ Any _ _ (reading-Keeps I G inv _) λ ttl _.
            if-Keeps I Any _ _ _
              (bind-Keeps I _ _ _ _ (resolve_prices_internal-Keeps c made_up)
                λ resolved _. pure-Keeps I Any _ tt)
              (bind-Keeps I _ Any _ _ read_from_redis_cache-Keeps λ redis _.
                option-Keeps I Any redis _ _ (resolve_missed-Keeps _)
                  λ result. if-Keeps I Any _ _ _ (pure-Keeps I Any _ tt) (resolve_missed-Keeps _))

      pub get_current_prices_with_meta-Keeps : Keeps I Any (get_current_prices_with_meta c)
      unfolding get_current_prices_with_meta
      get_current_prices_with_meta-Keeps =
          bind-Keeps I _ Any _ _ resolve_prices_with_redis_cache-Keeps λ resolved _.
            bind-Keeps I _ Any _ _ (now_of-Keeps I G inv) λ now _. pure-Keeps I Any _ tt
