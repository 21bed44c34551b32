-- ===== src/Prices/Stored.antt =====
-- The prices that one call writes to Redis and another reads.
use stellar_portfolio_rebala.Prelude.{
  ℕ, ◌≡◌, refl, sym, ap, subst, ◌∙◌, ◌<◌, String, true, false, ◌||◌, some, [], ◌∷◌, any, length,
  ◌==◌, str_eq, if◌then◌else◌, arith, length-map, lt→ltb,
}
use stellar_portfolio_rebala.Prelude.Table.{values}
use stellar_portfolio_rebala.Number.{Number}
use stellar_portfolio_rebala.Async.{returned, ◌>>=◌, pure, catching, lift, outside}
use stellar_portfolio_rebala.Async.Returns.{>>=-returned, catching-returned}
use stellar_portfolio_rebala.Prices.Types.{
  redis_hit, cached_only, PricesMap, PriceFeed, Surroundings, Floor, Sources, PricesJson,
}
use stellar_portfolio_rebala.Prices.Cache.{from_fallback, oracle_cache_key}
use stellar_portfolio_rebala.Prices.Sources.{stripped}
use stellar_portfolio_rebala.Prices.Redis.{
  RedisResult, parsed_result, strip_all, get_redis_cache, read_redis, read_from_redis_cache,
  write_to_redis_cache,
}
use stellar_portfolio_rebala.Prices.Resolve.{
  PricesFeedPayload, resolve_after, answer, is_synthetic_tier, apply_quote_ages, build_feed_meta,
  resolve_prices_with_redis_cache, get_current_prices_with_meta,
}

-- Redis gives back what was set last.
pub record IsStore {F W : Type 0} (sources : Sources F W) : Type 0 where
  pub set_returns :
      (key value : String) (seconds : ℕ) (w : W)
      → (sources.redis_set key value seconds w).0 ≡ returned tt
  pub get-set :
      (key value : String) (seconds : ℕ) (w : W)
      → (sources.redis_get key (sources.redis_set key value seconds w).1).0 ≡ returned (some value)

module _ {F W : Type 0} ⦃n : Number F⦄ ⦃sources : Sources F W⦄ ⦃json : PricesJson F⦄
    (store : IsStore sources) (feed : PriceFeed F) (w : W) (prices : PricesMap F)
    (there : feed.redis_connected ≡ true) (on : (feed.oracle_cache_ttl_seconds == 0) ≡ false)
    (some_price : 0 < length prices) where
  abbrev text : String
  text = json.stringify (strip_all prices)

  abbrev written : W
  written = (sources.redis_set oracle_cache_key text feed.oracle_cache_ttl_seconds w).1

  connected_already : (v : W) → get_redis_cache (feed, v) ≡ (returned true, (feed, v))
  unfolding get_redis_cache ◌>>=◌
  connected_already v = rw there refl

  not_empty : (length prices == 0) ≡ false
  not_empty = ground arith

  write_lem : write_to_redis_cache prices (feed, w) ≡ (returned tt, (feed, written))
  unfolding write_to_redis_cache ◌>>=◌ outside
  write_lem =
      rw (on, not_empty)
        (catching-returned _ _ (feed, w) (feed, written) tt
          (>>=-returned get_redis_cache
              (λ x.
                if x
                then outside (sources.redis_set oracle_cache_key text feed.oracle_cache_ttl_seconds)
                else pure tt)
              (feed, w) (feed, w) true (connected_already w)
            ∙ ap (λ o. (o, (feed, written)))
                (store.set_returns oracle_cache_key text feed.oracle_cache_ttl_seconds w)))

  abbrev read : W
  read = (sources.redis_get oracle_cache_key written).1

  abbrev hit : RedisResult F
  hit = record { prices = strip_all prices; cache_status = redis_hit }

  module _ (parsed : json.parse text ≡ returned (some (strip_all prices)))
      (full : str_eq text "" ≡ false) where
    parsed_lem : parsed_result (some (strip_all prices)) ≡ hit
    parsed_lem =
        let filled : 0 < length (strip_all prices) =
          subst (λ k. 0 < k) (sym (length-map prices (λ e. (e.0, stripped e.1)))) some_price in
        rw (lt→ltb 0 (length (strip_all prices)) filled) refl

    read_redis_lem : read_redis (feed, written) ≡ (returned hit, (feed, read))
    unfolding outside
    read_redis_lem =
        >>=-returned get_redis_cache _ (feed, written) (feed, written) true
          (connected_already written)
        ∙ >>=-returned (outside (sources.redis_get oracle_cache_key)) _ (feed, written) (feed, read)
            (some text)
            (ap (λ o. (o, (feed, read)))
              (store.get-set oracle_cache_key text feed.oracle_cache_ttl_seconds w))
        ∙ rw full (
            >>=-returned (lift (json.parse text)) _ (feed, read) (feed, read)
              (some (strip_all prices)) (ap (λ o. (o, (feed, read))) parsed)
            ∙ ap (λ r. (returned r, (feed, read))) parsed_lem)

    read_lem : read_from_redis_cache (feed, written) ≡ (returned (some hit), (feed, read))
    unfolding read_from_redis_cache ◌>>=◌
    read_lem = rw on (
        >>=-returned (catching _ read_redis) (λ result. pure (some result)) (feed, written)
          (feed, read) hit (catching-returned _ _ (feed, written) (feed, read) hit read_redis_lem))

-- The flag of the answer depends on the source alone, once the tier is gone.
degraded_lem :
    {F : Type 0} ⦃n : Number F⦄ ⦃floor : Floor F⦄ (now : ℕ) (prices : PricesMap F)
    → any
        (λ q. is_synthetic_tier q.data_tier || from_fallback q.source)
        (values (apply_quote_ages now (strip_all prices)))
      ≡ any (λ q. from_fallback q.source) (values prices)
unfolding apply_quote_ages
degraded_lem now [] = refl
degraded_lem now ((asset, q) ∷ prices) =
    ap (λ b. from_fallback q.source || b) (degraded_lem now prices)

abbrev answer_of :
    {F : Type 0} ⦃n : Number F⦄ ⦃floor : Floor F⦄ → ℕ → PricesMap F → PricesFeedPayload F
answer_of {F = F} now prices =
    let aged : PricesMap F = apply_quote_ages now (strip_all prices) in
    record { prices = aged; feed_meta = build_feed_meta now aged cached_only (some redis_hit) }

module _ {F W : Type 0} ⦃n : Number F⦄ ⦃floor : Floor F⦄ ⦃sources : Sources F W⦄
    ⦃json : PricesJson F⦄ where
  answer_lem :
      (c : Surroundings F) (store : IsStore sources) (feed : PriceFeed F) (w : W)
      (prices : PricesMap F) (there : feed.redis_connected ≡ true)
      (on : (feed.oracle_cache_ttl_seconds == 0) ≡ false) (some_price : 0 < length prices)
      → json.parse (text store feed w prices there on some_price)
        ≡ returned (some (strip_all prices))
      → str_eq (text store feed w prices there on some_price) "" ≡ false
      → let after = read store feed w prices there on some_price in
        get_current_prices_with_meta c (feed, written store feed w prices there on some_price)
        ≡ (returned (answer_of (sources.clock after) prices), (feed, after))
  unfolding get_current_prices_with_meta resolve_prices_with_redis_cache ◌>>=◌
  answer_lem c store feed w prices there on some_price parsed full =
      let before : PriceFeed F × W = (feed, written store feed w prices there on some_price) in
      let after : PriceFeed F × W = (feed, read store feed w prices there on some_price) in
      let resolved : resolve_prices_with_redis_cache c before ≡ (
        returned (record { prices = strip_all prices; hint = cached_only }, redis_hit),
        after,
      ) =
        rw on (
          >>=-returned read_from_redis_cache (resolve_after c) before after
            (some (record { prices = strip_all prices; cache_status = redis_hit }))
            (read_lem store feed w prices there on some_price parsed full)) in
      >>=-returned (resolve_prices_with_redis_cache c) (answer c) before after _ resolved

  -- What a feed with a connection writes to Redis, another call gets back: the prices written, with
  -- five fields each and their ages new, from a hit, and flagged as degraded if and only if one of
  -- them was made up. Redis keeps what is set, and the prices survive their own JSON text, which
  -- is not empty.
  pub write_to_redis_cache-get_current_prices_with_meta :
      (c : Surroundings F) (feed : PriceFeed F) (w : W) (prices : PricesMap F)
      → IsStore sources
      → feed.redis_connected ≡ true
      → (feed.oracle_cache_ttl_seconds == 0) ≡ false
      → 0 < length prices
      → json.parse (json.stringify (strip_all prices)) ≡ returned (some (strip_all prices))
      → str_eq (json.stringify (strip_all prices)) "" ≡ false
      → let written = (write_to_redis_cache prices (feed, w)).1 in
        let after = get_current_prices_with_meta c written in
        (payload : PricesFeedPayload F) × ((after.0 ≡ returned payload)
          × ((payload.prices ≡ apply_quote_ages (sources.clock after.1.1) (strip_all prices))
              × ((payload.feed_meta.cache_status ≡ some redis_hit)
                  × (payload.feed_meta.degraded
                      ≡ any (λ q. from_fallback q.source) (values prices)))))
  unfolding build_feed_meta
  write_to_redis_cache-get_current_prices_with_meta c feed w prices store there on some_price parsed
        full =
      let run =
        ap (λ r. get_current_prices_with_meta c r.1)
          (write_lem store feed w prices there on some_price)
        ∙ answer_lem c store feed w prices there on some_price parsed full in
      rw run (
        answer_of (sources.clock (read store feed w prices there on some_price)) prices,
        (refl, (refl, (refl, degraded_lem _ prices))),
      )
