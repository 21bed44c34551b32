-- ===== src/Prices/Answers.antt =====
-- The answer of a call where the feature flag allows made-up prices, with the cache in Redis.
use stellar_portfolio_rebala.Prelude.{
  ◌≡◌, refl, sym, subst, inl, inr, ◌<◌, true, false, Option, none, some, ◌||◌, length, ltb, ◌==◌,
  str_eq, length-map, ltb→lt, Bool-cases,
}
use stellar_portfolio_rebala.Number.{Number}
use stellar_portfolio_rebala.Async.{returned}
use stellar_portfolio_rebala.Async.Returns.{Returns, Any, Any-Returns, pure-Returns, bind-Returns}
use stellar_portfolio_rebala.Async.Always.{
  Always, pure-Always, bind-Always, catching-Always, if-Always, option-Always, cond-Returns,
  option-Returns,
}
use stellar_portfolio_rebala.Prices.Types.{
  redis_hit, redis_miss, redis_unavailable, redis_bypassed, cached_only, CacheStatus, PricesMap,
  PriceFeed, Surroundings, Floor, Sources, PricesJson,
}
use stellar_portfolio_rebala.Prices.Cache.{}
use stellar_portfolio_rebala.Prices.Redis.{
  RedisResult, no_prices, parsed_result, get_redis_cache, read_redis, read_from_redis_cache,
  write_to_redis_cache,
}
use stellar_portfolio_rebala.Prices.Resolve.{
  Resolved, PricesFeedPayload, is_hit, missed_status, resolve_missed,
  resolve_prices_with_redis_cache, apply_quote_ages, build_feed_meta, get_current_prices_with_meta,
}
use stellar_portfolio_rebala.Prices.Availability.{
  true_not_false, HasPrices, reading-Always, now_of-Always, resolve_prices_internal-Always,
}

module _ {F : Type 0} where
  -- A hit has prices.
  abbrev IsFilled : RedisResult F → Type 0
  IsFilled result = is_hit result.cache_status ≡ true → 0 < length result.prices

  parsed_result-IsFilled : (parsed : Option (PricesMap F)) → IsFilled (parsed_result parsed)
  parsed_result-IsFilled none = λ h. cc
  parsed_result-IsFilled (some prices) = elim (Bool-cases (ltb 0 (length prices))) [
    | inl e ↦ rw e (λ h. ltb→lt 0 _ e)
    | inr e ↦ rw e (λ h. absurd (true_not_false (sym h)))
  ]

  abbrev IsFilledIfSome : Option (RedisResult F) → Type 0
  IsFilledIfSome none = Unit
  IsFilledIfSome (some result) = IsFilled result

  abbrev HasPricesFirst : Resolved F × CacheStatus → Type 0
  HasPricesFirst r = HasPrices r.0

  abbrev IsAnswer : PricesFeedPayload F → Type 0
  IsAnswer payload =
      (0 < length payload.prices) × (payload.feed_meta.assets_count ≡ length payload.prices)

module _ {F W : Type 0} ⦃n : Number F⦄ ⦃sources : Sources F W⦄ where
  get_redis_cache-Always : Always Any (get_redis_cache {F = F} {W = W})
  unfolding get_redis_cache
  get_redis_cache-Always = bind-Always Any Any _ _ (reading-Always _) λ there _.
      if-Always Any there _ _ (λ e. pure-Always Any true tt)
        (λ e.
          bind-Always Any Any _ _
            (catching-Always Any (λ message. false) _ (λ message. tt) (Any-Returns _))
            λ made _. record { result = λ h. (made, (refl, tt)) })

  module _ ⦃json : PricesJson F⦄ where
    write_to_redis_cache-Always :
        (prices : PricesMap F) → Always Any (write_to_redis_cache {W = W} prices)
    unfolding write_to_redis_cache
    write_to_redis_cache-Always prices = bind-Always Any Any _ _ (reading-Always _) λ ttl _.
        if-Always Any ((ttl == 0) || (length prices == 0)) _ _ (λ e. pure-Always Any tt tt)
          (λ e. catching-Always Any (λ message. tt) _ (λ message. tt) (Any-Returns _))

    read_redis-Returns : Returns IsFilled (read_redis {F = F} {W = W})
    read_redis-Returns = bind-Returns IsFilled Any _ _ (Any-Returns _) λ there _.
        cond-Returns IsFilled there _ _
          (λ e. bind-Returns IsFilled Any _ _ (Any-Returns _) λ raw _.
            option-Returns IsFilled raw _ _ (pure-Returns IsFilled (no_prices redis_miss) (λ h. cc))
              λ text.
                cond-Returns IsFilled (str_eq text "") _ _
                  (λ e. pure-Returns IsFilled (no_prices redis_miss) (λ h. cc))
                  (λ e. bind-Returns IsFilled Any _ _ (Any-Returns _) λ parsed _.
                    pure-Returns IsFilled (parsed_result parsed) (parsed_result-IsFilled parsed)))
          (λ e. pure-Returns IsFilled (no_prices redis_unavailable) (λ h. cc))

    read_from_redis_cache-Always : Always IsFilledIfSome (read_from_redis_cache {F = F} {W = W})
    unfolding read_from_redis_cache
    read_from_redis_cache-Always = bind-Always IsFilledIfSome Any _ _ (reading-Always _) λ ttl _.
        if-Always IsFilledIfSome (ttl == 0) _ _ (λ e. pure-Always IsFilledIfSome none tt)
          (λ e.
            bind-Always IsFilledIfSome IsFilled _ _
              (catching-Always IsFilled (λ message. no_prices redis_unavailable) read_redis
                (λ message h. cc) read_redis-Returns)
              λ result filled. pure-Always IsFilledIfSome (some result) filled)

module _ {F W : Type 0} ⦃n : Number F⦄ ⦃floor : Floor F⦄ ⦃sources : Sources F W⦄
    ⦃json : PricesJson F⦄ (c : Surroundings F) (allowed : c.allow_fallback_prices ≡ true) where
  resolve_missed-Always :
      (status : CacheStatus) → Always HasPricesFirst (resolve_missed {W = W} c status)
  unfolding resolve_missed
  resolve_missed-Always status =
      bind-Always HasPricesFirst HasPrices _ _ (resolve_prices_internal-Always c allowed)
        λ r filled.
          if-Always HasPricesFirst (ltb 0 (length r.prices)) _ _
            (λ e.
              bind-Always HasPricesFirst Any _ _ (write_to_redis_cache-Always r.prices)
                λ _ _. pure-Always HasPricesFirst (r, missed_status status) filled)
            (λ e. pure-Always HasPricesFirst (r, missed_status status) filled)

  resolve_prices_with_redis_cache-Always :
      Always HasPricesFirst (resolve_prices_with_redis_cache {W = W} c)
  unfolding resolve_prices_with_redis_cache
  resolve_prices_with_redis_cache-Always =
      bind-Always HasPricesFirst Any _ _ (reading-Always _) λ ttl _.
        if-Always HasPricesFirst (ttl == 0) _ _
          (λ e.
            bind-Always HasPricesFirst HasPrices _ _ (resolve_prices_internal-Always c allowed)
              λ r filled. pure-Always HasPricesFirst (r, redis_bypassed) filled)
          (λ e.
            bind-Always HasPricesFirst IsFilledIfSome _ _ read_from_redis_cache-Always
              λ redis filled.
                option-Always HasPricesFirst redis _ _ (λ e. resolve_missed-Always redis_miss)
                  λ result e.
                    if-Always HasPricesFirst (is_hit result.cache_status) _ _
                      (λ hit.
                        pure-Always HasPricesFirst
                          (record { prices = result.prices; hint = cached_only }, redis_hit)
                          (subst IsFilledIfSome e filled hit))
                      (λ miss. resolve_missed-Always result.cache_status))

  feed-Always : Always IsAnswer (get_current_prices_with_meta {W = W} c)
  unfolding get_current_prices_with_meta build_feed_meta apply_quote_ages
  feed-Always =
      bind-Always IsAnswer HasPricesFirst _ _ resolve_prices_with_redis_cache-Always λ r filled.
        bind-Always IsAnswer Any _ _ now_of-Always λ now _.
          pure-Always IsAnswer _ (subst (λ k. 0 < k) (sym (length-map r.0.prices _)) filled, refl)

-- With fallback prices enabled a call returns prices, at least one of them, whatever the services
-- answer and whichever of their requests fail, and the answer says how many there are.
pub get_current_prices_with_meta_answers :
    {F W : Type 0} ⦃n : Number F⦄ ⦃floor : Floor F⦄ ⦃sources : Sources F W⦄ ⦃json : PricesJson F⦄
    (c : Surroundings F) (feed : PriceFeed F) (w : W)
    → c.allow_fallback_prices ≡ true
    → (payload : PricesFeedPayload F) × (((get_current_prices_with_meta c (feed, w)).0
          ≡ returned payload)
        × ((0 < length payload.prices) × (payload.feed_meta.assets_count ≡ length payload.prices)))
get_current_prices_with_meta_answers c feed w allowed = (feed-Always c allowed).result (feed, w)
