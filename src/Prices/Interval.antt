-- ===== src/Prices/Interval.antt =====
-- The interval between the requests to CoinGecko.
use stellar_portfolio_rebala.Prelude.{
  ltb, ℕ, ◌+◌, ◌-◌, ◌≡◌, refl, sym, subst, ◌⊎◌, inl, inr, ◌≤◌, String, false, List, [], ◌∷◌, All,
  arith, ltb_false→le,
}
use stellar_portfolio_rebala.Number.{Number}
use stellar_portfolio_rebala.Async.{◌>>=◌, outside}
use stellar_portfolio_rebala.Async.Returns.{Any}
use stellar_portfolio_rebala.Async.Keeps.{Keeps}
use stellar_portfolio_rebala.Prices.Types.{PriceFeed, Surroundings, Floor, Sources, PricesJson}
use stellar_portfolio_rebala.Prices.Cache.{get_cached_prices, min_request_interval}
use stellar_portfolio_rebala.Prices.Resolve.{get_current_prices_with_meta, synthetic}
use stellar_portfolio_rebala.Prices.Lookups.{get_cached_prices-feed}
use stellar_portfolio_rebala.Prices.Walk.{AllGood, IsFeedInvariant}
use stellar_portfolio_rebala.Prices.Paths.{IsRedisInvariant, get_current_prices_with_meta-Keeps}

All-Any : {A : Type 0} (xs : List A) → All (λ e. Any e) xs
All-Any [] = tt
All-Any (x ∷ xs) = (tt, All-Any xs)

module _ {W : Type 0} (Q : W → Type 0) (last : ℕ) where
  -- No request since `last`, or one after the interval.
  abbrev SpacedAt : ℕ → W → Type 0
  SpacedAt time w = ((time ≡ last) × Q w) ⊎ (last + min_request_interval ≤ time)

  spaced_step : (w w' : W) (time : ℕ) → (Q w → Q w') → SpacedAt time w → SpacedAt time w'
  spaced_step w w' time q (inl (at, world)) = inl (at, q world)
  spaced_step w w' time q (inr later) = inr later

  -- A request is made where the interval since the one before it is over.
  spaced_request :
      (time now : ℕ) (w : W)
      → SpacedAt time w
      → ltb (now - time) min_request_interval ≡ false
      → last + min_request_interval ≤ now
  spaced_request time now w (inl (at, world)) over =
      let bound = ltb_false→le _ _ over in omega arith
  spaced_request time now w (inr later) over = let bound = ltb_false→le _ _ over in omega arith

module _ {F W : Type 0} where
  -- A property of the world that every call of a service keeps but the request to CoinGecko.
  pub record IsKeptByOthers (sources : Sources F W) (Q : W → Type 0) : Type 0 where
    pub reflector :
        (url assets : String) (w : W) → Q w → Q (sources.reflector_request url assets w).1
    pub freshness :
        (asset : String) (at : ℕ) (w : W) → Q w → Q (sources.set_asset_freshness asset at w).1
    pub connect : (w : W) → Q w → Q (sources.redis_connect w).1
    pub got : (key : String) (w : W) → Q w → Q (sources.redis_get key w).1
    pub was_set :
        (key value : String) (seconds : ℕ) (w : W)
        → Q w
        → Q (sources.redis_set key value seconds w).1

  abbrev Spaced : (Q : W → Type 0) → ℕ → PriceFeed F × W → Type 0
  Spaced Q last h = SpacedAt Q last h.0.last_request_time h.1

  module _ ⦃n : Number F⦄ ⦃floor : Floor F⦄ ⦃sources : Sources F W⦄ (Q : W → Type 0)
      (others : IsKeptByOthers sources Q) (last : ℕ) where
    spaced_invariant : IsFeedInvariant (Spaced Q last) Any
    unfolding outside ◌>>=◌ get_cached_prices
    spaced_invariant = record {
      cached = λ assets. record {
        kept = λ h.
            subst (λ (f : PriceFeed F). SpacedAt Q last f.last_request_time h.1)
              (sym (get_cached_prices-feed (sources.clock h.1) assets ([], h.0)));
        given = λ h i a e. All-Any a;
      };
      reflector = λ url assets. record {
        kept =
            λ h. spaced_step Q last h.1 _ h.0.last_request_time (others.reflector url assets h.1);
        given = λ h i a e. tt;
      };
      freshness = λ asset at. record {
        kept = λ h. spaced_step Q last h.1 _ h.0.last_request_time (others.freshness asset at h.1);
        given = λ h i a e. tt;
      };
      remembered = λ asset q genuine. record { kept = λ h i. i; given = λ h i a e. tt };
      asked = λ ids h i over.
          inr (spaced_request Q last h.0.last_request_time (sources.clock h.1) h.1 i over);
      genuine = λ q h. tt;
    }

    synthetic-Spaced :
        (c : Surroundings F) → Keeps (Spaced Q last) (λ r. AllGood Any r.prices) (synthetic c)
    unfolding ◌>>=◌
    synthetic-Spaced c = record { kept = λ h i. i; given = λ h i a e. All-Any a.prices }

    spaced_redis : IsRedisInvariant (Spaced Q last) Any spaced_invariant
    unfolding outside
    spaced_redis = record {
      connect = record {
        kept = λ h. spaced_step Q last h.1 _ h.0.last_request_time (others.connect h.1);
        given = λ h i a e. tt;
      };
      flagged = λ there. record { kept = λ h i. i; given = λ h i a e. tt };
      got = λ key. record {
        kept = λ h. spaced_step Q last h.1 _ h.0.last_request_time (others.got key h.1);
        given = λ h i a e. tt;
      };
      was_set = λ key value seconds. record {
        kept = λ h.
            spaced_step Q last h.1 _ h.0.last_request_time (others.was_set key value seconds h.1);
        given = λ h i a e. tt;
      };
    }

module _ {F W : Type 0} ⦃n : Number F⦄ ⦃floor : Floor F⦄ ⦃sources : Sources F W⦄
    ⦃json : PricesJson F⦄ where
  -- A call leaves the time of the last request as it was, and then whatever the other calls of a
  -- service keep holds after it, so that CoinGecko has not been asked; or the new time is at least
  -- 90 seconds after the one before.
  pub get_current_prices_with_meta_interval :
      (Q : W → Type 0) (c : Surroundings F) (feed : PriceFeed F) (w : W)
      → IsKeptByOthers sources Q
      → Q w
      → let after = (get_current_prices_with_meta c (feed, w)).1 in
        ((after.0.last_request_time ≡ feed.last_request_time) × Q after.1)
        ⊎ (feed.last_request_time + min_request_interval ≤ after.0.last_request_time)
  get_current_prices_with_meta_interval Q c feed w others world =
      let last = feed.last_request_time in
      let walk =
        get_current_prices_with_meta-Keeps (Spaced Q last) Any (spaced_invariant Q others last)
          (spaced_redis Q others last) c (inl (synthetic-Spaced Q others last c)) in
      walk.kept (feed, w) (inl (refl, world))
