-- ===== src/Prices/Genuine.antt =====
-- Made-up prices and the feature flag that allows them.
use stellar_portfolio_rebala.Prelude.{
  ℕ, ◌≡◌, refl, sym, subst, inr, String, false, List, [], All, All-imp,
}
use stellar_portfolio_rebala.Prelude.Table.{All-insert}
use stellar_portfolio_rebala.Number.{Number}
use stellar_portfolio_rebala.Async.{returned, ◌>>=◌, outside}
use stellar_portfolio_rebala.Async.Returns.{Any, returned_injective}
use stellar_portfolio_rebala.Async.Keeps.{Keeps}
use stellar_portfolio_rebala.Prices.Types.{
  Quote, CachedQuote, PriceFeed, Surroundings, Floor, Sources,
}
use stellar_portfolio_rebala.Prices.Cache.{from_fallback, served_quote, get_cached_prices}
use stellar_portfolio_rebala.Prices.Sources.{cached_prices_of, remember}
use stellar_portfolio_rebala.Prices.Resolve.{Resolved, resolve_prices_internal}
use stellar_portfolio_rebala.Prices.Lookups.{get_cached_prices-feed, get_cached_prices-All}
use stellar_portfolio_rebala.Prices.Walk.{IsGenuine, AllGood, IsFeedInvariant}
use stellar_portfolio_rebala.Prices.Paths.{resolve_prices_internal-Keeps}

-- The cache holds no price that was made up.
abbrev pub IsUnforged : {F : Type 0} → PriceFeed F → Type 0
IsUnforged feed = All (λ e. from_fallback e.1.quote.source ≡ false) feed.price_cache

served_quote-IsGenuine :
    {F : Type 0} (now : ℕ) (cached : CachedQuote F)
    → from_fallback cached.quote.source ≡ false
    → IsGenuine (served_quote now cached)
served_quote-IsGenuine now cached h = (h, rw h refl)

module _ {F W : Type 0} ⦃n : Number F⦄ ⦃floor : Floor F⦄ ⦃sources : Sources F W⦄ where
  abbrev Unforged : PriceFeed F × W → Type 0
  Unforged h = IsUnforged h.0

  cached_prices_of-Unforged :
      (assets : List String) → Keeps Unforged (AllGood IsGenuine) (cached_prices_of assets)
  unfolding ◌>>=◌ get_cached_prices
  cached_prices_of-Unforged assets = record {
    kept = λ h i.
        subst IsUnforged (sym (get_cached_prices-feed (sources.clock h.1) assets ([], h.0))) i;
    given = λ h i a e. subst (AllGood IsGenuine) (returned_injective _ a e) (
        get_cached_prices-All (sources.clock h.1) IsGenuine assets ([], h.0)
          (All-imp h.0.price_cache (λ e. served_quote-IsGenuine (sources.clock h.1) e.1) i) tt);
  }

  remember-Unforged :
      (asset : String) (q : Quote F) → IsGenuine q → Keeps Unforged Any (remember asset q)
  unfolding ◌>>=◌
  remember-Unforged asset q genuine = record {
    kept = λ h i.
        All-insert (λ c. from_fallback c.quote.source ≡ false) asset _ h.0.price_cache genuine.0 i;
    given = λ h i a e. tt;
  }

  Unforged-IsFeedInvariant : IsFeedInvariant Unforged IsGenuine
  unfolding outside
  Unforged-IsFeedInvariant = record {
    cached = cached_prices_of-Unforged;
    reflector = λ url assets. record { kept = λ h i. i; given = λ h i a e. tt };
    freshness = λ asset at. record { kept = λ h i. i; given = λ h i a e. tt };
    remembered = remember-Unforged;
    asked = λ ids h i over. i;
    genuine = λ q h. h;
  }

  -- With fallback prices disabled and none in the cache, every price that is resolved comes from a
  -- source or from what the cache keeps of one, and the call, even one that throws, leaves no other
  -- price in the cache.
  pub resolve_prices_internal-IsGenuine :
      (c : Surroundings F) (feed : PriceFeed F) (w : W)
      → c.allow_fallback_prices ≡ false
      → IsUnforged feed
      → IsUnforged (resolve_prices_internal c (feed, w)).1.0
        × ((r : Resolved F)
            → (resolve_prices_internal c (feed, w)).0 ≡ returned r
            → All (λ e. IsGenuine e.1) r.prices)
  resolve_prices_internal-IsGenuine c feed w off unforged =
      let walk =
        resolve_prices_internal-Keeps Unforged IsGenuine Unforged-IsFeedInvariant c (inr off) in
      (walk.kept (feed, w) unforged, walk.given (feed, w) unforged)
