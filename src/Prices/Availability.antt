-- ===== src/Prices/Availability.antt =====
-- The result of a resolution where the feature flag allows made-up prices.
use stellar_portfolio_rebala.Prelude.{
  ◌+◌, ◌≡◌, refl, sym, ◌∙◌, ◌⊎◌, inl, inr, ◌<◌, String, true, false, List, [], ◌∷◌, foldl, length,
  ltb, ◌==◌, str_eq, if◌then◌else◌, arith, ltb→lt, Bool-cases,
}
use stellar_portfolio_rebala.Prelude.Table.{Table, insert}
use stellar_portfolio_rebala.Number.{Number}
use stellar_portfolio_rebala.Async.{◌>>=◌, failing, reading}
use stellar_portfolio_rebala.Async.Returns.{Returns, Any, Any-Returns, pure-Returns, bind-Returns}
use stellar_portfolio_rebala.Async.Always.{
  Always, pure-Always, bind-Always, rescuing-Always, if-Always, cond-Returns, failing-Returns,
  Always-Returns,
}
use stellar_portfolio_rebala.Prices.Types.{
  cached_only, rate_limited_cache, error_recovery_cache, PricesMap, PriceFeed, Surroundings, Floor,
  Sources,
}
use stellar_portfolio_rebala.Prices.Cache.{get_asset_list}
use stellar_portfolio_rebala.Prices.Sources.{cached_prices_of, now_of}
use stellar_portfolio_rebala.Prices.Redis.{}
use stellar_portfolio_rebala.Prices.Resolve.{
  Resolved, hint_of, spread, fallback_quote, get_fallback_prices, synthetic, rate_limited,
  fetch_and_merge, resolve_within, recover, resolve_prices_internal,
}

length-insert : {V : Type 0} (k : String) (v : V) (m : Table V) → 0 < length (insert k v m)
unfolding insert
length-insert k v [] = omega arith
length-insert k v ((j, w) ∷ m) = elim (Bool-cases (str_eq j k)) [
  | inl e ↦ rw e (omega arith)
  | inr e ↦ rw e (omega arith)
]

pub true_not_false : true ≡ false → ⊥
true_not_false e = cc

length-foldl-insert :
    {V : Type 0} (f : String → V) (keys : List String) (m : Table V)
    → (0 < length keys) ⊎ (0 < length m)
    → 0 < length (foldl (λ out key. insert key (f key) out) m keys)
length-foldl-insert f [] m (inl h) = absurd (omega arith)
length-foldl-insert f [] m (inr h) = h
length-foldl-insert f (key ∷ keys) m h =
    length-foldl-insert f keys (insert key (f key) m) (inr (length-insert key (f key) m))

get_asset_list_some : {F : Type 0} (c : Surroundings F) → 0 < length (get_asset_list c)
unfolding get_asset_list
get_asset_list_some c = elim (Bool-cases (ltb 0 (length c.symbols))) [
  | inl e ↦ rw e (ltb→lt 0 _ e)
  | inr e ↦ rw e (omega arith)
]

pub reading-Always : {F W A : Type 0} (f : PriceFeed F → A) → Always Any (reading {W = W} f)
reading-Always f = record { result = λ h. (_, (refl, tt)) }

abbrev pub HasPrices : {F : Type 0} → Resolved F → Type 0
HasPrices r = 0 < length r.prices

module _ {F W : Type 0} ⦃n : Number F⦄ ⦃floor : Floor F⦄ ⦃sources : Sources F W⦄ where
  cached_prices_of-Always :
      (assets : List String) → Always Any (cached_prices_of {F = F} {W = W} assets)
  unfolding ◌>>=◌
  cached_prices_of-Always assets = record { result = λ h. (_, (refl, tt)) }

  pub now_of-Always : Always Any (now_of {F = F} {W = W})
  now_of-Always = record { result = λ h. (_, (refl, tt)) }

  module _ (c : Surroundings F) (allowed : c.allow_fallback_prices ≡ true) where
    synthetic-Always : Always HasPrices (synthetic {W = W} c)
    unfolding ◌>>=◌ get_fallback_prices
    synthetic-Always = record {
      result = λ h. (
        _,
        (
          refl,
          length-foldl-insert (fallback_quote c (sources.clock h.1)) (get_asset_list c) []
              (inl (get_asset_list_some c)),
        ),
      );
    }

    synthetic_or-Always :
        (message : String)
        → Always HasPrices
            (if c.allow_fallback_prices then synthetic {W = W} c else failing message)
    synthetic_or-Always message =
        if-Always HasPrices c.allow_fallback_prices _ _ (λ yes. synthetic-Always)
          (λ no. absurd (true_not_false (sym allowed ∙ no)))

    recover-Always : (error : String) → Always HasPrices (recover {W = W} c error)
    unfolding recover
    recover-Always error =
        bind-Always HasPrices Any _ _ (cached_prices_of-Always (get_asset_list c)) λ cached _.
          if-Always HasPrices (ltb 0 (length cached)) _ _
            (λ e.
              pure-Always HasPrices (record { prices = cached; hint = error_recovery_cache })
                (ltb→lt 0 _ e))
            (λ e. synthetic_or-Always _)

    rate_limited-Returns :
        (cached : PricesMap F) → Returns HasPrices (rate_limited {W = W} c cached)
    unfolding rate_limited
    rate_limited-Returns cached =
        cond-Returns HasPrices (ltb 0 (length cached)) _ _
          (λ e.
            pure-Returns HasPrices (record { prices = cached; hint = rate_limited_cache })
              (ltb→lt 0 _ e))
          (λ e. Always-Returns HasPrices _ (synthetic_or-Always _))

    fetch_and_merge-Returns :
        (cached : PricesMap F) → Returns HasPrices (fetch_and_merge {W = W} c cached)
    unfolding fetch_and_merge
    fetch_and_merge-Returns cached = bind-Returns HasPrices Any _ _ (Any-Returns _) λ reflector _.
        bind-Returns HasPrices Any _ _ (Any-Returns _) λ fresh _.
          let merged = spread (spread cached reflector) fresh in
          cond-Returns HasPrices (length merged == 0) _ _ (λ e. failing-Returns HasPrices _)
            (λ e.
              pure-Returns HasPrices
                (record {
                  prices = merged;
                  hint =
                      hint_of (length reflector + length fresh) (length (get_asset_list c))
                        (length cached);
                })
                (ground (arith, e)))

    resolve_within-Returns : Returns HasPrices (resolve_within {W = W} c)
    unfolding resolve_within
    resolve_within-Returns = bind-Returns HasPrices Any _ _ (Any-Returns _) λ cached _.
        cond-Returns HasPrices (length cached == length (get_asset_list c)) _ _
          (λ e.
            pure-Returns HasPrices (record { prices = cached; hint = cached_only })
              (ground (arith, e, get_asset_list_some c)))
          (λ e. bind-Returns HasPrices Any _ _ (Any-Returns _) λ now _.
            bind-Returns HasPrices Any _ _ (Any-Returns _) λ limited _.
              cond-Returns HasPrices limited _ _ (λ e. rate_limited-Returns cached)
                (λ e. fetch_and_merge-Returns cached))

    pub resolve_prices_internal-Always : Always HasPrices (resolve_prices_internal {W = W} c)
    unfolding resolve_prices_internal
    resolve_prices_internal-Always =
        rescuing-Always HasPrices (recover c) (resolve_within c) recover-Always
          resolve_within-Returns
