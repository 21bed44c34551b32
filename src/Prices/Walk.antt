-- ===== src/Prices/Walk.antt =====
-- Invariants of a price feed: what the steps that change it keep, every method keeps, and what holds
-- of the quotes of the sources and the cache holds of all prices.
use stellar_portfolio_rebala.Prelude.{
  join, ℕ, suc, ◌≡◌, refl, subst, inl, inr, String, false, List, [], ◌∷◌, All, str_eq, Bool-cases,
  Option-cases,
}
use stellar_portfolio_rebala.Prelude.Table.{Table, lookup, All-insert}
use stellar_portfolio_rebala.Number.{Number}
use stellar_portfolio_rebala.Async.{returned, ◌>>=◌, reading, outside}
use stellar_portfolio_rebala.Async.Returns.{Any, returned_injective}
use stellar_portfolio_rebala.Async.Keeps.{
  Keeps, pure-Keeps, bind-Keeps, catching-Keeps, failing-Keeps, if-Keeps, after-Keeps, lift-Keeps,
}
use stellar_portfolio_rebala.Prices.Types.{
  Quote, PricesMap, PriceFeed, Floor, ReflectorRow, ReflectorPayload, CoinData, Response, Sources,
}
use stellar_portfolio_rebala.Prices.Cache.{from_fallback, is_rate_limited}
use stellar_portfolio_rebala.Prices.Sources.{
  now_of, cached_prices_of, mark_fresh, remember, add_reflector_price, add_reflector_prices,
  read_reflector_rows, get_reflector_prices, add_fresh_price, add_fresh_prices, read_coin_gecko,
  request_fresh_prices, get_fresh_prices, coin_ids_of, reflector_quote, coin_gecko_quote, given_or,
  coin_key,
}
use stellar_portfolio_rebala.Prices.Resolve.{is_synthetic_tier}

-- A quote of a source, by its origin and tier.
abbrev pub IsGenuine : {F : Type 0} → Quote F → Type 0
IsGenuine q = (from_fallback q.source ≡ false) × (is_synthetic_tier q.data_tier ≡ false)

abbrev pub AllGood : {F : Type 0} → (Quote F → Type 0) → PricesMap F → Type 0
AllGood G = All λ e. G e.1

module _ {F W : Type 0} ⦃n : Number F⦄ ⦃floor : Floor F⦄ ⦃sources : Sources F W⦄ where
  open sources use {clock, reflector_request, coin_gecko_request, set_asset_freshness}

  -- The steps that change the feed or the world keep I, and G holds of the quotes that are served.
  pub record IsFeedInvariant (I : PriceFeed F × W → Type 0) (G : Quote F → Type 0) : Type 0 where
    pub cached : (assets : List String) → Keeps I (All (λ e. G e.1)) (cached_prices_of assets)
    pub reflector :
        (url assets : String)
        → Keeps I Any (outside {S = PriceFeed F} (reflector_request url assets))
    pub freshness :
        (asset : String) (at : ℕ)
        → Keeps I Any (outside {S = PriceFeed F} (set_asset_freshness asset at))
    pub remembered : (asset : String) (q : Quote F) → IsGenuine q → Keeps I Any (remember asset q)
    pub asked :
        (ids : String) (h : PriceFeed F × W)
        → I h
        → is_rate_limited (clock h.1) h.0 ≡ false
        → I (outside (coin_gecko_request ids) (record h.0 { last_request_time = clock h.1 }, h.1)).1
    pub genuine : (q : Quote F) → IsGenuine q → G q

  module _ (I : PriceFeed F × W → Type 0) (G : Quote F → Type 0) (inv : IsFeedInvariant I G) where
    pub reading-Keeps : {A : Type 0} (f : PriceFeed F → A) → Keeps I Any (reading f)
    reading-Keeps f = record { kept = λ h i. i; given = λ h i a e. tt }

    pub now_of-Keeps : Keeps I Any now_of
    now_of-Keeps = record { kept = λ h i. i; given = λ h i a e. tt }

    mark_fresh-Keeps : (asset : String) → Keeps I Any (mark_fresh asset)
    mark_fresh-Keeps asset =
        bind-Keeps I _ Any _ _ now_of-Keeps
          λ now _. catching-Keeps I Any _ _ (λ message. tt) (inv.freshness asset now)

    add_reflector_price-Keeps :
        (max_age : F) (rows : Table (ReflectorRow F)) (asset : String) (acc : PricesMap F × ℕ)
        → AllGood G acc.0
        → Keeps I (λ a. AllGood G a.0) (add_reflector_price max_age rows asset acc)
    unfolding add_reflector_price
    add_reflector_price-Keeps max_age rows asset acc good =
        elim (Option-cases (lookup asset rows)) [
          | inl e ↦ rw (add_reflector_price, e) (pure-Keeps I _ acc good)
          | inr (row, e) ↦
              rw (add_reflector_price, e)
                (bind-Keeps I _ Any _ _ now_of-Keeps λ now _.
                  if-Keeps I _ _ _ _ (pure-Keeps I _ (acc.0, suc acc.1) good) (
                    bind-Keeps I _ Any _ _ (lift-Keeps I _) λ price _.
                      bind-Keeps I _ Any _ _ (mark_fresh-Keeps asset) λ _ _. pure-Keeps I _ _ (
                        All-insert G asset (reflector_quote now price row) acc.0
                          (inv.genuine _ (refl, refl)) good)))
        ]

    add_reflector_prices-Keeps :
        (max_age : F) (rows : Table (ReflectorRow F)) (assets : List String) (acc : PricesMap F × ℕ)
        → AllGood G acc.0
        → Keeps I (λ a. AllGood G a.0) (add_reflector_prices max_age rows assets acc)
    unfolding add_reflector_prices
    add_reflector_prices-Keeps max_age rows [] acc good = pure-Keeps I _ acc good
    add_reflector_prices-Keeps max_age rows (asset ∷ assets) acc good =
        bind-Keeps I _ (λ a. AllGood G a.0) _ _
          (add_reflector_price-Keeps max_age rows asset acc good)
          λ b. add_reflector_prices-Keeps max_age rows assets b

    read_reflector_rows-Keeps :
        (response : Response (ReflectorPayload F)) (assets : List String)
        → Keeps I (AllGood G) (read_reflector_rows response assets)
    unfolding read_reflector_rows
    read_reflector_rows-Keeps response assets =
        bind-Keeps I _ Any _ _ (lift-Keeps I response.json) λ payload _.
          bind-Keeps I _ Any _ _ (reading-Keeps _) λ max_age _.
            bind-Keeps I _ (λ a. AllGood G a.0) _ _
              (add_reflector_prices-Keeps max_age (given_or payload.prices payload.rows) assets
                ([], 0) tt)
              λ found good. if-Keeps I _ _ _ _ (failing-Keeps I _ _) (pure-Keeps I _ _ good)

    pub get_reflector_prices-Keeps :
        (assets : List String) → Keeps I (AllGood G) (get_reflector_prices assets)
    unfolding get_reflector_prices
    get_reflector_prices-Keeps assets = bind-Keeps I _ Any _ _ (reading-Keeps _) λ url _.
        if-Keeps I _ _ _ _ (pure-Keeps I _ _ tt) (
          bind-Keeps I _ Any _ _ (inv.reflector url (join "," assets)) λ response _.
            if-Keeps I _ _ _ _ (failing-Keeps I _ _) (read_reflector_rows-Keeps response assets))

    coin_gecko_quote-IsGenuine :
        (now : ℕ) (api_key : String) (usd : F) (coin : CoinData F)
        → IsGenuine (coin_gecko_quote now api_key usd coin)
    coin_gecko_quote-IsGenuine now api_key usd coin = elim (Bool-cases (str_eq api_key "")) [
      | inl e ↦ (rw e refl, refl)
      | inr e ↦ (rw e refl, refl)
    ]

    add_fresh_price-Keeps :
        (coin_ids : Table String) (data_of : Table (CoinData F)) (asset : String)
        (prices : PricesMap F)
        → AllGood G prices
        → Keeps I (AllGood G) (add_fresh_price coin_ids data_of asset prices)
    unfolding add_fresh_price
    add_fresh_price-Keeps coin_ids data_of asset prices good =
        elim (Option-cases (lookup (coin_key coin_ids asset) data_of)) [
          | inl e ↦ rw (add_fresh_price, e) (pure-Keeps I _ prices good)
          | inr (coin, e) ↦ elim (Option-cases coin.usd) [
            | inl no_price ↦ rw (add_fresh_price, e, no_price) (pure-Keeps I _ prices good)
            | inr (usd, price) ↦
                rw (add_fresh_price, e, price)
                  (bind-Keeps I _ Any _ _ now_of-Keeps λ now _.
                    bind-Keeps I _ Any _ _ (reading-Keeps _) λ api_key _.
                      bind-Keeps I _ Any _ _
                        (inv.remembered asset (coin_gecko_quote now api_key usd coin)
                          (coin_gecko_quote-IsGenuine now api_key usd coin))
                        λ _ _. bind-Keeps I _ Any _ _ (mark_fresh-Keeps asset) λ _ _.
                          pure-Keeps I _ _ (
                            All-insert G asset (coin_gecko_quote now api_key usd coin) prices
                              (inv.genuine _ (coin_gecko_quote-IsGenuine now api_key usd coin))
                              good))
          ]
        ]

    add_fresh_prices-Keeps :
        (coin_ids : Table String) (data_of : Table (CoinData F)) (assets : List String)
        (prices : PricesMap F)
        → AllGood G prices
        → Keeps I (AllGood G) (add_fresh_prices coin_ids data_of assets prices)
    unfolding add_fresh_prices
    add_fresh_prices-Keeps coin_ids data_of [] prices good = pure-Keeps I _ prices good
    add_fresh_prices-Keeps coin_ids data_of (asset ∷ assets) prices good =
        bind-Keeps I _ (AllGood G) _ _ (add_fresh_price-Keeps coin_ids data_of asset prices good)
          λ b. add_fresh_prices-Keeps coin_ids data_of assets b

    read_coin_gecko-Keeps :
        (coin_ids : Table String) (assets : List String) (response : Response (Table (CoinData F)))
        → Keeps I (AllGood G) (read_coin_gecko coin_ids assets response)
    unfolding read_coin_gecko
    read_coin_gecko-Keeps coin_ids assets response =
        if-Keeps I _ _ _ _
          (bind-Keeps I _ Any _ _ (lift-Keeps I response.text) λ text _. failing-Keeps I _ _)
          (bind-Keeps I _ Any _ _ (lift-Keeps I response.json) λ data_of _.
            bind-Keeps I _ (AllGood G) _ _ (add_fresh_prices-Keeps coin_ids data_of assets [] tt)
              λ prices good. if-Keeps I _ _ _ _ (failing-Keeps I _ _) (pure-Keeps I _ _ good))

    -- The request is made only where the interval is over.
    fresh_at :
        (assets : List String) (coin_ids : Table String) (h : PriceFeed F × W)
        → I h
        → I (get_fresh_prices assets coin_ids h).1
          × ((a : PricesMap F) → (get_fresh_prices assets coin_ids h).0 ≡ returned a → AllGood G a)
    unfolding get_fresh_prices request_fresh_prices ◌>>=◌
    fresh_at assets coin_ids h i = elim (Bool-cases (is_rate_limited (clock h.1) h.0)) [
      | inl limited ↦ rw limited (i, λ a e. subst (AllGood G) (returned_injective [] a e) tt)
      | inr over ↦ rw over (
          after-Keeps I (AllGood G)
            (outside (coin_gecko_request (join "," (coin_ids_of coin_ids assets)))) _
            (read_coin_gecko-Keeps coin_ids assets)
            (record h.0 { last_request_time = clock h.1 }, h.1)
            (inv.asked (join "," (coin_ids_of coin_ids assets)) h i over))
    ]

    pub get_fresh_prices-Keeps :
        (assets : List String) (coin_ids : Table String)
        → Keeps I (AllGood G) (get_fresh_prices assets coin_ids)
    get_fresh_prices-Keeps assets coin_ids = record {
      kept = λ h i. (fresh_at assets coin_ids h i).0;
      given = λ h i. (fresh_at assets coin_ids h i).1;
    }
