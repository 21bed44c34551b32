-- ===== src/Prices/Sources.antt =====
-- The two sources of prices: the Reflector's service and CoinGecko's.
use stellar_portfolio_rebala.Async.{
  Outcome, returned, thrown, Run, ◌>>=◌, ◌>>◌, pure, catching, failing, lift, reading, modifying,
  outside,
}
use stellar_portfolio_rebala.Prelude.{
  ℕ, suc, String, Bool, false, not, ◌&&◌, Option, none, some, List, [], ◌∷◌, length, ltb, ◌==◌,
  str_eq, template, join, if◌then◌else◌,
}
use stellar_portfolio_rebala.Prelude.Table.{Table, lookup, insert, get_or}
use stellar_portfolio_rebala.Number.{Number, int, gt, or_zero, truthy}
use stellar_portfolio_rebala.Prices.Types.{
  reflector, coingecko_pro, coingecko_free, primary, Quote, PricesMap, PriceFeed, Floor,
  ReflectorRow, ReflectorPayload, CoinData, Response, Sources,
}
use stellar_portfolio_rebala.Prices.Cache.{is_rate_limited, get_cached_prices}

-- `raw ?? d`
abbrev pub given_or {ℓ} : {A : Type ℓ} → Option A → A → A
given_or none d = d
given_or (some a) d = a

-- `coinIds[asset]`, as the key of `data`.
abbrev pub coin_key : Table String → String → String
coin_key coin_ids asset = get_or asset coin_ids "undefined"

-- `assets.map(asset => coinIds[asset]).filter(Boolean)`
unfoldable pub coin_ids_of : Table String → List String → List String
coin_ids_of coin_ids [] = []
coin_ids_of coin_ids (asset ∷ assets) =
    let rest = coin_ids_of coin_ids assets in
    elim (lookup asset coin_ids) [
      | none ↦ rest
      | some id ↦ if str_eq id "" then rest else id ∷ rest
    ]

abbrev pub coin_gecko_error : ℕ → String → String → String
coin_gecko_error status shown text =
    if status == 429
    then "Rate limit exceeded"
    else if status == 401
    then "Invalid API key"
    else if status == 400
    then template ("Bad request: " ∷ text ∷ [])
    else template ("CoinGecko API error: " ∷ shown ∷ " - " ∷ text ∷ [])

module _ {F : Type 0} where
  -- The five fields that are kept of a quote, in memory and in Redis.
  abbrev pub stripped : Quote F → Quote F
  stripped q = record q {
    served_from_cache = none;
    server_fetched_at_ms = none;
    cache_age_ms = none;
    quote_age_seconds = none;
    data_tier = none;
  }

module _ {F : Type 0} ⦃n : Number F⦄ ⦃floor : Floor F⦄ where
  open floor use {floor_of}

  unfoldable pub normalize_reflector_price : F → ℕ → Outcome F
  normalize_reflector_price numeric decimals =
      if not (n.is_finite numeric)
      then thrown "Invalid Reflector price value"
      else if decimals == 0
      then returned numeric
      else returned (n.div numeric (n.pow (int 10) decimals))

  -- Seconds, of a time in seconds or in milliseconds.
  abbrev pub in_seconds : F → F
  in_seconds timestamp =
      if n.le (int 1_000_000_000_000) timestamp
      then floor_of (n.div timestamp (int 1000))
      else floor_of timestamp

  abbrev pub now_seconds : ℕ → F
  now_seconds now = floor_of (n.div (int now) (int 1000))

  unfoldable pub is_price_stale : ℕ → F → F → Bool
  is_price_stale now max_age timestamp = gt (n.sub (now_seconds now) (in_seconds timestamp)) max_age

  abbrev pub reflector_quote : ℕ → F → ReflectorRow F → Quote F
  reflector_quote now price row = record {
    price = price;
    change = given_or row.change (int 0);
    timestamp = row.timestamp;
    source = some reflector;
    volume = row.volume;
    served_from_cache = some false;
    server_fetched_at_ms = some now;
    cache_age_ms = none;
    quote_age_seconds = none;
    data_tier = some primary;
  }

  abbrev pub coin_gecko_quote : ℕ → String → F → CoinData F → Quote F
  coin_gecko_quote now api_key usd coin = record {
    price = or_zero usd;
    change = or_zero (given_or coin.usd_24h_change (int 0));
    timestamp =
        let updated = given_or coin.last_updated_at (int 0) in
        if truthy updated then updated else now_seconds now;
    source = some (if str_eq api_key "" then coingecko_free else coingecko_pro);
    volume = some (or_zero (given_or coin.usd_24h_vol (int 0)));
    served_from_cache = some false;
    server_fetched_at_ms = some now;
    cache_age_ms = none;
    quote_age_seconds = none;
    data_tier = some primary;
  }

  module _ {W : Type 0} ⦃sources : Sources F W⦄ where
    open sources use {clock, reflector_request, coin_gecko_request, set_asset_freshness}

    -- `Date.now()`
    abbrev pub now_of : Run (PriceFeed F × W) ℕ
    now_of h = (returned (clock h.1), h)

    abbrev pub cached_prices_of : List String → Run (PriceFeed F × W) (PricesMap F)
    cached_prices_of assets = now_of >>= λ now. modifying (get_cached_prices now assets)

    -- `try { setAssetFreshness(...) } catch { log }`
    abbrev pub mark_fresh : String → Run (PriceFeed F × W) (Unit {0})
    mark_fresh asset =
        now_of >>= λ now. catching (λ message. tt) (outside (set_asset_freshness asset now))

    -- One round of the loop over the assets: the quotes so far, and the number of stale ones.
    unfoldable pub add_reflector_price :
        F
        → Table (ReflectorRow F)
        → String
        → PricesMap F × ℕ
        → Run (PriceFeed F × W) (PricesMap F × ℕ)
    add_reflector_price max_age rows asset (out, stale_count) = elim (lookup asset rows) [
      | none ↦ pure (out, stale_count)
      | some row ↦ do
        now ← now_of
        if is_price_stale now max_age row.timestamp then pure (out, suc stale_count) else (do
          price ← lift (normalize_reflector_price row.price (given_or row.decimals 0))
          mark_fresh asset
          pure (insert asset (reflector_quote now price row) out, stale_count))
    ]

    unfoldable pub add_reflector_prices :
        F
        → Table (ReflectorRow F)
        → List String
        → PricesMap F × ℕ
        → Run (PriceFeed F × W) (PricesMap F × ℕ)
    add_reflector_prices max_age rows [] acc = pure acc
    add_reflector_prices max_age rows (asset ∷ assets) acc =
        add_reflector_price max_age rows asset acc >>= add_reflector_prices max_age rows assets

    unfoldable pub read_reflector_rows :
        Response (ReflectorPayload F) → List String → Run (PriceFeed F × W) (PricesMap F)
    read_reflector_rows response assets = do
      payload ← lift response.json
      max_age ← reading (λ feed. feed.price_data_max_age)
      found ← add_reflector_prices max_age (given_or payload.prices payload.rows) assets ([], 0)
      if (length found.0 == 0) && ltb 0 found.1
          then failing "Reflector data is stale"
          else pure found.0

    unfoldable pub get_reflector_prices : List String → Run (PriceFeed F × W) (PricesMap F)
    get_reflector_prices assets = do
      url ← reading (λ feed. feed.reflector_api_url)
      if str_eq url "" then pure [] else (do
        response ← outside (reflector_request url (join "," assets))
        if not response.ok
            then failing (template ("Reflector API error: " ∷ n.to_text (int response.status) ∷ []))
            else read_reflector_rows response assets)

    -- `prices[asset] = priceData` and `this.priceCache.set(asset, ...)`
    abbrev pub remember : String → Quote F → Run (PriceFeed F × W) (Unit {0})
    remember asset quote = now_of >>= λ now. modifying λ feed. (
      tt,
      record feed {
        price_cache =
            insert asset (record { quote = stripped quote; cached_at_ms = now }) feed.price_cache;
      },
    )

    unfoldable pub add_fresh_price :
        Table String
        → Table (CoinData F)
        → String
        → PricesMap F
        → Run (PriceFeed F × W) (PricesMap F)
    add_fresh_price coin_ids data_of asset prices =
        elim (lookup (coin_key coin_ids asset) data_of) [
          | none ↦ pure prices
          | some coin ↦ elim coin.usd [
            | none ↦ pure prices
            | some usd ↦ do
              now ← now_of
              api_key ← reading (λ feed. feed.coin_gecko_api_key)
              remember asset (coin_gecko_quote now api_key usd coin)
              mark_fresh asset
              pure (insert asset (coin_gecko_quote now api_key usd coin) prices)
          ]
        ]

    unfoldable pub add_fresh_prices :
        Table String
        → Table (CoinData F)
        → List String
        → PricesMap F
        → Run (PriceFeed F × W) (PricesMap F)
    add_fresh_prices coin_ids data_of [] prices = pure prices
    add_fresh_prices coin_ids data_of (asset ∷ assets) prices =
        add_fresh_price coin_ids data_of asset prices >>= add_fresh_prices coin_ids data_of assets

    unfoldable pub read_coin_gecko :
        Table String
        → List String
        → Response (Table (CoinData F))
        → Run (PriceFeed F × W) (PricesMap F)
    read_coin_gecko coin_ids assets response =
        if not response.ok
        then (do
          text ← lift response.text
          failing (coin_gecko_error response.status (n.to_text (int response.status)) text))
        else (do
          data_of ← lift response.json
          prices ← add_fresh_prices coin_ids data_of assets []
          if length prices == 0
              then failing "No valid price data received from CoinGecko"
              else pure prices)

    -- What follows the check of the interval; the errors are logged and thrown again.
    unfoldable pub request_fresh_prices :
        List String → Table String → ℕ → Run (PriceFeed F × W) (PricesMap F)
    request_fresh_prices assets coin_ids now = do
      modifying (λ feed. (tt, record feed { last_request_time = now }))
      response ← outside (coin_gecko_request (join "," (coin_ids_of coin_ids assets)))
      read_coin_gecko coin_ids assets response

    unfoldable pub get_fresh_prices :
        List String → Table String → Run (PriceFeed F × W) (PricesMap F)
    get_fresh_prices assets coin_ids = do
      now ← now_of
      limited ← reading (is_rate_limited now)
      if limited then pure [] else request_fresh_prices assets coin_ids now
