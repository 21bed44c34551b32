-- ===== src/Prices/Lookups.antt =====
-- What the cache in memory serves, and what serving changes.
use stellar_portfolio_rebala.Prelude.{
  ℕ, ◌-◌, ◌≡◌, refl, sym, ap, subst, ◌∙◌, inl, inr, String, true, Option, none, some, List, [], ◌∷◌,
  foldl, All, if◌then◌else◌, Bool-cases, Option-cases, ltb→lt, lt→ltb, ◌<◌, ◌↔◌, arith, str_eq,
  eq_iff,
}
use mathlib.Core.Option.{some-injective}
use stellar_portfolio_rebala.Prelude.Sort.{includes}
use stellar_portfolio_rebala.Prelude.Table.{lookup, insert, lookup-insert, All-insert, All-lookup}
use stellar_portfolio_rebala.Prices.Types.{Quote, PricesMap, CachedQuote, PriceFeed}
use stellar_portfolio_rebala.Prices.Cache.{served_quote, is_live, add_cached, get_cached_prices}

module _ {F : Type 0} (now : ℕ) where
  -- What a lookup of an asset gives, where the cache decides.
  abbrev pub live_quote : PriceFeed F → String → Option (Quote F)
  live_quote feed asset = elim (lookup asset feed.price_cache) [
    | none ↦ none
    | some cached ↦ if is_live now feed cached then some (served_quote now cached) else none
  ]

  -- Only the statistics change.
  pub add_cached-feed :
      (acc : PricesMap F × PriceFeed F) (asset : String)
      → (add_cached now acc asset).1
        ≡ record acc.1 { cache_stats = (add_cached now acc asset).1.cache_stats }
  unfolding add_cached
  add_cached-feed (prices, feed) asset = elim (Option-cases (lookup asset feed.price_cache)) [
    | inl e ↦ rw (add_cached, e) refl
    | inr (cached, e) ↦ elim (Bool-cases (is_live now feed cached)) [
      | inl live ↦ rw (add_cached, e, live) refl
      | inr old ↦ rw (add_cached, e, old) refl
    ]
  ]

  add_cached-prices :
      (acc : PricesMap F × PriceFeed F) (asset : String)
      → (add_cached now acc asset).0
        ≡ elim (live_quote acc.1 asset) [ none ↦ acc.0 | some q ↦ insert asset q acc.0 ]
  unfolding add_cached
  add_cached-prices (prices, feed) asset = elim (Option-cases (lookup asset feed.price_cache)) [
    | inl e ↦ rw (add_cached, e) refl
    | inr (cached, e) ↦ elim (Bool-cases (is_live now feed cached)) [
      | inl live ↦ rw (add_cached, e, live) refl
      | inr old ↦ rw (add_cached, e, old) refl
    ]
  ]

  pub get_cached_prices-feed :
      (assets : List String) (acc : PricesMap F × PriceFeed F)
      → (foldl (add_cached now) acc assets).1
        ≡ record acc.1 { cache_stats = (foldl (add_cached now) acc assets).1.cache_stats }
  get_cached_prices-feed [] acc = refl
  get_cached_prices-feed (asset ∷ assets) acc =
      let after = add_cached now acc asset in
      let stats = (foldl (add_cached now) after assets).1.cache_stats in
      get_cached_prices-feed assets after
      ∙ ap (λ (f : PriceFeed F). record f { cache_stats = stats }) (add_cached-feed acc asset)

  abbrev or_served : Option (Quote F) → Option (Quote F) → Option (Quote F)
  or_served none d = d
  or_served (some q) d = some q

  add_cached-lookup :
      (acc : PricesMap F × PriceFeed F) (asset key : String)
      → lookup key (add_cached now acc asset).0 ≡ (
          if str_eq asset key
          then or_served (live_quote acc.1 key) (lookup key acc.0)
          else lookup key acc.0)
  add_cached-lookup acc asset key =
      rw (add_cached-prices acc asset) (elim (Option-cases (live_quote acc.1 asset)) [
        | inl e ↦ ground (arith, e, eq_iff asset key)
        | inr (q, e) ↦ ground (arith, e, eq_iff asset key, lookup-insert asset key q acc.0)
      ])

  lookup-get_cached_prices :
      (assets : List String) (acc : PricesMap F × PriceFeed F) (key : String)
      → lookup key (foldl (add_cached now) acc assets).0 ≡ (
          if includes key assets
          then or_served (live_quote acc.1 key) (lookup key acc.0)
          else lookup key acc.0)
  lookup-get_cached_prices [] acc key = refl
  lookup-get_cached_prices (asset ∷ assets) acc key =
      let after = add_cached now acc asset in
      let rest = lookup-get_cached_prices assets after key in
      let first = add_cached-lookup acc asset key in
      let same : live_quote after.1 key ≡ live_quote acc.1 key =
        ap (λ feed. live_quote feed key) (add_cached-feed acc asset) in
      rest ∙ rw (same, first) (ground (arith, eq_iff asset key, eq_iff key asset))

  abbrev pub IsServed : PriceFeed F → String → Quote F → Type 0
  IsServed feed key q =
      (cached : CachedQuote F) × ((lookup key feed.price_cache ≡ some cached)
        × ((now - cached.cached_at_ms < feed.cache_duration) × (served_quote now cached ≡ q)))

  live_quote-IsServed :
      (feed : PriceFeed F) (key : String) (q : Quote F)
      → (live_quote feed key ≡ some q) ↔ IsServed feed key q
  live_quote-IsServed feed key q = elim (Option-cases (lookup key feed.price_cache)) [
    | inl e ↦ (rw e (λ h. cc), λ (cached, (found, (young, same))). cc)
    | inr (cached, e) ↦ elim (Bool-cases (is_live now feed cached)) [
      | inl live ↦ (
        rw (live_quote, e, live) (λ h. (cached, (refl, (ltb→lt _ _ live, some-injective _ _ h)))),
        rw (live_quote, e, live)
            (λ (other, (found, (young, same))).
              ap some (ap (served_quote now) (some-injective _ _ found) ∙ same)),
      )
      | inr old ↦ (
        rw (live_quote, e, old) (λ h. cc),
        λ (other, (found, (young, same))).
            let young_entry =
              subst (λ (c : CachedQuote F). is_live now feed c ≡ true)
                (sym (some-injective _ _ (sym e ∙ found))) (lt→ltb _ _ young) in
            cc,
      )
    ]
  ]

  or_served-none : (o : Option (Quote F)) → or_served o none ≡ o
  or_served-none none = refl
  or_served-none (some q) = refl

  -- Of the assets asked for, exactly those with an entry younger than the duration of the cache are
  -- served, each with the quote of its entry.
  pub get_cached_prices-IsServed :
      (assets : List String) (feed : PriceFeed F) (key : String) (q : Quote F)
      → (lookup key (get_cached_prices now assets feed).0 ≡ some q)
        ↔ ((includes key assets ≡ true) × IsServed feed key q)
  unfolding get_cached_prices lookup
  get_cached_prices-IsServed assets feed key q =
      let served = live_quote-IsServed feed key q in
      rw (lookup-get_cached_prices assets ([], feed) key, or_served-none (live_quote feed key))
        (elim (Bool-cases (includes key assets)) [
          | inl asked ↦ rw asked ((λ h. (refl, served.0 h)), λ (asked_for, h). served.1 h)
          | inr not_asked ↦ rw not_asked ((λ h. cc), λ (asked_for, h). cc)
        ])

-- What holds of the served quotes of the entries that are there holds of all that is served.
pub get_cached_prices-All :
    {F : Type 0} (now : ℕ) (G : Quote F → Type 0) (assets : List String)
    (acc : PricesMap F × PriceFeed F)
    → All (λ e. G (served_quote now e.1)) acc.1.price_cache
    → All (λ e. G e.1) acc.0
    → All (λ e. G e.1) (foldl (add_cached now) acc assets).0
unfolding add_cached
get_cached_prices-All now G [] acc entries so_far = so_far
get_cached_prices-All {F = F} now G (asset ∷ assets) acc entries so_far =
    let after = add_cached now acc asset in
    let entries_after : All (λ e. G (served_quote now e.1)) after.1.price_cache =
      subst (λ (f : PriceFeed F). All (λ e. G (served_quote now e.1)) f.price_cache)
        (sym (add_cached-feed now acc asset)) entries in
    let so_far_after : All (λ e. G e.1) after.0 =
      rw (add_cached-prices now acc asset) (elim (Option-cases (lookup asset acc.1.price_cache)) [
        | inl e ↦ rw (live_quote, e) so_far
        | inr (cached, e) ↦ elim (Bool-cases (is_live now acc.1 cached)) [
          | inl live ↦
              rw (live_quote, e, live)
                (All-insert G asset (served_quote now cached) acc.0
                  (All-lookup (λ c. G (served_quote now c)) asset cached acc.1.price_cache entries
                    e)
                  so_far)
          | inr old ↦ rw (live_quote, e, old) so_far
        ]
      ]) in
    get_cached_prices-All now G assets after entries_after so_far_after
