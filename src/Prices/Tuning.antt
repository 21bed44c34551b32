-- ===== src/Prices/Tuning.antt =====
-- The settings of the cache and its statistics.
use stellar_portfolio_rebala.Prelude.{
  ℕ, suc, ◌+◌, ◌≡◌, refl, subst, inl, inr, ◌≤◌, String, Bool, true, false, Option, none, some, List,
  [], ◌∷◌, foldl, if◌then◌else◌, arith, Bool-cases, Option-cases, str_eq, eq_iff, leb, min, ◌&&◌,
}
use stellar_portfolio_rebala.Prelude.Table.{Table, lookup, insert, get_or-insert, get_or-insert_ne}
use stellar_portfolio_rebala.Number.{Number, int}
use stellar_portfolio_rebala.Prices.Types.{CacheStats, PricesMap, PriceFeed}
use stellar_portfolio_rebala.Prices.Cache.{
  no_stats, stats_of, update_cache_stats, is_live, add_cached, get_cached_prices, Setting, whole,
  TuneResult, not_whole, setting_at_least, tune_max_age, tune_cache_settings,
}

-- An option that is missing, or a whole number of at least `low`.
abbrev pub is_valid : ℕ → Option Setting → Bool
is_valid low none = true
is_valid low (some (whole k)) = leb low k
is_valid low (some not_whole) = false

-- The number asked for, or the present one.
abbrev pub asked {ℓ} : {A : Type ℓ} → (ℕ → A) → Option Setting → A → A
asked of none a = a
asked of (some (whole k)) a = of k
asked of (some not_whole) a = a

setting_at_least-valid : (low k : ℕ) → leb low k ≡ true → setting_at_least low (whole k) ≡ some k
setting_at_least-valid low k h = ground arith

setting_at_least-invalid : (low k : ℕ) → leb low k ≡ false → setting_at_least low (whole k) ≡ none
setting_at_least-invalid low k h = ground arith

module _ {F : Type 0} ⦃n : Number F⦄ where
  -- What a tuning gives: whether it is a success, its configuration, and the feed.
  abbrev pub IsTuned : Bool → F → PriceFeed F → TuneResult F × PriceFeed F → Type 0
  IsTuned valid max_age set (r, after) =
      (r.success ≡ valid)
      × (r.config ≡ (if valid then some (after.cache_duration, after.price_data_max_age) else none))
      × (after
          ≡ record set { price_data_max_age = if valid then max_age else set.price_data_max_age })

  tune_max_age_lem :
      (max_age : Option Setting) (set : PriceFeed F)
      → IsTuned
          (is_valid 60 max_age)
          (asked int max_age set.price_data_max_age)
          set
          (tune_max_age max_age set)
  unfolding tune_max_age
  tune_max_age_lem none set = (refl, refl, refl)
  tune_max_age_lem (some not_whole) set = (refl, refl, refl)
  tune_max_age_lem (some (whole k)) set = elim (Bool-cases (leb 60 k)) [
    | inl e ↦ rw (tune_max_age, setting_at_least-valid 60 k e, e) (refl, refl, refl)
    | inr e ↦ rw (tune_max_age, setting_at_least-invalid 60 k e, e) (refl, refl, refl)
  ]

  -- The bound on the duration, once the tuning of the maximal age has left it.
  bound :
      (before : ℕ) (set : PriceFeed F) (max_age : F) {after : PriceFeed F}
      → after ≡ record set { price_data_max_age = max_age }
      → min 1000 before ≤ set.cache_duration
      → min 1000 before ≤ after.cache_duration
  bound before set max_age e h = rw e h

  -- A tuning succeeds exactly if each option that is given is a whole number, of at least 1000 for
  -- the duration and at least 60 for the maximal age; its configuration is then the two settings in
  -- force, and none otherwise. A valid duration is set even where the call is refused for the maximal
  -- age, which is set only by a success; every other field is left as it was. A duration of at least
  -- a second stays one.
  pub tune_cache_settings_settings :
      (duration max_age : Option Setting) (feed : PriceFeed F)
      → let (r, after) = tune_cache_settings duration max_age feed in
        let valid = is_valid 1000 duration && is_valid 60 max_age in
        (r.success ≡ valid)
        × (r.config
            ≡ (if valid then some (after.cache_duration, after.price_data_max_age) else none))
        × (after ≡ record feed {
          cache_duration =
              if is_valid 1000 duration
              then asked (λ k. k) duration feed.cache_duration
              else feed.cache_duration;
          price_data_max_age =
              if valid then asked int max_age feed.price_data_max_age else feed.price_data_max_age;
        })
        × (min 1000 feed.cache_duration ≤ after.cache_duration)
  unfolding tune_cache_settings
  tune_cache_settings_settings none max_age feed =
      let tuning = tune_max_age_lem max_age feed in
      (tuning.0, tuning.1, tuning.2, bound feed.cache_duration feed _ tuning.2 (omega arith))
  tune_cache_settings_settings (some not_whole) max_age feed = (refl, refl, refl, omega arith)
  tune_cache_settings_settings (some (whole k)) max_age feed = elim (Bool-cases (leb 1000 k)) [
    | inl e ↦
        let set : PriceFeed F = record feed { cache_duration = k } in
        let tuning = tune_max_age_lem max_age set in
        rw (tune_cache_settings, setting_at_least-valid 1000 k e, e)
          (
            tuning.0,
            tuning.1,
            tuning.2,
            bound feed.cache_duration set _ tuning.2 (ground (arith, e)),
          )
    | inr e ↦
        rw (tune_cache_settings, setting_at_least-invalid 1000 k e, e)
          (refl, refl, refl, omega arith)
  ]

-- One lookup of an asset for every time that it is in the list.
abbrev pub count : String → List String → ℕ
count key [] = 0
count key (asset ∷ assets) = (if str_eq asset key then 1 else 0) + count key assets

abbrev pub lookups : CacheStats → ℕ
lookups stats = stats.hits + stats.misses

abbrev one_more : Bool → ℕ → CacheStats → CacheStats
one_more true age stats = record stats { hits = suc stats.hits; last_age_ms = age }
one_more false age stats = record stats { misses = suc stats.misses }

one_more-same :
    (is_hit : Bool) (age : ℕ) (stats : CacheStats)
    → one_more is_hit age stats ≡ (
        if is_hit
        then record stats { hits = suc stats.hits; last_age_ms = age }
        else record stats { misses = suc stats.misses })
one_more-same true age stats = refl
one_more-same false age stats = refl

lookups-one_more :
    (is_hit : Bool) (age : ℕ) (stats : CacheStats)
    → lookups (one_more is_hit age stats) ≡ 1 + lookups stats
lookups-one_more true age stats = omega arith
lookups-one_more false age stats = omega arith

update_cache_stats_lem :
    (asset key : String) (is_hit : Bool) (age : ℕ) (table : Table CacheStats)
    → lookups (stats_of (update_cache_stats asset is_hit age table) key)
      ≡ (if str_eq asset key then 1 else 0) + lookups (stats_of table key)
unfolding update_cache_stats
update_cache_stats_lem asset key is_hit age table =
    let added = one_more is_hit age (stats_of table asset) in
    subst
      (λ (stats : CacheStats).
        lookups (stats_of (insert asset stats table) key)
        ≡ (if str_eq asset key then 1 else 0) + lookups (stats_of table key))
      (one_more-same is_hit age (stats_of table asset))
      (elim (Bool-cases (str_eq asset key)) [
        | inl e ↦ rw e (
            subst
              (λ k.
                lookups (stats_of (insert asset added table) k) ≡ 1 + lookups (stats_of table k))
              ((eq_iff asset key).0 e)
              (rw (get_or-insert asset added no_stats table) (lookups-one_more is_hit age _)))
        | inr e ↦ rw (e, get_or-insert_ne asset key added no_stats table e) (omega arith)
      ])

module _ {F : Type 0} where
  add_cached-lookups :
      (now : ℕ) (acc : PricesMap F × PriceFeed F) (asset key : String)
      → lookups (stats_of (add_cached now acc asset).1.cache_stats key)
        ≡ (if str_eq asset key then 1 else 0) + lookups (stats_of acc.1.cache_stats key)
  unfolding add_cached
  add_cached-lookups now (prices, feed) asset key =
      elim (Option-cases (lookup asset feed.price_cache)) [
        | inl e ↦ rw (add_cached, e) (update_cache_stats_lem asset key false 0 feed.cache_stats)
        | inr (cached, e) ↦ elim (Bool-cases (is_live now feed cached)) [
          | inl live ↦
              rw (add_cached, e, live) (update_cache_stats_lem asset key true _ feed.cache_stats)
          | inr old ↦
              rw (add_cached, e, old) (update_cache_stats_lem asset key false 0 feed.cache_stats)
        ]
      ]

  rounds-lookups :
      (now : ℕ) (assets : List String) (acc : PricesMap F × PriceFeed F) (key : String)
      → lookups (stats_of (foldl (add_cached now) acc assets).1.cache_stats key)
        ≡ count key assets + lookups (stats_of acc.1.cache_stats key)
  rounds-lookups now [] acc key = omega arith
  rounds-lookups now (asset ∷ assets) acc key =
      let rest = rounds-lookups now assets (add_cached now acc asset) key in
      let first = add_cached-lookups now acc asset key in omega arith

  -- Every lookup counts once: the hits and misses of an asset grow together by the times that the
  -- asset is in the list.
  pub get_cached_prices-lookups :
      (now : ℕ) (assets : List String) (feed : PriceFeed F) (key : String)
      → lookups (stats_of (get_cached_prices now assets feed).1.cache_stats key)
        ≡ count key assets + lookups (stats_of feed.cache_stats key)
  unfolding get_cached_prices
  get_cached_prices-lookups now assets feed key = rounds-lookups now assets ([], feed) key
