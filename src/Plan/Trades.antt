-- ===== src/Plan/Trades.antt =====
-- What a plan says of its assets: their values and shares, the trades and their number.
use native.Mathlib.Nat.{zero-add}
use stellar_portfolio_rebala.Prelude.{
  ℕ, String, ◌≡◌, refl, sym, ap, subst, ◌∙◌, ◌⊎◌, true, false, Option, none, some, List, [], ◌∷◌,
  map, foldl, length, filter, get_elem?, if◌then◌else◌,
}
use stellar_portfolio_rebala.Prelude.Table.{Table, lookup, get_or}
use stellar_portfolio_rebala.Prelude.Sort.{includes, IsDistinct}
use stellar_portfolio_rebala.Number.{Number, int, gt, IsNum, ◌≼◌, IsOrdered}
use stellar_portfolio_rebala.Market.{PriceData}
use stellar_portfolio_rebala.Decimal
use stellar_portfolio_rebala.Plan.{
  sell, hold, Portfolio, RebalanceAssetPlan, asset_symbols, is_trade, price_of, add_value,
  values_by_asset, plan_asset, build_rebalance_plan,
}
use stellar_portfolio_rebala.Prelude.Maps.{
  map-members, map-map, map_same, filter-map, get_elem?-map,
}
use stellar_portfolio_rebala.Plan.Quantities.{quantities_one_side, untraded, balance_after-sell}
use stellar_portfolio_rebala.Plan.Assets.{
  asset_symbols_union, set_share, plan_assets-map, project-map, plan_assets-count, project-shares,
  lookup-add_values, value_of, share_of,
}

module _ {F : Type 0} ⦃n : Number F⦄ where
  -- Each asset of the plan before the loop that sets the shares.
  abbrev planned : Portfolio F → Table (PriceData F) → String → RebalanceAssetPlan F
  planned portfolio prices =
      let both = values_by_asset portfolio prices in plan_asset portfolio prices both.0 both.1

  abbrev projected_total : Portfolio F → Table (PriceData F) → F
  projected_total portfolio prices =
      foldl (λ sum p. Decimal.add sum p.projected_value) (int 0)
        (map (planned portfolio prices) (asset_symbols portfolio))

  planned-asset :
      (portfolio : Portfolio F) (prices : Table (PriceData F))
      → map (λ p. p.asset) (map (planned portfolio prices) (asset_symbols portfolio))
        ≡ asset_symbols portfolio
  unfolding plan_asset
  planned-asset portfolio prices =
      map-map (λ p. p.asset) (planned portfolio prices) (asset_symbols portfolio)
      ∙ map_same (λ a. a) (asset_symbols portfolio) (λ a. refl)

  planned-IsDistinct :
      (portfolio : Portfolio F) (prices : Table (PriceData F))
      → IsDistinct (map (λ p. p.asset) (map (planned portfolio prices) (asset_symbols portfolio)))
  planned-IsDistinct portfolio prices =
      subst IsDistinct (sym (planned-asset portfolio prices)) (asset_symbols_union portfolio "").1

  planned-value :
      (portfolio : Portfolio F) (prices : Table (PriceData F)) (asset : String)
      → includes asset (asset_symbols portfolio) ≡ true
      → (planned portfolio prices asset).current_value ≡ value_of portfolio prices asset
  unfolding plan_asset values_by_asset lookup
  planned-value portfolio prices asset h =
      let found = lookup-add_values portfolio prices asset (asset_symbols portfolio) ([], int 0) in
      let value = value_of portfolio prices asset in
      let chosen = ap (λ b. if b then some value else none) h in
      ap (λ (o : Option F). elim o [ none ↦ int 0 | some v ↦ v ]) (found ∙ chosen)

  total-add_values :
      (portfolio : Portfolio F) (prices : Table (PriceData F)) (assets : List String)
      (t : Table F × F)
      → (foldl (add_value portfolio prices) t assets).1
        ≡ foldl Decimal.add t.1 (map (value_of portfolio prices) assets)
  total-add_values portfolio prices [] t = refl
  total-add_values portfolio prices (a ∷ assets) t =
      total-add_values portfolio prices assets (add_value portfolio prices t a)

  module _ {Meta : Type 0} where
    assets-build :
        (fee : Option String) (portfolio : Portfolio F) (prices : Table (PriceData F)) (meta : Meta)
        → (build_rebalance_plan fee portfolio prices meta).assets
          ≡ map
              (λ a. set_share (projected_total portfolio prices) (planned portfolio prices a))
              (asset_symbols portfolio)
    unfolding build_rebalance_plan
    assets-build fee portfolio prices meta =
        let symbols = asset_symbols portfolio in
        rw (plan_assets-map (planned portfolio prices) symbols 0) (
          project-map (projected_total portfolio prices) (map (planned portfolio prices) symbols) []
          ∙ map-map (set_share (projected_total portfolio prices)) (planned portfolio prices)
              symbols)

    allocations-build :
        (fee : Option String) (portfolio : Portfolio F) (prices : Table (PriceData F)) (meta : Meta)
        → (build_rebalance_plan fee portfolio prices meta).projected_allocations
          ≡ map
              (share_of (projected_total portfolio prices))
              (map (planned portfolio prices) (asset_symbols portfolio))
    unfolding build_rebalance_plan
    allocations-build fee portfolio prices meta =
        rw (plan_assets-map (planned portfolio prices) (asset_symbols portfolio) 0) (
          project-shares (projected_total portfolio prices)
            (map (planned portfolio prices) (asset_symbols portfolio)) []
            (planned-IsDistinct portfolio prices))

    -- What holds of the entry of any asset holds of every entry of the plan.
    entry-build :
        (fee : Option String) (portfolio : Portfolio F) (prices : Table (PriceData F)) (meta : Meta)
        → (P : RebalanceAssetPlan F → Type 0)
        → ((a : String)
            → P (set_share (projected_total portfolio prices) (planned portfolio prices a)))
        → (i : ℕ) (p : RebalanceAssetPlan F)
        → get_elem? (build_rebalance_plan fee portfolio prices meta).assets i ≡ some p
        → P p
    entry-build fee portfolio prices meta P each i p h =
        let entry : String → RebalanceAssetPlan F =
          λ a. set_share (projected_total portfolio prices) (planned portfolio prices a) in
        let entries =
          ap (λ ps. get_elem? ps i) (sym (assets-build fee portfolio prices meta)) ∙ h in
        let found = get_elem?-map entry (asset_symbols portfolio) i p entries in
        subst P found.2 (each found.0)

    -- A plan has one entry for each asset, in order, and the table of projected shares is that of
    -- the entries.
    pub build_rebalance_plan_assets :
        (fee : Option String) (portfolio : Portfolio F) (prices : Table (PriceData F)) (meta : Meta)
        → (map (λ p. p.asset) (build_rebalance_plan fee portfolio prices meta).assets
            ≡ asset_symbols portfolio)
          × ((build_rebalance_plan fee portfolio prices meta).projected_allocations
              ≡ map
                  (λ p. (p.asset, p.projected_allocation_percent))
                  (build_rebalance_plan fee portfolio prices meta).assets)
    build_rebalance_plan_assets fee portfolio prices meta =
        let symbols = asset_symbols portfolio in
        let total = projected_total portfolio prices in
        (
          rw (assets-build fee portfolio prices meta) (
              map-map (λ p. p.asset) (λ a. set_share total (planned portfolio prices a)) symbols
              ∙ sym (map-map (λ p. p.asset) (planned portfolio prices) symbols)
              ∙ planned-asset portfolio prices),
          rw (assets-build fee portfolio prices meta, allocations-build fee portfolio prices meta)
              (map-map (share_of total) (planned portfolio prices) symbols
                ∙ sym (
                    map-map (λ p. (p.asset, p.projected_allocation_percent))
                      (λ a. set_share total (planned portfolio prices a)) symbols)),
        )

    -- The number of trades that the fees are computed from is the number of entries that buy or sell.
    pub build_rebalance_plan-trade_count :
        (fee : Option String) (portfolio : Portfolio F) (prices : Table (PriceData F)) (meta : Meta)
        → (build_rebalance_plan fee portfolio prices meta).estimated_fees.trade_count
          ≡ length (
              filter
                (λ p. is_trade p.action)
                (build_rebalance_plan fee portfolio prices meta).assets)
    unfolding build_rebalance_plan
    build_rebalance_plan-trade_count fee portfolio prices meta =
        let symbols = asset_symbols portfolio in
        let total = projected_total portfolio prices in
        plan_assets-count (planned portfolio prices) symbols 0
        ∙ zero-add _
        ∙ filter-map (λ p. is_trade p.action) (planned portfolio prices) symbols
        ∙ sym (
            filter-map (λ p. is_trade p.action) (λ a. set_share total (planned portfolio prices a))
              symbols)
        ∙ ap (λ ps. length (filter (λ p. is_trade p.action) ps))
            (sym (assets-build fee portfolio prices meta))

    -- Each entry's value is its balance times its price, and the total value is the sum of the
    -- values.
    pub build_rebalance_plan-values :
        (fee : Option String) (portfolio : Portfolio F) (prices : Table (PriceData F)) (meta : Meta)
        → (map (λ p. p.current_value) (build_rebalance_plan fee portfolio prices meta).assets
            ≡ map
                (λ p. Decimal.mul p.current_balance p.price)
                (build_rebalance_plan fee portfolio prices meta).assets)
          × ((build_rebalance_plan fee portfolio prices meta).total_value
              ≡ foldl Decimal.add (int 0) (
                  map
                    (λ p. p.current_value)
                    (build_rebalance_plan fee portfolio prices meta).assets))
    unfolding build_rebalance_plan plan_asset values_by_asset
    build_rebalance_plan-values fee portfolio prices meta =
        let symbols = asset_symbols portfolio in
        let entry : String → RebalanceAssetPlan F =
          λ a. set_share (projected_total portfolio prices) (planned portfolio prices a) in
        let valued =
          map-members (λ a. (entry a).current_value) (value_of portfolio prices) symbols
            (planned-value portfolio prices) in
        (
          rw (assets-build fee portfolio prices meta) (
              map-map (λ p. p.current_value) entry symbols
              ∙ valued
              ∙ sym (map-map (λ p. Decimal.mul p.current_balance p.price) entry symbols)),
          rw (assets-build fee portfolio prices meta) (
              total-add_values portfolio prices symbols ([], int 0)
              ∙ ap (foldl Decimal.add (int 0))
                  (sym (map-map (λ p. p.current_value) entry symbols ∙ valued))),
        )

    -- Without a positive price an entry trades nothing, and its balance stays.
    pub build_rebalance_plan-without_price :
        (order : IsOrdered F)
        → (fee : Option String) (portfolio : Portfolio F) (prices : Table (PriceData F))
          (meta : Meta)
        → (i : ℕ) (p : RebalanceAssetPlan F)
        → get_elem? (build_rebalance_plan fee portfolio prices meta).assets i ≡ some p
        → gt p.price (int 0) ≡ false
        → (p.action ≡ hold)
          × (p.buy_amount ≡ int 0)
          × (p.sell_amount ≡ int 0)
          × (p.projected_balance ≡ p.current_balance)
    unfolding plan_asset
    build_rebalance_plan-without_price order fee portfolio prices meta i p h e =
        entry-build fee portfolio prices meta
          (λ q.
            gt q.price (int 0) ≡ false
            → (q.action ≡ hold)
              × (q.buy_amount ≡ int 0)
              × (q.sell_amount ≡ int 0)
              × (q.projected_balance ≡ q.current_balance))
          (λ a. untraded order (get_or a portfolio.balances (int 0)) _ (price_of prices a)) i p h e

    -- No entry both buys and sells.
    pub build_rebalance_plan-one_side :
        (order : IsOrdered F)
        → (fee : Option String) (portfolio : Portfolio F) (prices : Table (PriceData F))
          (meta : Meta)
        → (i : ℕ) (p : RebalanceAssetPlan F)
        → get_elem? (build_rebalance_plan fee portfolio prices meta).assets i ≡ some p
        → (p.buy_amount ≡ int 0) ⊎ (p.sell_amount ≡ int 0)
    unfolding plan_asset
    build_rebalance_plan-one_side order fee portfolio prices meta i p h =
        entry-build fee portfolio prices meta
          (λ q. (q.buy_amount ≡ int 0) ⊎ (q.sell_amount ≡ int 0))
          (λ a. quantities_one_side order _ (price_of prices a)) i p h

    -- An entry that sells leaves a balance that is not negative, where it is a number.
    pub build_rebalance_plan-sell :
        (order : IsOrdered F)
        → (fee : Option String) (portfolio : Portfolio F) (prices : Table (PriceData F))
          (meta : Meta)
        → (i : ℕ) (p : RebalanceAssetPlan F)
        → get_elem? (build_rebalance_plan fee portfolio prices meta).assets i ≡ some p
        → p.action ≡ sell
        → IsNum p.projected_balance
        → int 0 ≼ p.projected_balance
    unfolding plan_asset
    build_rebalance_plan-sell order fee portfolio prices meta i p h sells num =
        entry-build fee portfolio prices meta
          (λ q. q.action ≡ sell → IsNum q.projected_balance → int 0 ≼ q.projected_balance)
          (λ a.
            balance_after-sell order (planned portfolio prices a).action
              (get_or a portfolio.balances (int 0)) _ _)
          i p h sells num
