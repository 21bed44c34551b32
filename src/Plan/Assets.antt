-- ===== src/Plan/Assets.antt =====
-- The assets of a plan: which they are, their trades, and the counts that the plan sums up.
use mathlib.Core.List.{append-nil, append_assoc}
use stellar_portfolio_rebala.Prelude.{
  ℕ, suc, ◌+◌, String, ◌≡◌, refl, sym, ap, subst, ◌∙◌, Bool, false, ◌||◌, some, List, [], ◌∷◌, ◌++◌,
  map, foldl, arith, length, filter, any, if◌then◌else◌, eq_iff, str_eq,
}
use stellar_portfolio_rebala.Prelude.Table.{Table, lookup, insert, get_or, has, keys, lookup-insert}
use stellar_portfolio_rebala.Prelude.Sort.{
  text_le, text_le_total, unique_after, includes, IsSorted, IsDistinct, sort-IsSorted,
  sort-IsDistinct, any-sort, includes-unique_after, unique_after-IsDistinct,
}
use stellar_portfolio_rebala.Number.{Number, int}
use stellar_portfolio_rebala.Market.{PriceData}
use stellar_portfolio_rebala.Decimal
use stellar_portfolio_rebala.Decimal.{percentage}
use stellar_portfolio_rebala.Plan.{
  Portfolio, RebalanceAssetPlan, asset_symbols, is_trade, price_of, add_value, plan_assets, project,
}

any-append : {A : Type 0} (p : A → Bool) (xs ys : List A) → any p (xs ++ ys) ≡ any p xs || any p ys
any-append p [] ys = refl
any-append p (x ∷ xs) ys = ground (arith, any-append p xs ys)

includes-keys : {V : Type 0} (k : String) (m : Table V) → includes k (keys m) ≡ has k m
unfolding lookup
includes-keys k [] = refl
includes-keys k (e ∷ m) = ground (arith, includes-keys k m, eq_iff k e.0, eq_iff e.0 k)

absent_of_distinct :
    (ks : List String) (a : String) (rest : List String)
    → IsDistinct (ks ++ a ∷ rest)
    → includes a ks ≡ false
absent_of_distinct [] a rest h = refl
absent_of_distinct (k ∷ ks) a rest h = ground (
  arith,
  absent_of_distinct ks a rest h.1,
  any-append (λ y. str_eq k y) ks (a ∷ rest),
  h.0,
  eq_iff k a,
  eq_iff a k,
)

keys_snoc :
    {V : Type 0} (t : Table V) (e : String × V) (ks : List String)
    → keys t ++ e.0 ∷ ks ≡ keys (t ++ e ∷ []) ++ ks
keys_snoc [] e ks = refl
keys_snoc (first ∷ t) e ks = ap (λ rest. first.0 ∷ rest) (keys_snoc t e ks)

-- The assets of a plan are the keys of the allocations and of the balances, each once, in order.
pub asset_symbols_union :
    {F : Type 0} (portfolio : Portfolio F) (asset : String)
    → IsSorted text_le (asset_symbols portfolio)
      × IsDistinct (asset_symbols portfolio)
      × (includes asset (asset_symbols portfolio)
          ≡ has asset portfolio.allocations || has asset portfolio.balances)
unfolding asset_symbols
asset_symbols_union portfolio asset =
    let all_keys = keys portfolio.allocations ++ keys portfolio.balances in
    (
      sort-IsSorted text_le text_le_total (unique_after [] all_keys),
      sort-IsDistinct (unique_after [] all_keys) (unique_after-IsDistinct [] all_keys),
      any-sort text_le (λ y. str_eq asset y) (unique_after [] all_keys)
          ∙ includes-unique_after asset [] all_keys
          ∙ any-append (λ y. str_eq asset y) (keys portfolio.allocations) (keys portfolio.balances)
          ∙ cc (includes-keys asset portfolio.allocations, includes-keys asset portfolio.balances),
    )

abbrev pub set_share :
    {F : Type 0} → ⦃n : Number F⦄ → F → RebalanceAssetPlan F → RebalanceAssetPlan F
set_share total p = record p { projected_allocation_percent = percentage p.projected_value total }

module _ {F : Type 0} ⦃n : Number F⦄ where
  pub plan_assets-map :
      (plan : String → RebalanceAssetPlan F) (assets : List String) (count : ℕ)
      → (plan_assets plan assets count).0 ≡ map plan assets
  unfolding plan_assets
  plan_assets-map plan [] count = refl
  plan_assets-map plan (asset ∷ assets) count =
      ap (λ ps. plan asset ∷ ps) (plan_assets-map plan assets _)

  pub project-map :
      (total : F) (ps : List (RebalanceAssetPlan F)) (t : Table F)
      → (project total ps t).0 ≡ map (set_share total) ps
  unfolding project
  project-map total [] t = refl
  project-map total (p ∷ ps) t = ap (λ qs. set_share total p ∷ qs) (project-map total ps _)

  pub plan_assets-count :
      (plan : String → RebalanceAssetPlan F) (assets : List String) (count : ℕ)
      → (plan_assets plan assets count).1
        ≡ count + length (filter (λ p. is_trade p.action) (map plan assets))
  unfolding plan_assets
  plan_assets-count plan [] count = omega arith
  plan_assets-count plan (asset ∷ assets) count =
      let rest =
        plan_assets-count plan assets (if is_trade (plan asset).action then suc count else count) in
      ground (arith, rest)

  insert_new :
      (k : String) (v : F) (t : Table F)
      → includes k (keys t) ≡ false
      → insert k v t ≡ t ++ (k, v) ∷ []
  unfolding insert
  insert_new k v [] h = refl
  insert_new k v (e ∷ t) h = ground (arith, insert_new k v t, eq_iff e.0 k, eq_iff k e.0)

  abbrev pub share_of : F → RebalanceAssetPlan F → String × F
  share_of total p = (p.asset, percentage p.projected_value total)

  pub project-shares :
      (total : F) (ps : List (RebalanceAssetPlan F)) (t : Table F)
      → IsDistinct (keys t ++ map (λ p. p.asset) ps)
      → (project total ps t).1 ≡ t ++ map (share_of total) ps
  unfolding project
  project-shares total [] t h = sym (append-nil t)
  project-shares total (p ∷ ps) t h =
      let e = share_of total p in
      let grown = insert_new p.asset e.1 t (absent_of_distinct (keys t) p.asset _ h) in
      let distinct = subst IsDistinct (keys_snoc t e (map (λ q. q.asset) ps)) h in
      rw grown (project-shares total ps (t ++ e ∷ []) distinct ∙ append_assoc t (e ∷ []) _)

  abbrev pub value_of : Portfolio F → Table (PriceData F) → String → F
  value_of portfolio prices asset =
      Decimal.mul (get_or asset portfolio.balances (int 0)) (price_of prices asset)

  pub lookup-add_values :
      (portfolio : Portfolio F) (prices : Table (PriceData F)) (asset : String)
      (assets : List String)
      → (t : Table F × F)
      → lookup asset (foldl (add_value portfolio prices) t assets).0 ≡ (
          if includes asset assets
          then some (value_of portfolio prices asset)
          else lookup asset t.0)
  lookup-add_values portfolio prices asset [] t = refl
  lookup-add_values portfolio prices asset (x ∷ assets) t =
      let rest = lookup-add_values portfolio prices asset assets (add_value portfolio prices t x) in
      ground (
        arith,
        rest,
        lookup-insert x asset (value_of portfolio prices x) t.0,
        eq_iff x asset,
        eq_iff asset x,
      )
