-- ===== src/TaxReport/Entries.antt =====
-- The entries of a report are the two halves of the trades.
use stellar_portfolio_rebala.Prelude.{
  String, ◌≡◌, refl, inl, inr, false, ◌||◌, Option, List, [], ◌∷◌, ◌++◌, foldl, str_eq, arith,
  Bool-cases, Option-cases,
}
use stellar_portfolio_rebala.Number.{Number, int}
use stellar_portfolio_rebala.TaxReport.{
  buy, sell, TaxReportEntry, TradeEvent, Report, get_price_estimate, add_trade, add_event,
  fifo_compute_report,
}

module _ {F : Type 0} ⦃n : Number F⦄ where
  open n use {sub, mul, div, le}

  -- A sale, and the purchase that its proceeds pay for.
  pub record IsTrade (sale purchase : TaxReportEntry F) : Type 0 where
    pub is_sale : sale.type ≡ sell
    pub is_purchase : purchase.type ≡ buy
    pub same_date : purchase.date ≡ sale.date
    pub gain : sale.realized_gain_loss ≡ sub (mul sale.amount sale.price) sale.cost_basis
    pub no_gain : purchase.realized_gain_loss ≡ int 0
    pub same_value : purchase.amount ≡ div (mul sale.amount sale.price) purchase.price
    pub basis : purchase.cost_basis ≡ mul purchase.amount purchase.price
    pub sold_some : le sale.amount (int 0) ≡ false
    pub sold_priced : le sale.price (int 0) ≡ false
    pub bought_priced : le purchase.price (int 0) ≡ false

  abbrev pub IsTrades : List (TaxReportEntry F) → Type 0
  IsTrades [] = Unit
  IsTrades (sale ∷ []) = ⊥
  IsTrades (sale ∷ purchase ∷ entries) = IsTrade sale purchase × IsTrades entries

  IsTrades-append :
      (xs ys : List (TaxReportEntry F)) → IsTrades xs → IsTrades ys → IsTrades (xs ++ ys)
  IsTrades-append [] ys h l = l
  IsTrades-append (sale ∷ []) ys h l = absurd h
  IsTrades-append (sale ∷ purchase ∷ xs) ys h l = (h.0, IsTrades-append xs ys h.1 l)

  add_trade-IsTrades :
      (date from_asset to_asset : String) (amount from_price to_price : F) (r : Report F)
      → le amount (int 0) ≡ false
      → le from_price (int 0) ≡ false
      → le to_price (int 0) ≡ false
      → IsTrades r.entries
      → IsTrades (add_trade date from_asset to_asset amount from_price to_price r).entries
  unfolding add_trade
  add_trade-IsTrades date from_asset to_asset amount from_price to_price r some_sold from_priced
        to_priced h =
      IsTrades-append r.entries _ h (
        record {
          is_sale = refl;
          is_purchase = refl;
          same_date = refl;
          gain = refl;
          no_gain = refl;
          same_value = refl;
          basis = refl;
          sold_some = some_sold;
          sold_priced = from_priced;
          bought_priced = to_priced;
        },
        tt,
      )

  add_event-IsTrades :
      (snapshot : String → Option F) (r : Report F) (event : TradeEvent F)
      → IsTrades r.entries
      → IsTrades (add_event snapshot r event).entries
  unfolding add_event
  add_event-IsTrades snapshot r event h = elim (Option-cases event.from_asset) [
    | inl e ↦ rw (e, add_event) h
    | inr (from_asset, e) ↦ elim (Option-cases event.to_asset) [
      | inl e' ↦ rw (e, add_event, e') h
      | inr (to_asset, e') ↦ elim (Option-cases event.amount) [
        | inl e'' ↦ rw (e, add_event, e', e'') h
        | inr (amount, e'') ↦
            let from_price = get_price_estimate snapshot from_asset in
            let to_price = get_price_estimate snapshot to_asset in
            elim (Bool-cases (str_eq from_asset "" || str_eq to_asset "")) [
              | inl unnamed ↦ rw (e, add_event, e', e'', unnamed) h
              | inr named ↦
                  elim (Bool-cases
                    (le from_price (int 0) || le to_price (int 0) || le amount (int 0))) [
                      | inl passed ↦ rw (e, add_event, e', e'', named, passed) h
                      | inr traded ↦
                          rw (e, add_event, e', e'', named, traded)
                            (add_trade-IsTrades event.timestamp from_asset to_asset amount
                              from_price to_price r (ground (arith, traded))
                              (ground (arith, traded)) (ground (arith, traded)) h)
                    ]
            ]
      ]
    ]
  ]

  events-IsTrades :
      (snapshot : String → Option F) (events : List (TradeEvent F)) (r : Report F)
      → IsTrades r.entries
      → IsTrades (foldl (add_event snapshot) r events).entries
  events-IsTrades snapshot [] r h = h
  events-IsTrades snapshot (event ∷ events) r h =
      events-IsTrades snapshot events (add_event snapshot r event)
        (add_event-IsTrades snapshot r event h)

  -- The entries of a report come in pairs, a sale and then a purchase of the same date. A sale's gain
  -- is its value less its cost basis. The amount bought is the sale's value divided by the price of
  -- what is bought; its cost basis is that amount times the price, and it has no gain. No amount sold
  -- and no price is zero or negative.
  pub fifo_compute_report-IsTrades :
      (snapshot : String → Option F) (events : List (TradeEvent F))
      → IsTrades (fifo_compute_report snapshot events)
  unfolding fifo_compute_report
  fifo_compute_report-IsTrades snapshot events =
      events-IsTrades snapshot events (record { lots_by_asset = []; entries = [] }) tt
