-- ===== src/TaxReport.antt =====
-- backend/src/api/taxReport.routes.ts: the tax lots of a portfolio, first in, first out.
pub mod Lots
pub mod Entries
mod Tests
use stellar_portfolio_rebala.Prelude.{
  ℕ, suc, String, Bool, true, false, not, ◌&&◌, ◌||◌, zero, Option, none, some, List, [], ◌∷◌, ◌++◌,
  foldl, map, length, ltb, str_eq, template, join, if◌then◌else◌,
}
use stellar_portfolio_rebala.Prelude.Table.{Table, lookup, insert}
use stellar_portfolio_rebala.Number.{Number, int, gt}

pub record TaxLot (F : Type 0) : Type 0 where
  pub asset : String
  pub date : String
  pub amount : F
  pub price : F
  pub cost_basis : F

pub data EntryType : Type 0 where
  buy sell : EntryType

pub record TaxReportEntry (F : Type 0) : Type 0 where
  pub asset : String
  pub date : String
  pub type : EntryType
  pub amount : F
  pub price : F
  pub cost_basis : F
  pub realized_gain_loss : F

-- An event's timestamp and `details`: an amount that is there is what `Number` makes of it.
pub record TradeEvent (F : Type 0) : Type 0 where
  pub timestamp : String
  pub from_asset : Option String
  pub to_asset : Option String
  pub amount : Option F

-- What the inner loop changes.
pub record Sale (F : Type 0) : Type 0 where
  pub remaining_to_sell : F
  pub total_cost_basis : F
  pub lots : List (TaxLot F)

pub record Report (F : Type 0) : Type 0 where
  pub lots_by_asset : Table (List (TaxLot F))
  pub entries : List (TaxReportEntry F)

abbrev pub show_type : EntryType → String
show_type buy = "buy"
show_type sell = "sell"

abbrev pub or_empty {ℓ} : {A : Type ℓ} → Option (List A) → List A
or_empty none = []
or_empty (some xs) = xs

-- `assetLots.length > 0`
abbrev pub some_left : {A : Type 0} → List A → Bool
some_left [] = false
some_left (x ∷ xs) = true

module _ {F : Type 0} ⦃n : Number F⦄ where
  open n use {decimal, add, sub, mul, div, le, to_fixed}

  -- One round of the inner loop, which takes from the first lot.
  unfoldable pub consume_lot : TaxLot F → List (TaxLot F) → Sale F → Sale F
  consume_lot lot lots s =
      let consumed = n.min s.remaining_to_sell lot.amount in
      let cost = mul (div consumed lot.amount) lot.cost_basis in
      let left : TaxLot F = record lot {
        amount = sub lot.amount consumed;
        cost_basis = sub lot.cost_basis cost;
      } in
      record {
        remaining_to_sell = sub s.remaining_to_sell consumed;
        total_cost_basis = add s.total_cost_basis cost;
        lots = if le left.amount (decimal 1 8) then lots else left ∷ lots;
      }

  -- The condition of the loop.
  abbrev pub goes_on : Sale F → Bool
  goes_on s = gt s.remaining_to_sell (int 0) && some_left s.lots

  abbrev pub consume_first : List (TaxLot F) → Sale F → Sale F
  consume_first [] s = s
  consume_first (lot ∷ lots) s = consume_lot lot lots s

  -- The inner loop, on fuel.
  unfoldable pub consume_lots : ℕ → Sale F → Sale F
  consume_lots zero s = s
  consume_lots (suc fuel) s = elim (goes_on s) [
    | false ↦ s
    | true ↦ consume_lots fuel (consume_first s.lots s)
  ]

  abbrev pub fallback_prices : Table F
  fallback_prices =
      ("XLM", decimal 45 2)
      ∷ ("USDC", int 1)
      ∷ ("BTC", int 85_000)
      ∷ ("ETH", int 3400)
      ∷ ("yXLM", decimal 47 2)
      ∷ ("AQUA", decimal 1 3)
      ∷ []

  -- The latest price that the database has of an asset is an argument.
  unfoldable pub get_price_estimate : (String → Option F) → String → F
  get_price_estimate snapshot asset =
      let fallback : F = elim (lookup asset fallback_prices) [ none ↦ int 1 | some p ↦ p ] in
      elim (snapshot asset) [
        | none ↦ fallback
        | some price ↦ if gt price (int 0) then price else fallback
      ]

  -- A sale takes one round for each lot, and one for the lot that it leaves.
  abbrev pub sell_lots : F → List (TaxLot F) → Sale F
  sell_lots amount lots =
      consume_lots (suc (length lots))
        (record { remaining_to_sell = amount; total_cost_basis = int 0; lots = lots })

  -- The two halves of a trade.
  unfoldable pub add_trade : String → String → String → F → F → F → Report F → Report F
  add_trade date from_asset to_asset amount from_price to_price r =
      let sale = sell_lots amount (or_empty (lookup from_asset r.lots_by_asset)) in
      let to_amount = div (mul amount from_price) to_price in
      let sold = insert from_asset sale.lots r.lots_by_asset in
      let bought : TaxLot F = record {
        asset = to_asset;
        date = date;
        amount = to_amount;
        price = to_price;
        cost_basis = mul to_amount to_price;
      } in
      record {
        lots_by_asset = insert to_asset (or_empty (lookup to_asset sold) ++ bought ∷ []) sold;
        entries =
            r.entries
            ++ (record {
              asset = from_asset;
              date = date;
              type = sell;
              amount = amount;
              price = from_price;
              cost_basis = sale.total_cost_basis;
              realized_gain_loss = sub (mul amount from_price) sale.total_cost_basis;
            })
              ∷ (record {
                asset = to_asset;
                date = date;
                type = buy;
                amount = to_amount;
                price = to_price;
                cost_basis = mul to_amount to_price;
                realized_gain_loss = int 0;
              })
              ∷ [];
      }

  -- One round of the outer loop. A missing or empty asset, a missing amount, and a price or an
  -- amount that is not positive pass the event over.
  unfoldable pub add_event : (String → Option F) → Report F → TradeEvent F → Report F
  add_event snapshot r event = elim event.from_asset [
    | none ↦ r
    | some from_asset ↦ elim event.to_asset [
      | none ↦ r
      | some to_asset ↦ elim event.amount [
        | none ↦ r
        | some amount ↦
            let from_price = get_price_estimate snapshot from_asset in
            let to_price = get_price_estimate snapshot to_asset in
            if str_eq from_asset "" || str_eq to_asset ""
            then r
            else if le from_price (int 0) || le to_price (int 0) || le amount (int 0)
            then r
            else add_trade event.timestamp from_asset to_asset amount from_price to_price r
      ]
    ]
  ]

  unfoldable pub fifo_compute_report :
      (String → Option F) → List (TradeEvent F) → List (TaxReportEntry F)
  fifo_compute_report snapshot events =
      (foldl (add_event snapshot) (record { lots_by_asset = []; entries = [] }) events).entries

  abbrev csv_row : TaxReportEntry F → String
  csv_row e = join "," (
      e.asset
      ∷ e.date
      ∷ show_type e.type
      ∷ to_fixed e.amount 8
      ∷ to_fixed e.price 8
      ∷ to_fixed e.cost_basis 8
      ∷ to_fixed e.realized_gain_loss 8
      ∷ [])

  unfoldable pub to_csv : List (TaxReportEntry F) → String
  to_csv entries =
      join "\n" ("asset,date,type,amount,price,cost_basis,realized_gain_loss" ∷ map csv_row entries)
