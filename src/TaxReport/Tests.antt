-- ===== src/TaxReport/Tests.antt =====
-- Reports of two trades, and the theorems at concrete inputs.
use stellar_portfolio_rebala.Prelude.{
  ℕ, suc, ◌≤◌, ◌≡◌, refl, String, false, Option, none, some, List, [], ◌∷◌, length, map,
}
use stellar_portfolio_rebala.Prelude.Table.{lookup, insert}
use stellar_portfolio_rebala.Number.{int}
use stellar_portfolio_rebala.Number.Fixed.{
  Fixed, fixed_number, Fixed-IsOrdered, Fixed-IsSubtractive,
}
use stellar_portfolio_rebala.TaxReport.{
  TaxLot, TradeEvent, goes_on, sell_lots, consume_lot, consume_lots, get_price_estimate, add_trade,
  add_event, fifo_compute_report,
}
use stellar_portfolio_rebala.TaxReport.Lots.{sell_lots_done}
use stellar_portfolio_rebala.TaxReport.Entries.{IsTrades, fifo_compute_report-IsTrades}

abbrev lot : ℕ → ℕ → TaxLot Fixed
lot amount cost = record {
  asset = "XLM";
  date = "2026-01-01";
  amount = int amount;
  price = int 1;
  cost_basis = int cost;
}

abbrev lots : List (TaxLot Fixed)
lots = lot 10 20 ∷ lot 5 15 ∷ []

-- A sale of 12 takes the first lot and 2 of the second.
twelve_sold : (sell_lots (int 12) lots).total_cost_basis ≡ int 26
unfolding consume_lots consume_lot
twelve_sold = refl

sell_lots_done_example :
    (goes_on (sell_lots (int 12) lots) ≡ false)
    × ((rounds : ℕ)
        → suc (length lots) ≤ rounds
        → consume_lots rounds
            (record { remaining_to_sell = int 12; total_cost_basis = int 0; lots = lots })
          ≡ sell_lots (int 12) lots)
sell_lots_done_example =
    sell_lots_done Fixed-IsOrdered Fixed-IsSubtractive (int 12) lots (refl, (refl, tt))

abbrev no_snapshot : String → Option Fixed
no_snapshot asset = none

abbrev trade : String → String → ℕ → TradeEvent Fixed
trade from_asset to_asset amount = record {
  timestamp = "2026-02-01";
  from_asset = some from_asset;
  to_asset = some to_asset;
  amount = some (int amount);
}

abbrev events : List (TradeEvent Fixed)
events = trade "XLM" "USDC" 100 ∷ trade "USDC" "XLM" 45 ∷ []

-- The second sale sells what the first trade bought, without a gain.
gains :
    map (λ e. e.realized_gain_loss) (fifo_compute_report no_snapshot events)
    ≡ int 45 ∷ int 0 ∷ int 0 ∷ int 0 ∷ []
unfolding fifo_compute_report add_event add_trade get_price_estimate consume_lots consume_lot lookup
    insert
gains = refl

fifo_compute_report-IsTrades_example : IsTrades (fifo_compute_report no_snapshot events)
fifo_compute_report-IsTrades_example = fifo_compute_report-IsTrades no_snapshot events
