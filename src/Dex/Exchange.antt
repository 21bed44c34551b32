-- ===== src/Dex/Exchange.antt =====
-- The order book, the offers of an account, and the trades of a transaction.
use stellar_portfolio_rebala.Prelude.{
  ℕ, String, ◌&&◌, ◌||◌, Option, none, some, List, [], ◌∷◌, foldl, str_eq, template, take_text,
  if◌then◌else◌,
}
use stellar_portfolio_rebala.Prelude.Table.{Table, insert, has}
use stellar_portfolio_rebala.Number.{Number, int, gt}
use stellar_portfolio_rebala.Decimal.{round_stellar, format_stellar}
use stellar_portfolio_rebala.Async.{Run, ◌>>=◌, ◌>>◌, pure, catching}
use stellar_portfolio_rebala.Dex.Types.{
  Float, MarketAssessment, Asset, native, credit, RawOfferAsset, RawOfferRecord, Level, OrderBook,
  Keypair, TradeRecord, Horizon,
}

abbrev pub list_or_empty {ℓ} : {A : Type ℓ} → Option (List A) → List A
list_or_empty none = []
list_or_empty (some xs) = xs

-- `text || fallback`
abbrev pub text_or_else : String → String → String
text_or_else s fallback = if str_eq s "" then fallback else s

unfoldable pub asset_to_key : Asset → String
asset_to_key native = "XLM"
asset_to_key (credit code issuer) = template (code ∷ ":" ∷ issuer ∷ [])

-- A field that is missing prints as `undefined`.
abbrev pub show_field : Option String → String
show_field none = "undefined"
show_field (some s) = s

unfoldable pub raw_offer_asset_to_key : RawOfferAsset → String
raw_offer_asset_to_key asset =
    if str_eq asset.asset_type "native"
    then "XLM"
    else template (show_field asset.asset_code ∷ ":" ∷ show_field asset.asset_issuer ∷ [])

unfoldable pub find_new_offer :
    Table RawOfferRecord → Table RawOfferRecord → Asset → Asset → Option RawOfferRecord
find_new_offer before [] from_asset to_asset = none
find_new_offer before ((offer_id, offer) ∷ after) from_asset to_asset =
    let rest = find_new_offer before after from_asset to_asset in
    if has offer_id before
    then rest
    else if str_eq (raw_offer_asset_to_key offer.selling) (asset_to_key from_asset)
        && str_eq (raw_offer_asset_to_key offer.buying) (asset_to_key to_asset)
    then some offer
    else rest

unfoldable pub offers_by_id : List RawOfferRecord → Table RawOfferRecord
offers_by_id records = foldl (λ map offer. insert offer.id offer map) [] records

unfoldable pub build_trade_memo : String → String
build_trade_memo trade_id = take_text 28 (template ("RB " ∷ trade_id ∷ []))

module _ {H : Type 0} ⦃horizon : Horizon H⦄ where
  unfoldable pub get_open_offers_by_id : String → Run H (Table RawOfferRecord)
  get_open_offers_by_id account_id = do
    records ← horizon.offers account_id
    pure (offers_by_id (list_or_empty records))

module _ {F : Type 0} ⦃n : Number F⦄ where
  open n use {add, sub, mul, div, to_fixed}

  abbrev pub amount_to_string : F → String
  amount_to_string amount = to_fixed (round_stellar amount) 7

  module _ ⦃float : Float F⦄ where
    open float use {parse_float}

    abbrev pub best_price : List Level → F
    best_price [] = int 0
    best_price (level ∷ levels) = parse_float level.price

    unfoldable pub available_liquidity : List Level → F
    available_liquidity bids =
        foldl (λ sum bid. add sum (parse_float (text_or_else bid.amount "0"))) (int 0) bids

    -- What the best prices say, once the order book is read.
    unfoldable pub market_of : OrderBook → F → MarketAssessment F
    market_of book amount =
        let bids = list_or_empty book.bids in
        let best_bid = best_price bids in
        let best_ask = best_price (list_or_empty book.asks) in
        if n.le best_bid (int 0)
        then record {
          reference_price = if gt best_ask (int 0) then best_ask else int 0;
          spread_bps = float.positive_infinity;
          liquidity_coverage = int 0;
        }
        else record {
          reference_price = best_bid;
          spread_bps =
              if gt best_ask (int 0) && gt best_bid (int 0)
              then mul (div (sub best_ask best_bid) best_ask) (int 10_000)
              else int 0;
          liquidity_coverage = div (available_liquidity bids) amount;
        }

    abbrev finite_or_zero : F → F
    finite_or_zero x = if n.is_finite x then x else int 0

    abbrev add_trade : F × F → TradeRecord → F × F
    add_trade (base, counter) trade = (
      add base (finite_or_zero (parse_float (text_or_else trade.base_amount "0"))),
      add counter (finite_or_zero (parse_float (text_or_else trade.counter_amount "0"))),
    )

    unfoldable pub average_price : List TradeRecord → Option F
    average_price [] = none
    average_price (trade ∷ trades) =
        let (base, counter) = foldl add_trade (int 0, int 0) (trade ∷ trades) in
        if n.le base (int 0) || n.le counter (int 0) then none else some (div counter base)

    -- The price at which an offer is cancelled.
    unfoldable pub cancel_price : String → F
    cancel_price price =
        let parsed = parse_float (text_or_else price "1") in
        if n.is_finite parsed && gt parsed (int 0) then parsed else int 1

    module _ {H : Type 0} ⦃horizon : Horizon H⦄ where
      open horizon use {orderbook, trades}

      unfoldable pub assess_market : Asset → Asset → F → Run H (MarketAssessment F)
      assess_market from_asset to_asset amount = do
        book ← orderbook from_asset to_asset
        pure (market_of book amount)

      -- Never throws.
      unfoldable pub try_get_average_trade_price : String → Run H (Option F)
      try_get_average_trade_price tx_hash =
          catching (λ message. none)
            (do records ← trades tx_hash; pure (average_price (list_or_empty records)))

module _ (F : Type 0) ⦃n : Number F⦄ ⦃float : Float F⦄ {H : Type 0} ⦃horizon : Horizon H⦄ where
  open horizon use {load_account, submit}

  unfoldable pub cancel_offer : Keypair → RawOfferRecord → Asset → Asset → ℕ → Run H (Unit {0})
  cancel_offer signer offer from_asset to_asset base_fee = do
    account ← load_account signer.public_key
    submit signer account base_fee
        (record {
          selling = from_asset;
          buying = to_asset;
          amount = "0";
          price = format_stellar (cancel_price {F = F} offer.price);
          offer_id = offer.id;
        })
        "Rebalance cleanup"
    pure tt
