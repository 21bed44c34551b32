-- ===== src/Plan/Quantities.antt =====
-- The quantities that an entry of a plan buys and sells, and the balance after the trade.
use stellar_portfolio_rebala.Prelude.{◌≡◌, refl, ◌⊎◌, inl, inr, true, false, arith, Bool-cases}
use stellar_portfolio_rebala.Number.{Number, int, gt, IsNum, ◌≼◌, IsOrdered}
use stellar_portfolio_rebala.Decimal
use stellar_portfolio_rebala.Plan.{
  Action, buy, sell, hold, min_trade_value, action_of, balance_after, buy_quantity, sell_quantity,
}
use stellar_portfolio_rebala.Plan.Assets.{}

module _ {F : Type 0} ⦃n : Number F⦄ where
  zero_not_positive : IsOrdered F → gt (int {F = F} 0) (int 0) ≡ false
  zero_not_positive order =
      let zero_le = order.decimal-le 0 0 0 (omega arith) in
      rw (order.lt-eq-not-le (int 0) (int 0) zero_le zero_le, zero_le) refl

  quantities-without_price :
      (diff price : F)
      → gt price (int 0) ≡ false
      → (buy_quantity diff price ≡ int 0) × (sell_quantity diff price ≡ int 0)
  unfolding buy_quantity sell_quantity
  quantities-without_price diff price h = (ground (arith, h), ground (arith, h))

  not_below_negative :
      IsOrdered F → (x y : F) → int 0 ≼ x → gt y x ≡ true → n.lt y (n.neg x) ≡ false
  not_below_negative order x y hx h =
      let (num_x, num_y) = order.num_of_lt x y h in
      let above = order.lt-eq-not-le x y num_x num_y in
      let below : n.neg x ≼ y = elim (order.le_total x y num_x num_y) [
        | inl x_le ↦
            order.le_trans (n.neg x) (int 0) y (order.neg-le x hx)
              (order.le_trans (int 0) x y hx x_le)
        | inr y_le ↦ ground (arith, above, h, y_le)
      ] in
      let num_neg = (order.num_of_le (n.neg x) y below).0 in
      rw (order.lt-eq-not-le y (n.neg x) num_y num_neg, below) refl

  -- A difference is not both above a cent and below minus a cent.
  pub quantities_one_side :
      IsOrdered F
      → (diff price : F) → (buy_quantity diff price ≡ int 0) ⊎ (sell_quantity diff price ≡ int 0)
  unfolding buy_quantity sell_quantity
  quantities_one_side order diff price = elim (Bool-cases (gt diff min_trade_value)) [
    | inr e ↦ inl (rw e refl)
    | inl e ↦ inr (rw (not_below_negative order min_trade_value diff (order.zero-le 1 2) e) refl)
  ]

  pub untraded :
      IsOrdered F
      → (balance diff price : F) → gt price (int 0) ≡ false
      → let bought = buy_quantity diff price in
        let sold = sell_quantity diff price in
        (action_of bought sold ≡ hold)
        × (bought ≡ int 0)
        × (sold ≡ int 0)
        × (balance_after (action_of bought sold) balance bought sold ≡ balance)
  untraded order balance diff price h =
      let (none_bought, none_sold) = quantities-without_price diff price h in
      rw (none_bought, none_sold, zero_not_positive order) (refl, refl, refl, refl)

  pub balance_after-sell :
      IsOrdered F
      → (action : Action) (balance bought sold : F) → action ≡ sell
      → IsNum (balance_after action balance bought sold)
      → int 0 ≼ balance_after action balance bought sold
  balance_after-sell order buy balance bought sold h num = cc h
  balance_after-sell order hold balance bought sold h num = cc h
  balance_after-sell order sell balance bought sold h num =
      let left = Decimal.sub balance sold in
      let (num_zero, num_left) = order.num_of_max (int 0) left num in
      (order.max_bounds (int 0) left num_zero num_left).0
