-- ===== src/TaxReport/Lots.antt =====
-- The loop that takes a sale from the lots ends after one round for each lot and one more.
use stellar_portfolio_rebala.Prelude.{
  ℕ, zero, suc, ◌≤◌, ◌<◌, ◌≡◌, refl, ap, subst, ◌∙◌, inl, inr, true, false, not, ◌&&◌, List, [],
  ◌∷◌, All, arith, length, Bool-cases,
}
use stellar_portfolio_rebala.Number.{Number, int, gt, IsOrdered, IsSubtractive, ◌≼◌}
use stellar_portfolio_rebala.TaxReport.{
  TaxLot, Sale, consume_first, some_left, consume_lot, goes_on, consume_lots, sell_lots,
}

module _ {F : Type 0} ⦃n : Number F⦄ where
  abbrev pub IsFiniteLot : TaxLot F → Type 0
  IsFiniteLot lot = n.is_finite lot.amount ≡ true

  consume_lots_stop : (fuel : ℕ) (s : Sale F) → goes_on s ≡ false → consume_lots fuel s ≡ s
  unfolding consume_lots
  consume_lots_stop zero s h = refl
  consume_lots_stop (suc fuel) s h = rw (h, consume_lots) refl

  -- More fuel than is used makes no difference.
  consume_lots_more :
      (fuel more : ℕ) (s : Sale F)
      → goes_on (consume_lots fuel s) ≡ false
      → fuel ≤ more
      → consume_lots more s ≡ consume_lots fuel s
  unfolding consume_lots
  consume_lots_more zero more s h l = consume_lots_stop more s h
  consume_lots_more (suc fuel) zero s h l = absurd (omega (arith, l))
  consume_lots_more (suc fuel) (suc more) s h l = elim (Bool-cases (goes_on s)) [
    | inl e ↦
        rw (e, consume_lots)
          (consume_lots_more fuel more (consume_first s.lots s) (rw (e, consume_lots) at h)
            (omega (arith, l)))
    | inr e ↦ rw (e, consume_lots) refl
  ]

  module _ (order : IsOrdered F) (laws : IsSubtractive F) where
    open order use {num_of_le, num_of_lt, le_total, lt-eq-not-le, min_bounds, zero-le, finite_num}
    open laws use {sub_self, min_either, finite_between}

    not_above_itself : gt {F = F} (int 0) (int 0) ≡ false
    not_above_itself =
        let zero_le : int {F = F} 0 ≼ int 0 = zero-le 0 0 in
        lt-eq-not-le (int 0) (int 0) zero_le zero_le ∙ ap not zero_le

    lt-le : (x y : F) → n.lt x y ≡ true → x ≼ y
    lt-le x y h =
        let (x_num, y_num) = num_of_lt x y h in
        ground (arith, le_total x y x_num y_num, lt-eq-not-le x y x_num y_num)

    module _ (lot : TaxLot F) (lots : List (TaxLot F)) (s : Sale F) (finite : IsFiniteLot lot) where
      -- A round that takes all that remains is the last.
      round_last :
          gt s.remaining_to_sell (int 0) ≡ true
          → n.min s.remaining_to_sell lot.amount ≡ s.remaining_to_sell
          → goes_on (consume_lot lot lots s) ≡ false
      unfolding consume_lot
      round_last above m =
          let r = s.remaining_to_sell in
          let zero_le = lt-le (int 0) r above in
          let bounds =
            min_bounds r lot.amount (num_of_le (int 0) r zero_le).1
              (finite_num lot.amount finite) in
          let below : r ≼ lot.amount = subst (λ x. x ≼ lot.amount) m bounds.1 in
          let none_left =
            ap (n.sub r) m ∙ sub_self r (finite_between r lot.amount zero_le below finite) in
          ap (λ x. gt x (int 0) && some_left (consume_lot lot lots s).lots) none_left
          ∙ rw not_above_itself refl

      -- A round that takes the whole lot goes on with the others.
      round_whole :
          n.min s.remaining_to_sell lot.amount ≡ lot.amount → (consume_lot lot lots s).lots ≡ lots
      unfolding consume_lot
      round_whole m =
          let emptied : n.le (n.sub lot.amount (n.min s.remaining_to_sell lot.amount))
                (n.decimal 1 8)
              ≡ true =
            ap (λ x. n.le x (n.decimal 1 8)) (ap (n.sub lot.amount) m ∙ sub_self lot.amount finite)
            ∙ zero-le 1 8 in
          rw emptied refl

    consume_lots_done :
        (fuel : ℕ) (s : Sale F) (lots : List (TaxLot F))
        → s.lots ≡ lots
        → All IsFiniteLot lots
        → length lots < fuel
        → goes_on (consume_lots fuel s) ≡ false
    unfolding consume_lots
    consume_lots_done zero s lots shape finite l = absurd (omega (arith, l))
    consume_lots_done (suc fuel) s [] shape finite l =
        let ended : goes_on s ≡ false = rw shape (ground arith) in rw (ended, consume_lots) ended
    consume_lots_done (suc fuel) s (lot ∷ lots) shape finite l = elim (Bool-cases (goes_on s)) [
      | inr e ↦ rw (e, consume_lots) e
      | inl e ↦
          rw (e, consume_lots)
            (elim (min_either s.remaining_to_sell lot.amount) [
              | inl m ↦
                  let stopped = round_last lot lots s finite.0 (ground (arith, e)) m in
                  ap (λ x. goes_on (consume_lots fuel (consume_first x s))) shape
                  ∙ ap goes_on (consume_lots_stop fuel (consume_lot lot lots s) stopped)
                  ∙ stopped
              | inr m ↦
                  ap (λ x. goes_on (consume_lots fuel (consume_first x s))) shape
                  ∙ consume_lots_done fuel (consume_lot lot lots s) lots
                      (round_whole lot lots s finite.0 m) finite.1 (omega (arith, l))
            ])
    ]

    -- Where the lots have finite amounts, the loop of a sale ends within one round for each lot and
    -- one more: its condition is then false, and any larger number of rounds gives the same.
    pub sell_lots_done :
        (amount : F) (lots : List (TaxLot F))
        → All IsFiniteLot lots
        → (goes_on (sell_lots amount lots) ≡ false)
          × ((rounds : ℕ)
              → suc (length lots) ≤ rounds
              → consume_lots rounds
                  (record { remaining_to_sell = amount; total_cost_basis = int 0; lots = lots })
                ≡ sell_lots amount lots)
    sell_lots_done amount lots finite =
        let start : Sale F = record {
          remaining_to_sell = amount;
          total_cost_basis = int 0;
          lots = lots;
        } in
        let done = consume_lots_done (suc (length lots)) start lots refl finite (omega arith) in
        (done, λ rounds enough. consume_lots_more (suc (length lots)) rounds start done enough)
