-- ===== src/Risk/Histories.antt =====
-- The price and return histories of `RiskManagementService`: their bounds, and how they fit.
use native.Mathlib.Decide.{dec_lt}
use stellar_portfolio_rebala.Prelude.{
  ℕ, ◌+◌, ◌-◌, ◌≤◌, ◌<◌, ◌≡◌, refl, subst, String, true, some, List, [], ◌∷◌, ◌++◌, arith, inl, inr,
  Bool-cases, str_eq, eq_iff, length, All, All-append, All-drop, All-get_elem?, get_elem?_total, ap,
  ◌∙◌,
}
use stellar_portfolio_rebala.Prelude.Table.{Table, lookup, get_or, get_or-insert}
use stellar_portfolio_rebala.Number.{Number, IsOrdered, int, gt}
use stellar_portfolio_rebala.Risk.Breakers.{
  max_price_history, max_return_history, push_bounded, previous_price, is_price, ingest,
  update_asset, update_price_data, new_service,
}
use stellar_portfolio_rebala.Risk.Breakers.Effects.{
  ingest-history, ingest-returns_none, ingest-returns_some, check-histories, ingest_ne,
}
use stellar_portfolio_rebala.Risk.Breakers.Push.{push_bounded-drop, length-push_bounded}
use stellar_portfolio_rebala.Risk.Types.{PricePoint, ReturnPoint, RiskService}

module _ {F : Type 0} ⦃n : Number F⦄ where
  open n use {sub, div, le}

  abbrev pub IsPrice : PricePoint F → Type 0
  IsPrice p = is_price p.price ≡ true

  -- At most 400 prices, all finite and positive, and a return for each price but the first; once
  -- the prices are at their bound the returns reach theirs one step later.
  pub record Fits (history : List (PricePoint F)) (returns : List (ReturnPoint F)) : Type 0 where
    pub prices_le : length history ≤ max_price_history
    pub filling : length history < max_price_history → length returns ≡ length history - 1
    pub full_le : length returns ≤ max_return_history
    pub full_ge : length history ≡ max_price_history → max_return_history ≤ length returns + 1
    pub usable : All IsPrice history

  abbrev pub IsValid : RiskService F → Type 0
  IsValid s =
      (asset : String) → Fits (get_or asset s.price_history []) (get_or asset s.return_series [])

  -- The returns after a push of a price onto `history`.
  abbrev next_returns :
      List (PricePoint F) → List (ReturnPoint F) → ReturnPoint F → List (ReturnPoint F)
  next_returns [] returns point = returns
  next_returns (p ∷ history) returns point = push_bounded max_return_history returns point

  length-next_returns :
      (history : List (PricePoint F)) (returns : List (ReturnPoint F)) (r : ReturnPoint F)
      → Fits history returns
      → let count = length (next_returns history returns r) in
        (length history + 1 < max_price_history → count ≡ length history)
        × (count ≤ max_return_history)
        × (max_price_history ≤ length history + 1 → max_return_history ≤ count + 1)
  length-next_returns [] returns r h = omega arith
  length-next_returns (p ∷ history) returns r h =
      let grown = length-push_bounded max_return_history returns r (omega arith) in
      (
        λ few. omega arith,
        omega arith,
        λ many. elim (dec_lt (length (p ∷ history)) max_price_history) [
          | yes below ↦ omega (arith, h.filling below)
          | no full ↦ omega (arith, h.full_ge (omega arith))
        ],
      )

  Fits-push :
      (history : List (PricePoint F)) (returns : List (ReturnPoint F)) (p : PricePoint F)
      → (r : ReturnPoint F) → Fits history returns
      → IsPrice p
      → Fits (push_bounded max_price_history history p) (next_returns history returns r)
  Fits-push history returns p r h good =
      let grown = length-push_bounded max_price_history history p (omega arith) in
      let counts = length-next_returns history returns r h in
      record {
        prices_le = omega arith;
        filling = λ few. omega arith;
        full_le = omega arith;
        full_ge = λ full. omega arith;
        usable = rw (push_bounded-drop max_price_history history p (omega arith)) (
            All-drop IsPrice _ (history ++ p ∷ [])
              (All-append IsPrice history (p ∷ []) h.usable (good, tt)));
      }

  -- A finite price above zero passes the test of `previous > 0`.
  IsPrice-gt : (x : F) → IsOrdered F → is_price x ≡ true → gt x (int 0) ≡ true
  IsPrice-gt x laws h =
      let num = laws.finite_num x (ground arith) in
      let zero-IsNum = (laws.num_of_le _ _ (laws.decimal-le 0 0 0 (omega arith))).0 in
      laws.lt-eq-not-le (int 0) x zero-IsNum num ∙ ground arith

  -- The returns of the asset itself after its round.
  ingest-next_returns :
      (now : ℕ) (asset : String) (price : F) (s : RiskService F) (history : List (PricePoint F))
      → IsOrdered F
      → get_or asset s.price_history [] ≡ history
      → All IsPrice history
      → (r : ReturnPoint F) × (get_or asset (ingest now asset price s).return_series []
          ≡ next_returns history (get_or asset s.return_series []) r)
  ingest-next_returns now asset price s [] laws e usable =
      let same = ingest-returns_none now asset price s (ground arith) in
      (record { value = price; timestamp = now }, ap (λ m. get_or asset m []) same)
  ingest-next_returns now asset price s (p ∷ history) laws e usable =
      let (last, found) = get_elem?_total (p ∷ history) (length (p ∷ history) - 1) (omega arith) in
      let good = All-get_elem? IsPrice (p ∷ history) _ last usable found in
      let previous : previous_price asset s ≡ some last.price = ground arith in
      let r : ReturnPoint F = record {
        value = div (sub price last.price) last.price;
        timestamp = now;
      } in
      let grown = push_bounded max_return_history (get_or asset s.return_series []) r in
      (
        r,
        ap (λ m. get_or asset m [])
              (ingest-returns_some now asset price s last.price previous
                (IsPrice-gt last.price laws good))
            ∙ get_or-insert asset grown [] s.return_series,
      )

  ingest-Fits :
      (now : ℕ) (asset : String) (price : F) (s : RiskService F)
      → IsOrdered F
      → is_price price ≡ true
      → Fits (get_or asset s.price_history []) (get_or asset s.return_series [])
      → let s' = ingest now asset price s in
        Fits (get_or asset s'.price_history []) (get_or asset s'.return_series [])
  ingest-Fits now asset price s laws good h =
      let history = get_or asset s.price_history [] in
      let p : PricePoint F = record { price = price; timestamp = now } in
      let (r, e) = ingest-next_returns now asset price s history laws refl h.usable in
      rw (ingest-history now asset price s, get_or-insert, e)
        (Fits-push history (get_or asset s.return_series []) p r h good)

  update_asset-IsValid :
      (now : ℕ) (asset : String) (price : F) (s : RiskService F)
      → IsOrdered F
      → IsValid s
      → IsValid (update_asset now asset price s).0
  unfolding update_asset
  update_asset-IsValid now asset price s laws v j =
      let s' = ingest now asset price s in
      let (same_prices, same_returns) = check-histories now asset s' in
      elim (Bool-cases (is_price price)) [
        | inr bad ↦ rw (bad, update_asset) (v j)
        | inl good ↦
            rw (good, update_asset, same_prices, same_returns)
              (elim (Bool-cases (str_eq asset j)) [
                | inl same ↦
                    subst (λ k. Fits (get_or k s'.price_history []) (get_or k s'.return_series []))
                      ((eq_iff asset j).0 same) (ingest-Fits now asset price s laws good (v asset))
                | inr other ↦
                    rw
                      (
                        (ingest_ne now asset j price s other).0,
                        (ingest_ne now asset j price s other).1,
                      )
                      (v j)
              ])
      ]

  -- Every update keeps the histories within their bounds and in step, whatever prices it is given.
  pub update_price_data-IsValid :
      (now : ℕ) (prices : Table F) (s : RiskService F)
      → IsOrdered F
      → IsValid s
      → IsValid (update_price_data now prices s).0
  unfolding update_price_data
  update_price_data-IsValid now [] s laws v = v
  update_price_data-IsValid now ((asset, price) ∷ prices) s laws v =
      update_price_data-IsValid now prices (update_asset now asset price s).0 laws
        (update_asset-IsValid now asset price s laws v)

  pub new_service-IsValid : (symbols : List String) → IsValid (new_service symbols)
  unfolding lookup
  new_service-IsValid symbols asset = ground arith
