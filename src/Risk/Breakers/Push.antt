-- ===== src/Risk/Breakers/Push.antt =====
-- The bounded histories: what a push leaves, and its last two entries.
use stellar_portfolio_rebala.Prelude.{
  ℕ, ◌+◌, ◌-◌, ◌<◌, ◌≡◌, ap, ◌∙◌, some, List, [], ◌∷◌, ◌++◌, arith, min, length, get_elem?, drop,
  length-append, length-drop, get_elem?-append_left, get_elem?-append_last, get_elem?-drop,
}
use stellar_portfolio_rebala.Risk.Breakers.{push_bounded, last?}

module _ {ℓ} {A : Type ℓ} (bound : ℕ) (xs : List A) (x : A) where
  -- A push drops this many of the oldest entries.
  abbrev excess : ℕ
  excess = length xs + 1 - bound

  pub push_bounded-drop : 0 < bound → push_bounded bound xs x ≡ drop excess (xs ++ x ∷ [])
  unfolding push_bounded
  push_bounded-drop h = ground (arith, length-append xs (x ∷ []))

  pub length-push_bounded : 0 < bound → length (push_bounded bound xs x) ≡ min bound (length xs + 1)
  length-push_bounded h = rw (push_bounded-drop h, length-drop, length-append) (omega arith)

  get_elem?-push_bounded :
      (i : ℕ)
      → 0 < bound
      → get_elem? (push_bounded bound xs x) i ≡ get_elem? (xs ++ x ∷ []) (excess + i)
  get_elem?-push_bounded i h =
      ap (λ l. get_elem? l i) (push_bounded-drop h) ∙ get_elem?-drop excess i (xs ++ x ∷ [])

  pub push_bounded-last : 0 < bound → last? (push_bounded bound xs x) ≡ some x
  push_bounded-last h =
      let end = length (push_bounded bound xs x) - 1 in
      let place : excess + end ≡ length xs = omega (arith, length-push_bounded h) in
      get_elem?-push_bounded end h
      ∙ ap (get_elem? (xs ++ x ∷ [])) place
      ∙ get_elem?-append_last xs x

  -- The entry before the last is the last one before the push.
  pub push_bounded-previous :
      1 < bound
      → 0 < length xs
      → get_elem? (push_bounded bound xs x) (length (push_bounded bound xs x) - 2) ≡ last? xs
  push_bounded-previous h k =
      let before = length (push_bounded bound xs x) - 2 in
      let place : excess + before ≡ length xs - 1 =
        omega (arith, length-push_bounded (omega arith)) in
      get_elem?-push_bounded before (omega arith)
      ∙ ap (get_elem? (xs ++ x ∷ [])) place
      ∙ get_elem?-append_left xs (x ∷ []) (length xs - 1) (omega arith)
