-- ===== src/Risk/Symmetry.antt =====
-- The correlation matrix of `RiskManagementService` is symmetric with a unit diagonal.
use stellar_portfolio_rebala.Prelude.{
  ℕ, ◌≡◌, refl, ap, ◌∙◌, String, Bool, true, false, none, some, List, [], ◌∷◌, map, arith, inl, inr,
  min, Bool-cases, str_eq, eq_iff, eq_refl, any, length, slice_last, if◌then◌else◌,
}
use stellar_portfolio_rebala.Prelude.Table.{Table, lookup, get_or}
use stellar_portfolio_rebala.Number.{Number, IsCommutative, int, sum}
use stellar_portfolio_rebala.Risk.Correlation.{
  Moments, pearson_loop, no_moments, correlation_of, calculate_pearson, build_matrix,
  build_correlation_matrix, correlation_entry, series_of,
}
use stellar_portfolio_rebala.Risk.Types.{Matrix}

-- A table built from a list of keys has each of them, and no other.
lookup-map_keys {ℓ} :
    {V : Type ℓ} (f : String → V) (k : String) (keys : List String)
    → lookup k (map (λ a. (a, f a)) keys)
      ≡ (if any (λ a. str_eq a k) keys then some (f k) else none)
unfolding lookup
lookup-map_keys f k [] = refl
lookup-map_keys f k (a ∷ keys) = elim (Bool-cases (str_eq a k)) [
  | inl same ↦ rw same (ap (λ x. some (f x)) ((eq_iff a k).0 same))
  | inr other ↦ rw other (lookup-map_keys f k keys)
]

get_or-map_keys {ℓ} :
    {V : Type ℓ} (f : String → V) (k : String) (d : V) (keys : List String)
    → get_or k (map (λ a. (a, f a)) keys) d ≡ (if any (λ a. str_eq a k) keys then f k else d)
get_or-map_keys f k d keys = ground (arith, lookup-map_keys f k keys)

str_eq_comm : (a b : String) → str_eq a b ≡ str_eq b a
str_eq_comm a b = ground (arith, eq_iff a b, eq_iff b a)

module _ {F : Type 0} ⦃n : Number F⦄ where
  open n use {sub, div}

  -- The entry of a matrix, 0 where there is none.
  abbrev pub entry_of : Matrix F → String → String → F
  entry_of m a b = get_or b (get_or a m []) (int 0)

  abbrev row : (String → String → F) → List String → String → Table F
  row entry assets a = map (λ b. (b, entry a b)) assets

  entry_of-build :
      (entry : String → String → F) (assets : List String) (a b : String)
      → entry_of (build_matrix entry assets) a b ≡ (
          if any (λ x. str_eq x a) assets
          then if any (λ x. str_eq x b) assets then entry a b else int 0
          else int 0)
  unfolding lookup
  entry_of-build entry assets a b =
      ap (λ r. get_or b r (int 0)) (get_or-map_keys (row entry assets) a [] assets)
      ∙ pick (any (λ x. str_eq x a) assets)
    where
      pick :
          (here : Bool)
          → get_or b (if here then row entry assets a else []) (int 0)
            ≡ (if here then if any (λ x. str_eq x b) assets then entry a b else int 0 else int 0)
      pick true = get_or-map_keys (entry a) b (int 0) assets
      pick false = refl

  module _ (laws : IsCommutative F) where
    -- The moments with the two series exchanged.
    abbrev swap : Moments F → Moments F
    swap m = record { numerator = m.numerator; var_a = m.var_b; var_b = m.var_a }

    pearson_loop-swap :
        (mean_a mean_b : F) (xs ys : List F) (m : Moments F)
        → pearson_loop mean_b mean_a ys xs (swap m) ≡ swap (pearson_loop mean_a mean_b xs ys m)
    unfolding pearson_loop
    pearson_loop-swap mean_a mean_b [] [] m = refl
    pearson_loop-swap mean_a mean_b [] (y ∷ ys) m = refl
    pearson_loop-swap mean_a mean_b (x ∷ xs) [] m = refl
    pearson_loop-swap mean_a mean_b (x ∷ xs) (y ∷ ys) m =
        rw (laws.mul_comm (sub y mean_b) (sub x mean_a)) (pearson_loop-swap mean_a mean_b xs ys _)

    correlation_of-swap : (m : Moments F) → correlation_of (swap m) ≡ correlation_of m
    unfolding correlation_of
    correlation_of-swap m = rw (laws.mul_comm m.var_b m.var_a)

    calculate_pearson_comm : (xs ys : List F) → calculate_pearson xs ys ≡ calculate_pearson ys xs
    unfolding calculate_pearson
    calculate_pearson_comm xs ys =
        let mean = λ (zs : List F). div (sum zs) (int (min (length xs) (length ys))) in
        let count : min (length ys) (length xs) ≡ min (length xs) (length ys) = omega arith in
        rw (
          count,
          pearson_loop-swap (mean xs) (mean ys) xs ys no_moments,
          correlation_of-swap (pearson_loop (mean xs) (mean ys) xs ys no_moments),
        )

    correlation_entry_comm :
        (aligned : Table (List F)) (size : ℕ) (a b : String)
        → correlation_entry aligned size a b ≡ correlation_entry aligned size b a
    unfolding correlation_entry
    correlation_entry_comm aligned size a b = rw (
      str_eq_comm b a,
      calculate_pearson_comm (slice_last size (series_of aligned b))
          (slice_last size (series_of aligned a)),
    )

    -- The correlation matrix is symmetric, and 1 exactly on the diagonal of the assets it is built
    -- for, 0 on the rest of the diagonal.
    pub correlation_matrix_symmetric :
        (assets : List String) (aligned : Table (List F)) (size : ℕ) (a b : String)
        → let m = build_correlation_matrix assets aligned size in
          (entry_of m a b ≡ entry_of m b a)
          × (entry_of m a a ≡ (if any (λ x. str_eq x a) assets then int 1 else int 0))
    unfolding correlation_entry
    correlation_matrix_symmetric assets aligned size a b =
        let entry = correlation_entry aligned size in
        (
          rw
              (
                entry_of-build entry assets a b,
                entry_of-build entry assets b a,
                correlation_entry_comm aligned size a b,
              )
              (ground arith),
          rw (entry_of-build entry assets a a, eq_refl a) (ground arith),
        )
