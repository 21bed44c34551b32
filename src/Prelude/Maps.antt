-- ===== src/Prelude/Maps.antt =====
-- Lemmas on mapped lists.
use Prim.Native.Nat.{ℕ, zero, suc}
use Prim.Native.String.{String}
use mathlib.Core.Path.{◌≡◌, refl, ap}
use mathlib.Core.Bool.{Bool, true}
use mathlib.Core.List.{List, [], ◌∷◌, map}
use mathlib.Core.Option.{some, some-injective}
use native.Mathlib.Omega.{arith}
use text.Mathlib.TextPositions.{eq_refl}
use stellar_portfolio_rebala.Prelude.Lists.{length, filter, get_elem?}
use stellar_portfolio_rebala.Prelude.Sort.{includes}

pub map-members :
    {A : Type 0} (f g : String → A) (xs : List String)
    → ((x : String) → includes x xs ≡ true → f x ≡ g x)
    → map f xs ≡ map g xs
map-members f g [] h = refl
map-members f g (x ∷ xs) h =
    cc (h x (ground (arith, eq_refl x)), map-members f g xs (λ y e. h y (ground (arith, e))))

pub map-map :
    {A B C : Type 0} (g : B → C) (f : A → B) (xs : List A)
    → map g (map f xs) ≡ map (λ x. g (f x)) xs
map-map g f [] = refl
map-map g f (x ∷ xs) = ap (λ ys. g (f x) ∷ ys) (map-map g f xs)

pub map_same : {A : Type 0} (f : A → A) (xs : List A) → ((x : A) → f x ≡ x) → map f xs ≡ xs
map_same f [] h = refl
map_same f (x ∷ xs) h = cc (h x, map_same f xs h)

pub filter-map :
    {A B : Type 0} (test : B → Bool) (f : A → B) (xs : List A)
    → length (filter test (map f xs)) ≡ length (filter (λ x. test (f x)) xs)
filter-map test f [] = refl
filter-map test f (x ∷ xs) = ground (arith, filter-map test f xs)

-- An entry of a mapped list comes from an entry of the list.
pub get_elem?-map :
    {A : Type 0} (f : String → A) (xs : List String) (i : ℕ) (y : A)
    → get_elem? (map f xs) i ≡ some y
    → (x : String) × (includes x xs ≡ true) × (f x ≡ y)
get_elem?-map f [] i y h = cc
get_elem?-map f (x ∷ xs) zero y h = (x, ground (arith, eq_refl x), some-injective _ _ h)
get_elem?-map f (x ∷ xs) (suc i) y h =
    let found = get_elem?-map f xs i y h in (found.0, ground (arith, found.1), found.2)
