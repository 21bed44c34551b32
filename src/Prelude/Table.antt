-- ===== src/Prelude/Table.antt =====
-- A JavaScript `Map<string, V>`, and a `Record<string, V>` whose keys are not numerals: an
-- association list in insertion order. Setting a present key keeps its place.
use Prim.Native.String.{String}
use mathlib.Core.Path.{◌≡◌, refl, subst}
use mathlib.Core.Logic.{inl, inr}
use mathlib.Core.Bool.{Bool, true, false}
use mathlib.Core.List.{List, [], ◌∷◌, map}
use mathlib.Core.Option.{Option, none, some, some-injective}
use native.Mathlib.Omega.{arith}
use text.Mathlib.Text.{◌==◌}
use text.Mathlib.TextEquality.{eq_iff}
use text.Mathlib.TextPositions.{eq_refl}
use stellar_portfolio_rebala.Prelude.Tests.{if◌then◌else◌, Bool-cases}
use stellar_portfolio_rebala.Prelude.Lists.{any, All}

abbrev pub Table {ℓ} : Type ℓ → Type ℓ
Table V = List (String × V)

module _ {ℓ} {V : Type ℓ} where
  -- `m.get(k)`
  unfoldable pub lookup : String → Table V → Option V
  lookup k [] = none
  lookup k (entry ∷ m) = if entry.0 == k then some entry.1 else lookup k m

  -- `m.set(k, v)`
  unfoldable pub insert : String → V → Table V → Table V
  insert k v [] = (k, v) ∷ []
  insert k v (entry ∷ m) = if entry.0 == k then (entry.0, v) ∷ m else entry ∷ insert k v m

  -- `m.delete(k)`
  unfoldable pub erase : String → Table V → Table V
  erase k [] = []
  erase k (entry ∷ m) = if entry.0 == k then erase k m else entry ∷ erase k m

  -- `m.get(k) ?? d`
  abbrev pub get_or : String → Table V → V → V
  get_or k m d = elim (lookup k m) [ none ↦ d | some v ↦ v ]

  abbrev pub has : String → Table V → Bool
  has k m = elim (lookup k m) [ none ↦ false | some v ↦ true ]

  abbrev pub keys : Table V → List String
  keys = map (λ e. e.0)

  abbrev pub values : Table V → List V
  values = map (λ e. e.1)

  pub lookup-insert :
      (k j : String) (v : V) (m : Table V)
      → lookup j (insert k v m) ≡ (if k == j then some v else lookup j m)
  unfolding lookup insert
  lookup-insert k j v [] = refl
  lookup-insert k j v (entry ∷ m) =
      let rest = lookup-insert k j v m in
      ground (arith, eq_iff entry.0 j, eq_iff entry.0 k, eq_iff k j, rest)

  pub lookup-erase :
      (k j : String) (m : Table V) → lookup j (erase k m) ≡ (if k == j then none else lookup j m)
  unfolding lookup erase
  lookup-erase k j [] = ground arith
  lookup-erase k j (entry ∷ m) =
      let rest = lookup-erase k j m in
      ground (arith, eq_iff entry.0 j, eq_iff entry.0 k, eq_iff k j, rest)

  -- A test that some value meets holds of the table's values.
  pub any-values :
      (p : V → Bool) (k : String) (m : Table V) (v : V)
      → lookup k m ≡ some v
      → p v ≡ true
      → any p (values m) ≡ true
  unfolding lookup
  any-values p k [] v e h = cc
  any-values p k ((j, w) ∷ m) v e h = ground (arith, any-values p k m v)

  -- A change of every value shows at every key.
  pub lookup-map_values :
      (f : V → V) (k : String) (m : Table V)
      → lookup k (map (λ e. (e.0, f e.1)) m)
        ≡ elim (lookup k m) [ none ↦ none | some v ↦ some (f v) ]
  unfolding lookup
  lookup-map_values f k [] = refl
  lookup-map_values f k ((j, w) ∷ m) = ground (arith, lookup-map_values f k m)

  pub get_or-insert : (k : String) (v d : V) (m : Table V) → get_or k (insert k v m) d ≡ v
  get_or-insert k v d m = ground (arith, lookup-insert k k v m, eq_refl k)

  pub has-insert : (k : String) (v : V) (m : Table V) → has k (insert k v m) ≡ true
  has-insert k v m = ground (arith, lookup-insert k k v m, eq_refl k)

  pub get_or-insert_ne :
      (k j : String) (v d : V) (m : Table V)
      → (k == j) ≡ false
      → get_or j (insert k v m) d ≡ get_or j m d
  get_or-insert_ne k j v d m h = ground (arith, lookup-insert k j v m)

  pub All-insert {κ} :
      (P : V → Type κ) (k : String) (v : V) (m : Table V)
      → P v
      → All (λ e. P e.1) m
      → All (λ e. P e.1) (insert k v m)
  unfolding insert
  All-insert P k v [] new rest = (new, tt)
  All-insert P k v ((j, w) ∷ m) new (first, rest) =
      let inserted = All-insert P k v m new rest in
      elim (Bool-cases (j == k)) [ inl e ↦ rw e (new, rest) | inr e ↦ rw e (first, inserted) ]

  pub All-lookup {κ} :
      (P : V → Type κ) (k : String) (v : V) (m : Table V)
      → All (λ e. P e.1) m
      → lookup k m ≡ some v
      → P v
  unfolding lookup
  All-lookup P k v [] h = λ e. cc
  All-lookup P k v ((j, w) ∷ m) (first, rest) = elim (Bool-cases (j == k)) [
    | inl e ↦ rw e λ found. subst P (some-injective _ _ found) first
    | inr e ↦ rw e (All-lookup P k v m rest)
  ]
