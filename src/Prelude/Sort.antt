-- ===== src/Prelude/Sort.antt =====
-- `Array.prototype.sort`, a stable sort, and the array of a `Set`. Texts are compared by code point,
-- which is JavaScript's order on all texts without surrogate pairs.
use Prim.Native.Nat.{ℕ, suc, Ordering, compare as compare_ℕ}
use Prim.Native.Char.{code}
use Prim.Native.String.compare
use Prim.Native.String.{String, compare, then as compare_then}
use mathlib.Core.Path.{◌≡◌, refl, sym, ◌∙◌}
use mathlib.Core.Logic.{inl, inr}
use mathlib.Core.Bool.{Bool, true, false, not, ◌&&◌, ◌||◌}
use mathlib.Core.List.{List, [], ◌∷◌}
use native.Mathlib.Omega.{arith}
use text.Mathlib.Text.{◌==◌, is_le}
use text.Mathlib.TextEquality.{eq_iff}
use stellar_portfolio_rebala.Prelude.Tests.{if◌then◌else◌, Bool-cases}
use stellar_portfolio_rebala.Prelude.Lists.{any, length}

module _ {ℓ} {A : Type ℓ} (le : A → A → Bool) where
  unfoldable pub insert_in_order : A → List A → List A
  insert_in_order x [] = x ∷ []
  insert_in_order x (y ∷ ys) = if le x y then x ∷ y ∷ ys else y ∷ insert_in_order x ys

  unfoldable pub sort : List A → List A
  sort [] = []
  sort (x ∷ xs) = insert_in_order x (sort xs)

  abbrev pub StartsAfter : A → List A → Type 0
  StartsAfter x [] = Unit
  StartsAfter x (y ∷ ys) = le x y ≡ true

  -- Each entry is in order with the one after it.
  abbrev pub IsSorted : List A → Type 0
  IsSorted [] = Unit
  IsSorted (x ∷ xs) = StartsAfter x xs × IsSorted xs

  any-insert_in_order :
      (p : A → Bool) (x : A) (xs : List A) → any p (insert_in_order x xs) ≡ p x || any p xs
  unfolding insert_in_order
  any-insert_in_order p x [] = refl
  any-insert_in_order p x (y ∷ ys) = ground (arith, any-insert_in_order p x ys)

  -- Sorting keeps the entries.
  pub any-sort : (p : A → Bool) (xs : List A) → any p (sort xs) ≡ any p xs
  unfolding sort
  any-sort p [] = refl
  any-sort p (x ∷ xs) = ground (arith, any-insert_in_order p x (sort xs), any-sort p xs)

  length-insert_in_order : (x : A) (xs : List A) → length (insert_in_order x xs) ≡ suc (length xs)
  unfolding insert_in_order
  length-insert_in_order x [] = refl
  length-insert_in_order x (y ∷ ys) = ground (arith, length-insert_in_order x ys)

  pub length-sort : (xs : List A) → length (sort xs) ≡ length xs
  unfolding sort
  length-sort [] = refl
  length-sort (x ∷ xs) = ground (arith, length-insert_in_order x (sort xs), length-sort xs)

  module _ (le_total : (x y : A) → le x y ≡ false → le y x ≡ true) where
    insert_in_order-StartsAfter :
        (y x : A) (xs : List A)
        → le y x ≡ true
        → StartsAfter y xs
        → StartsAfter y (insert_in_order x xs)
    unfolding insert_in_order
    insert_in_order-StartsAfter y x [] hx h = hx
    insert_in_order-StartsAfter y x (z ∷ zs) hx h = elim (Bool-cases (le x z)) [
      | inl e ↦ rw e hx
      | inr e ↦ rw e h
    ]

    insert_in_order-IsSorted : (x : A) (xs : List A) → IsSorted xs → IsSorted (insert_in_order x xs)
    unfolding insert_in_order
    insert_in_order-IsSorted x [] h = (tt, tt)
    insert_in_order-IsSorted x (y ∷ ys) h =
        let rest = insert_in_order-IsSorted x ys h.1 in
        elim (Bool-cases (le x y)) [
          | inl e ↦ rw e (e, h)
          | inr e ↦ rw e (insert_in_order-StartsAfter y x ys (le_total x y e) h.0, rest)
        ]

    pub sort-IsSorted : (xs : List A) → IsSorted (sort xs)
    unfolding sort
    sort-IsSorted [] = tt
    sort-IsSorted (x ∷ xs) = insert_in_order-IsSorted x (sort xs) (sort-IsSorted xs)

abbrev pub text_le : String → String → Bool
text_le s t = is_le (compare s t)

then_total :
    (m n : ℕ) (o r : Ordering)
    → (is_le o ≡ false → is_le r ≡ true)
    → is_le (compare_then (compare_ℕ m n) o) ≡ false
    → is_le (compare_then (compare_ℕ n m) r) ≡ true
then_total m n o r h e = ground arith

pub text_le_total : (s t : String) → text_le s t ≡ false → text_le t s ≡ true
text_le_total String.[] String.[] h = refl
text_le_total String.[] (String.◌∷◌ d t) h =
    ground (arith, compare.nil-cons d t, compare.cons-nil d t)
text_le_total (String.◌∷◌ c s) String.[] h =
    ground (arith, compare.nil-cons c s, compare.cons-nil c s)
text_le_total (String.◌∷◌ c s) (String.◌∷◌ d t) h = rw (compare.cons-cons d c t s) (
    then_total (code c) (code d) (compare s t) (compare t s) (text_le_total s t)
      (rw (sym (compare.cons-cons c d s t)) h))

-- `xs.includes(x)`
abbrev pub includes : String → List String → Bool
includes x = any (λ y. x == y)

-- `Array.from(new Set(xs))`: the first of equal entries stays. The texts in `seen` come before.
unfoldable pub unique_after : List String → List String → List String
unique_after seen [] = []
unique_after seen (x ∷ xs) =
    let rest = unique_after (x ∷ seen) xs in
    if includes x seen then unique_after seen xs else x ∷ rest

abbrev pub IsDistinct : List String → Type 0
IsDistinct [] = Unit
IsDistinct (x ∷ xs) = (includes x xs ≡ false) × IsDistinct xs

-- The entries that are not in `seen`, each once.
pub includes-unique_after :
    (k : String) (seen xs : List String)
    → includes k (unique_after seen xs) ≡ not (includes k seen) && includes k xs
unfolding unique_after
includes-unique_after k seen [] = ground arith
includes-unique_after k seen (x ∷ xs) =
    let skipped = includes-unique_after k seen xs in
    let kept = includes-unique_after k (x ∷ seen) xs in ground (arith, eq_iff k x, skipped, kept)

pub unique_after-IsDistinct : (seen xs : List String) → IsDistinct (unique_after seen xs)
unfolding unique_after
unique_after-IsDistinct seen [] = tt
unique_after-IsDistinct seen (x ∷ xs) =
    let skipped = unique_after-IsDistinct seen xs in
    let kept = unique_after-IsDistinct (x ∷ seen) xs in
    let absent = includes-unique_after x (x ∷ seen) xs in
    elim (Bool-cases (includes x seen)) [
      | inl e ↦ rw e skipped
      | inr e ↦ rw e (ground (arith, absent, eq_iff x x), kept)
    ]

insert_in_order-IsDistinct :
    (x : String) (xs : List String)
    → includes x xs ≡ false
    → IsDistinct xs
    → IsDistinct (insert_in_order text_le x xs)
unfolding insert_in_order
insert_in_order-IsDistinct x [] hx h = (refl, tt)
insert_in_order-IsDistinct x (y ∷ ys) hx h =
    let rest = insert_in_order-IsDistinct x ys (ground arith) h.1 in
    elim (Bool-cases (text_le x y)) [
      | inl e ↦ rw e (hx, h)
      | inr e ↦ rw e (
        ground (arith, any-insert_in_order text_le (λ z. y == z) x ys, eq_iff x y, eq_iff y x),
        rest,
      )
    ]

pub sort-IsDistinct : (xs : List String) → IsDistinct xs → IsDistinct (sort text_le xs)
unfolding sort
sort-IsDistinct [] h = tt
sort-IsDistinct (x ∷ xs) h =
    insert_in_order-IsDistinct x (sort text_le xs) (any-sort text_le (λ y. x == y) xs ∙ h.0)
      (sort-IsDistinct xs h.1)
