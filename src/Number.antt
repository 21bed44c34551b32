-- ===== src/Number.antt =====
-- What the code does with a JavaScript `number`. Arithmetic in IEEE 754 doubles is the engine's, so
-- a number is any type with these operations; the order laws that a proof needs are a record of
-- their own, and `Number.Fixed` shows that they can be met.
pub mod Fixed
use stellar_portfolio_rebala.Prelude.{
  ℕ, String, ◌≡◌, ◌⊎◌, Bool, true, not, ◌&&◌, ◌||◌, List, foldl, ◌≤◌, if◌then◌else◌,
}

pub record Number (F : Type 0) : Type 0 where
  -- The literal n · 10^-k.
  pub decimal : ℕ → ℕ → F
  pub nan : F
  pub add : F → F → F
  pub sub : F → F → F
  pub mul : F → F → F
  pub div : F → F → F
  pub neg : F → F
  -- `Math.abs`, `Math.pow`, `Math.sqrt`, `Math.round`, and `Math.max` and `Math.min` of two arguments.
  pub abs : F → F
  pub pow : F → ℕ → F
  pub sqrt : F → F
  pub round : F → F
  pub max : F → F → F
  pub min : F → F → F
  -- `<` and `<=`, false on NaN.
  pub lt : F → F → Bool
  pub le : F → F → Bool
  -- `Number.isFinite`.
  pub is_finite : F → Bool
  -- `Math.floor` of a number that is not negative, where the code uses it as an index or a count.
  pub floor : F → ℕ
  -- `x.toFixed(k)`, `String(x)`, and `Number(s)`.
  pub to_fixed : F → ℕ → String
  pub to_text : F → String
  pub parse : String → F

module _ {F : Type 0} ⦃n : Number F⦄ where
  open n use {decimal, add, mul, lt, le}

  -- An integer literal or count.
  abbrev pub int : ℕ → F
  int k = decimal k 0

  abbrev pub gt : F → F → Bool
  gt x y = lt y x

  -- `===`: NaN is not equal to itself.
  abbrev pub same : F → F → Bool
  same x y = le x y && le y x

  -- NaN and zero are falsy.
  abbrev pub truthy : F → Bool
  truthy x = lt x (int 0) || lt (int 0) x

  -- `x || 0`.
  abbrev pub or_zero : F → F
  or_zero x = if truthy x then x else int 0

  -- `Math.max(x, ...xs)`.
  abbrev pub max_of : F → List F → F
  max_of = foldl n.max

  -- `xs.reduce((sum, x) => sum + x, 0)`.
  unfoldable pub sum : List F → F
  sum = foldl add (int 0)

  infix 4 ◌≼◌
  abbrev pub ◌≼◌ : F → F → Type 0
  x ≼ y = le x y ≡ true

  -- NaN is the value that is not `<=` itself.
  abbrev pub IsNum : F → Type 0
  IsNum x = x ≼ x

-- The order of the doubles, total away from NaN, and `Math.max` and `Math.min` as its bounds.
pub record IsOrdered (F : Type 0) ⦃n : Number F⦄ : Type 0 where
  pub num_of_le : (x y : F) → x ≼ y → IsNum x × IsNum y
  pub num_of_lt : (x y : F) → n.lt x y ≡ true → IsNum x × IsNum y
  pub le_trans : (x y z : F) → x ≼ y → y ≼ z → x ≼ z
  pub le_total : (x y : F) → IsNum x → IsNum y → (x ≼ y) ⊎ (y ≼ x)
  pub lt-eq-not-le : (x y : F) → IsNum x → IsNum y → n.lt x y ≡ not (n.le y x)
  pub num_of_max : (x y : F) → IsNum (n.max x y) → IsNum x × IsNum y
  pub num_of_min : (x y : F) → IsNum (n.min x y) → IsNum x × IsNum y
  pub max_bounds : (x y : F) → IsNum x → IsNum y → (x ≼ n.max x y) × (y ≼ n.max x y)
  pub max_least : (x y z : F) → x ≼ z → y ≼ z → n.max x y ≼ z
  pub min_bounds : (x y : F) → IsNum x → IsNum y → (n.min x y ≼ x) × (n.min x y ≼ y)
  pub min_greatest : (x y z : F) → z ≼ x → z ≼ y → z ≼ n.min x y
  pub decimal-le : (a b k : ℕ) → a ≤ b → n.decimal a k ≼ n.decimal b k
  pub zero-le : (a k : ℕ) → int 0 ≼ n.decimal a k
  pub neg-le : (x : F) → int 0 ≼ x → n.neg x ≼ int 0
  pub finite_num : (x : F) → n.is_finite x ≡ true → IsNum x

-- Multiplication of doubles commutes.
pub record IsCommutative (F : Type 0) ⦃n : Number F⦄ : Type 0 where
  pub mul_comm : (x y : F) → n.mul x y ≡ n.mul y x

-- What the doubles are to subtraction and `Math.min`.
pub record IsSubtractive (F : Type 0) ⦃n : Number F⦄ : Type 0 where
  pub sub_self : (x : F) → n.is_finite x ≡ true → n.sub x x ≡ int 0
  pub min_either : (x y : F) → (n.min x y ≡ x) ⊎ (n.min x y ≡ y)
  pub finite_between : (x y : F) → int 0 ≼ x → x ≼ y → n.is_finite y ≡ true → n.is_finite x ≡ true
