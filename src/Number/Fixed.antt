-- ===== src/Number/Fixed.antt =====
-- A type of numbers that meets the laws of `Number`: fixed-point decimals with eight places, and NaN.
use Prim.Native.Nat.{◌+◌, ◌-◌, ◌^◌, ◌*◌, ◌/◌}
use native.Mathlib.Nat.{le_trans, mul_comm, add_comm, div-zero, div-mul-le_self, le-div_iff_mul-le}
use stellar_portfolio_rebala.Prelude.{
  ℕ, zero, suc, ◌≡◌, refl, ap, ◌≤◌, Bool, true, false, arith, if◌then◌else◌, ltb,
}
use stellar_portfolio_rebala.Prelude.Int.{
  ℤ, pos, negsuc, pos_part, neg_part, sub_ℕ, ◌+ℤ◌, ◌-ℤ◌, ◌*ℤ◌, ◌÷ℤ◌, ltb_ℤ, leb_ℤ,
}
use stellar_portfolio_rebala.Number.{Number, IsOrdered, IsCommutative, IsSubtractive}

pub data Fixed : Type 0 where
  nan : Fixed
  fixed : ℤ → Fixed

abbrev scale : ℕ
scale = 100_000_000

abbrev binary : (ℤ → ℤ → ℤ) → Fixed → Fixed → Fixed
binary f (fixed a) (fixed b) = fixed (f a b)
binary f _ _ = nan

abbrev unary : (ℤ → ℤ) → Fixed → Fixed
unary f nan = nan
unary f (fixed a) = fixed (f a)

abbrev test : (ℤ → ℤ → Bool) → Fixed → Fixed → Bool
test f (fixed a) (fixed b) = f a b
test f _ _ = false

abbrev finite : Fixed → Bool
finite nan = false
finite (fixed a) = true

-- A division by zero is NaN here.
abbrev quotient : Fixed → Fixed → Fixed
quotient (fixed a) (fixed b) =
    if ltb 0 (pos_part b + neg_part b) then fixed (◌÷ℤ◌ (a *ℤ pos scale) b) else nan
quotient _ _ = nan

abbrev whole : Fixed → ℕ
whole nan = 0
whole (fixed a) = pos_part a / scale

abbrev power : Fixed → ℕ → Fixed
power x zero = fixed (pos scale)
power x (suc k) = binary (λ a b. ◌÷ℤ◌ (a *ℤ b) (pos scale)) x (power x k)

-- The nearest whole number, a tie upwards.
abbrev nearest : ℤ → ℤ
nearest a =
    sub_ℕ ((pos_part a + scale / 2) / scale * scale)
      ((neg_part a + (scale / 2 - 1)) / scale * scale)

instance abbrev pub fixed_number : Number Fixed
fixed_number = record {
  decimal = λ n k. fixed (pos (n * scale / 10 ^ k));
  nan = nan;
  add = binary ◌+ℤ◌;
  sub = binary ◌-ℤ◌;
  mul = binary (λ a b. ◌÷ℤ◌ (a *ℤ b) (pos scale));
  div = quotient;
  neg = unary (λ a. pos 0 -ℤ a);
  abs = unary (λ a. if ltb_ℤ a (pos 0) then pos 0 -ℤ a else a);
  -- Any functions serve for the root and for text: no law speaks of them.
  pow = power;
  sqrt = unary (λ a. a);
  round = unary nearest;
  max = binary (λ a b. if ltb_ℤ a b then b else a);
  min = binary (λ a b. if ltb_ℤ b a then b else a);
  lt = test ltb_ℤ;
  le = test leb_ℤ;
  is_finite = finite;
  floor = whole;
  to_fixed = λ x k. "";
  to_text = λ x. "";
  parse = λ s. nan;
}

div_mono : (x y p : ℕ) → x ≤ y → x / p ≤ y / p
div_mono x y zero h = rw (div-zero x) (omega arith)
div_mono x y (suc p) h =
    (le-div_iff_mul-le {k = suc p} (omega arith)).1 (le_trans (div-mul-le_self x (suc p)) h)

decimal-le :
    (a b k : ℕ) → a ≤ b → leb_ℤ (pos (a * scale / 10 ^ k)) (pos (b * scale / 10 ^ k)) ≡ true
decimal-le a b k h =
    let up : a * scale / 10 ^ k ≤ b * scale / 10 ^ k =
      div_mono (a * scale) (b * scale) (10 ^ k) (omega arith) in
    ground arith

pub Fixed-IsOrdered : IsOrdered Fixed
Fixed-IsOrdered = record {
  num_of_le = ground arith;
  num_of_lt = ground arith;
  le_trans = ground arith;
  le_total = ground arith;
  lt-eq-not-le = ground arith;
  num_of_max = ground arith;
  num_of_min = ground arith;
  max_bounds = ground arith;
  max_least = ground arith;
  min_bounds = ground arith;
  min_greatest = ground arith;
  decimal-le = decimal-le;
  zero-le = ground arith;
  neg-le = ground arith;
  finite_num = ground arith;
}

*ℤ_comm : (a b : ℤ) → a *ℤ b ≡ b *ℤ a
*ℤ_comm a b = rw (
  mul_comm (pos_part a) (pos_part b),
  mul_comm (neg_part a) (neg_part b),
  mul_comm (pos_part a) (neg_part b),
  mul_comm (neg_part a) (pos_part b),
  add_comm (neg_part b * pos_part a) (pos_part b * neg_part a),
)

mul_comm_Fixed : (x y : Fixed) → fixed_number.mul x y ≡ fixed_number.mul y x
mul_comm_Fixed nan nan = refl
mul_comm_Fixed nan (fixed b) = refl
mul_comm_Fixed (fixed a) nan = refl
mul_comm_Fixed (fixed a) (fixed b) = ap (λ c. fixed (◌÷ℤ◌ c (pos scale))) (*ℤ_comm a b)

pub Fixed-IsCommutative : IsCommutative Fixed
Fixed-IsCommutative = record { mul_comm = mul_comm_Fixed }

sub_self : (x : Fixed) → finite x ≡ true → binary ◌-ℤ◌ x x ≡ fixed (pos 0)
sub_self nan h = ground (arith, h)
sub_self (fixed (pos a)) h = ground arith
sub_self (fixed (negsuc a)) h = ground arith

pub Fixed-IsSubtractive : IsSubtractive Fixed
Fixed-IsSubtractive = record {
  sub_self = sub_self;
  min_either = ground arith;
  finite_between = ground arith;
}
