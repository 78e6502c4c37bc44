-- ===== src/Matching/Numbers.antt =====
-- The machine's numbers that scores are made of (IEEE doubles other than NaN), as a parameter with
-- the laws that rounding respects. Counts are natural numbers; a distance is a natural number of a
-- unit of which every double is a whole number, so that its order is that of the numbers, and the sum
-- of two distances, which is rounded, is the parameter `add_km`.
use appforfixiyi.Common.{
  ℕ, ◌<◌, ◌≡◌, refl, Bool, true, false, Option, none, some, ◌⊎◌, leb, if◌then◌else◌, arith, ◌-◌,
  ◌*◌, ◌+◌,
}
use Prim.Native.Nat.{◌/◌}

pub record Numbers : Type 1 where
  pub R : Type 0
  pub zero : R
  pub one : R
  pub add : R → R → R
  pub mul : R → R → R
  pub sub : R → R → R
  pub le : R → R → Bool
  -- `a + b` of two distances, rounded.
  pub add_km : ℕ → ℕ → ℕ
  -- `d / r` of two counts or distances; `none` is Infinity.
  pub quotient : Option ℕ → ℕ → R
  pub le_total : (x y : R) → (le x y ≡ true) ⊎ (le y x ≡ true)
  pub le_trans : (x y z : R) → le x y ≡ true → le y z ≡ true → le x z ≡ true
  pub zero-le-one : le zero one ≡ true
  -- 0 / 0 is NaN, so the divisor is positive.
  pub quotient_nonneg : (d : Option ℕ) (r : ℕ) → 0 < r → le zero (quotient d r) ≡ true
  pub one-sub_nonneg : (x : R) → le x one ≡ true → le zero (sub one x) ≡ true
  pub one-sub_le : (x : R) → le zero x ≡ true → le (sub one x) one ≡ true

module _ (n : Numbers) where
  -- `Math.min(1, x)` and `Math.max(0, x)`.
  abbrev pub at_most_one : n.R → n.R
  at_most_one x = if n.le n.one x then n.one else x

  abbrev pub at_least_zero : n.R → n.R
  at_least_zero x = if n.le x n.zero then n.zero else x

  abbrev pub IsUnit : n.R → Type 0
  IsUnit x = (n.le n.zero x ≡ true) × (n.le x n.one ≡ true)

  pub le_refl : (x : n.R) → n.le x x ≡ true
  le_refl x = ground (arith, n.le_total x x)

  pub le_of_not : (x y : n.R) → n.le x y ≡ false → n.le y x ≡ true
  le_of_not x y h = ground (arith, n.le_total x y)

  pub IsUnit-zero : IsUnit n.zero
  IsUnit-zero = (le_refl n.zero, n.zero-le-one)

  pub IsUnit-one : IsUnit n.one
  IsUnit-one = (n.zero-le-one, le_refl n.one)

  pub IsUnit-at_most_one : (x : n.R) → n.le n.zero x ≡ true → IsUnit (at_most_one x)
  IsUnit-at_most_one x h =
      (ground (arith, n.zero-le-one), ground (arith, le_refl n.one, le_of_not n.one x))

  pub IsUnit-complement : (x : n.R) → IsUnit x → IsUnit (at_least_zero (n.sub n.one x))
  IsUnit-complement x h = (
    ground (arith, le_refl n.zero, n.one-sub_nonneg x),
    ground (arith, n.zero-le-one, n.one-sub_le x),
  )

pub leb_total : (a b : ℕ) → (leb a b ≡ true) ⊎ (leb b a ≡ true)
leb_total a b = ground arith

pub leb_trans : (a b c : ℕ) → leb a b ≡ true → leb b c ≡ true → leb a c ≡ true
leb_trans a b c h k = ground arith

pub leb_zero : (a : ℕ) → leb 0 a ≡ true
leb_zero a = ground arith

pub sub_leb : (a : ℕ) → leb (1000 - a) 1000 ≡ true
sub_leb a = ground arith

-- Thousandths, as an instance of the laws.
abbrev pub thousandths : Numbers
thousandths = record {
  R = ℕ;
  zero = 0;
  one = 1000;
  add = λ a b. a + b;
  mul = λ a b. a * b / 1000;
  sub = λ a b. a - b;
  le = leb;
  add_km = λ a b. a + b;
  quotient = λ d r. elim d [ none ↦ 1000000 | some m ↦ m * 1000 / r ];
  le_total = leb_total;
  le_trans = leb_trans;
  zero-le-one = refl;
  quotient_nonneg = λ d r h. leb_zero _;
  one-sub_nonneg = λ x h. leb_zero _;
  one-sub_le = λ x h. sub_leb x;
}
