-- ===== src/Util/Bits/Triangle.antt =====
-- The number of bits in which two numbers differ, as a distance: the laws for one digit and for `w`
-- digits that Util/Metric.antt carries over to `bit_distance` of util/util.cpp.
use Prim.Native.Nat.{differ}
use native.Mathlib.Nat.{pow-suc}
use spatter.Util.Bits.{differing, differ_self}
use spatter.Prelude.{ℕ, zero, suc, ◌+◌, ◌/◌, ◌%◌, ◌^◌, ◌≤◌, ◌<◌, ◌≡◌, refl, sym, ap, arith}

differ_comm : (a b : ℕ) → differ a b ≡ differ b a
differ_comm zero zero = refl
differ_comm zero (suc b) = refl
differ_comm (suc a) zero = refl
differ_comm (suc a) (suc b) = differ_comm a b

pub differing_comm : (w a b : ℕ) → differing w a b ≡ differing w b a
unfolding differing
differing_comm zero a b = refl
differing_comm (suc w) a b = rw (differ_comm (a % 2) (b % 2), differing_comm w (a / 2) (b / 2))

pub differing_self : (w a : ℕ) → differing w a a ≡ 0
unfolding differing
differing_self zero a = refl
differing_self (suc w) a = omega (arith, differ_self (a % 2), differing_self w (a / 2))

differ-le-add : (a b : ℕ) → differ a b ≤ a + b
differ-le-add zero b = omega arith
differ-le-add (suc a) zero = omega arith
differ-le-add (suc a) (suc b) = omega (arith, differ-le-add a b)

le-differ-add : (a b : ℕ) → a ≤ differ a b + b
le-differ-add zero b = omega arith
le-differ-add (suc a) zero = omega arith
le-differ-add (suc a) (suc b) = omega (arith, le-differ-add a b)

differ_triangle : (a b c : ℕ) → differ a c ≤ differ a b + differ b c
differ_triangle zero zero c = omega arith
differ_triangle zero (suc b) zero = omega arith
differ_triangle zero (suc b) (suc c) = omega (arith, differ_triangle zero b c)
differ_triangle (suc a) zero zero = omega arith
differ_triangle (suc a) zero (suc c) = omega (arith, differ-le-add a c)
differ_triangle (suc a) (suc b) zero = omega (arith, le-differ-add a b)
differ_triangle (suc a) (suc b) (suc c) = differ_triangle a b c

pub differing_triangle : (w a b c : ℕ) → differing w a c ≤ differing w a b + differing w b c
unfolding differing
differing_triangle zero a b c = omega arith
differing_triangle (suc w) a b c =
    omega
      (arith, differ_triangle (a % 2) (b % 2) (c % 2), differing_triangle w (a / 2) (b / 2) (c / 2))

eq_of_differ : (a b : ℕ) → differ a b ≡ 0 → a ≡ b
eq_of_differ zero b h = sym h
eq_of_differ (suc a) zero h = h
eq_of_differ (suc a) (suc b) h = ap suc (eq_of_differ a b h)

pub eq_of_differing : (w a b : ℕ) → a < 2 ^ w → b < 2 ^ w → differing w a b ≡ 0 → a ≡ b
unfolding differing
eq_of_differing zero a b h k e = omega arith
eq_of_differing (suc w) a b h k e =
    let two = pow-suc 2 w in
    let high = eq_of_differing w (a / 2) (b / 2) (omega arith) (omega arith) (omega arith) in
    let low = eq_of_differ (a % 2) (b % 2) (omega arith) in omega (arith, high, low)
