-- ===== src/Util/Bits.antt =====
-- Binary digits: the number of ones among the lowest `w` bits, and of the bits in which two numbers
-- differ. These are the reference that the table and the loop of util/util.cpp are compared with.
pub mod Triangle
use Prim.Native.Nat.{differ, digits, bit_xor-bitwise}
use native.Mathlib.Nat.{le_refl, pow-suc, one-le-pow, mod-lt, add-zero}
use spatter.Prelude.{
  ℕ, zero, suc, ◌+◌, ◌*◌, ◌/◌, ◌%◌, ◌^◌, ◌≤◌, ◌<◌, bit_xor, ◌≡◌, refl, sym, ap, arith,
}

-- The ones among the lowest `w` bits of `n`.
unfoldable pub ones : ℕ → ℕ → ℕ
ones zero n = 0
ones (suc w) n = n % 2 + ones w (n / 2)

-- The bits among the lowest `w` in which `a` and `b` differ.
unfoldable pub differing : ℕ → ℕ → ℕ → ℕ
differing zero a b = 0
differing (suc w) a b = differ (a % 2) (b % 2) + differing w (a / 2) (b / 2)

module _ (z : ℕ → ℕ) (f : ℕ → ℕ → ℕ) where
  -- The count of digits to go is immaterial once it is large enough.
  digits_count : (k l a b : ℕ) → a ≤ k → a ≤ l → digits z f k a b ≡ digits z f l a b
  digits_count zero zero a b u v = refl
  digits_count zero (suc l) zero b u v = refl
  digits_count zero (suc l) (suc a) b u v = absurd (omega arith)
  digits_count (suc k) zero zero b u v = refl
  digits_count (suc k) zero (suc a) b u v = absurd (omega arith)
  digits_count (suc k) (suc l) zero b u v = refl
  digits_count (suc k) (suc l) (suc a) b u v =
      rw (digits_count k l (suc a / 2) (b / 2) (omega arith) (omega arith))

-- The lowest digit of an exclusive or.
pub bit_xor_step : (a b : ℕ) → bit_xor a b ≡ bit_xor (a / 2) (b / 2) * 2 + differ (a % 2) (b % 2)
bit_xor_step zero b = simp bit_xor-bitwise (omega arith)
bit_xor_step (suc a) b = simp bit_xor-bitwise (
    omega (
      arith,
      digits_count (λ y. y) differ a (suc a / 2) (suc a / 2) (b / 2) (omega arith) (le_refl _),
    ))

pub differ_le_one : (a b : ℕ) → a ≤ 1 → b ≤ 1 → differ a b ≤ 1
differ_le_one zero b h k = k
differ_le_one (suc a) zero h k = h
differ_le_one (suc a) (suc b) h k = differ_le_one a b (omega arith) (omega arith)

pub ones-bit_xor : (w a b : ℕ) → ones w (bit_xor a b) ≡ differing w a b
unfolding ones differing
ones-bit_xor zero a b = refl
ones-bit_xor (suc w) a b =
    let step = bit_xor_step a b in
    let digit = differ_le_one (a % 2) (b % 2) (omega arith) (omega arith) in
    let low : bit_xor a b % 2 ≡ differ (a % 2) (b % 2) = omega arith in
    let high : bit_xor a b / 2 ≡ bit_xor (a / 2) (b / 2) = omega arith in
    rw (low, high, ones-bit_xor w (a / 2) (b / 2))

pub ones-le : (w n : ℕ) → ones w n ≤ w
unfolding ones
ones-le zero n = omega arith
ones-le (suc w) n = omega (arith, ones-le w (n / 2))

pub differing-le : (w a b : ℕ) → differing w a b ≤ w
unfolding differing
differing-le zero a b = omega arith
differing-le (suc w) a b = omega (
  arith,
  differing-le w (a / 2) (b / 2),
  differ_le_one (a % 2) (b % 2) (omega arith) (omega arith),
)

double : (q k : ℕ) → q * 2 ^ suc k ≡ 2 * (q * 2 ^ k)
double q k = omega (arith, ap (λ (t : ℕ). q * t) (pow-suc 2 k))

-- The bits of a number in two parts, `hi` above `w` bits of `lo`.
pub differing_parts :
    (w v a b p q : ℕ)
    → a < 2 ^ w
    → b < 2 ^ w
    → differing (w + v) (a + p * 2 ^ w) (b + q * 2 ^ w) ≡ differing w a b + differing v p q
unfolding differing
differing_parts zero v a b p q h k =
    let a0 : a + p * 2 ^ 0 ≡ p = omega arith in
    let b0 : b + q * 2 ^ 0 ≡ q = omega arith in
    let v0 : 0 + v ≡ v = omega arith in rw (v0, a0, b0) (omega arith)
differing_parts (suc w) v a b p q h k =
    let two = pow-suc 2 w in
    let pm : p * 2 ^ suc w ≡ 2 * (p * 2 ^ w) = double p w in
    let qm : q * 2 ^ suc w ≡ 2 * (q * 2 ^ w) = double q w in
    let a0 : (a + p * 2 ^ suc w) % 2 ≡ a % 2 = omega arith in
    let b0 : (b + q * 2 ^ suc w) % 2 ≡ b % 2 = omega arith in
    let a1 : (a + p * 2 ^ suc w) / 2 ≡ a / 2 + p * 2 ^ w = omega arith in
    let b1 : (b + q * 2 ^ suc w) / 2 ≡ b / 2 + q * 2 ^ w = omega arith in
    let n : suc w + v ≡ suc (w + v) = omega arith in
    let ih = differing_parts w v (a / 2) (b / 2) p q (omega arith) (omega arith) in
    rw (n, differing, a0, b0, a1, b1) (omega arith)

pub differ_self : (a : ℕ) → differ a a ≡ 0
differ_self zero = refl
differ_self (suc a) = differ_self a

bit_xor_self_below : (n a : ℕ) → a ≤ n → bit_xor a a ≡ 0
bit_xor_self_below n zero h = refl
bit_xor_self_below zero (suc a) h = absurd (omega arith)
bit_xor_self_below (suc n) (suc a) h = omega (
  arith,
  bit_xor_step (suc a) (suc a),
  differ_self (suc a % 2),
  bit_xor_self_below n (suc a / 2) (omega arith),
)

pub bit_xor_self : (a : ℕ) → bit_xor a a ≡ 0
bit_xor_self a = bit_xor_self_below a a (omega arith)

pub zero-bit_xor : (a : ℕ) → bit_xor 0 a ≡ a
zero-bit_xor a = simp bit_xor-bitwise

differ-zero : (a : ℕ) → differ a 0 ≡ a
differ-zero zero = refl
differ-zero (suc a) = refl

pub ones-differing : (w n : ℕ) → ones w n ≡ differing w n 0
unfolding ones differing
ones-differing zero n = refl
ones-differing (suc w) n = rw (differ-zero (n % 2), ones-differing w (n / 2))

-- The ones of a number are those of its two parts.
pub ones_parts : (w v a p : ℕ) → a < 2 ^ w → ones (w + v) (a + p * 2 ^ w) ≡ ones w a + ones v p
ones_parts w v a p h =
    let zeros : 0 + 0 * 2 ^ w ≡ 0 = omega arith in
    let parts = differing_parts w v a 0 p 0 h (omega arith) in
    omega (
      arith,
      ap (λ (t : ℕ). differing (w + v) (a + p * 2 ^ w) t) zeros,
      parts,
      ones-differing (w + v) (a + p * 2 ^ w),
      ones-differing w a,
      ones-differing v p,
    )

-- Only the low bits of a number are counted.
pub ones-mod : (w n : ℕ) → ones w (n % 2 ^ w) ≡ ones w n
unfolding ones
ones-mod w n =
    let P : ℕ = 2 ^ w in
    let pos = one-le-pow w 2 in
    let whole : n % P + n / P * P ≡ n = grind arith in
    let parts = ones_parts w 0 (n % P) (n / P) (grind (arith, mod-lt)) in
    omega (
      arith,
      parts,
      ap (λ (t : ℕ). ones t (n % P + n / P * P)) (add-zero w),
      ap (λ (t : ℕ). ones w t) whole,
    )

-- A 32-bit word is counted in two halves.
pub ones_word : (v : ℕ) → ones 16 (v % 65536) + ones 16 (v / 65536 % 65536) ≡ ones 32 v
ones_word v =
    let parts = ones_parts 16 16 (v % 65536) (v / 65536) (omega arith) in
    let whole : v % 65536 + v / 65536 * 65536 ≡ v = omega arith in
    omega (arith, parts, ones-mod 16 (v / 65536), ap (λ (t : ℕ). ones 32 t) whole)
