-- ===== src/Util/Metric.antt =====
-- `bit_distance` as a metric on hashes: the laws that the buckets and the search rely on.
use spatter.Messages.Memory.{IsBytes}
use spatter.Messages.Hash.{Hash, IsHash}
use spatter.Util.Bits.{differing-le}
use spatter.Util.Bits.Triangle.{differing_comm, differing_triangle, eq_of_differing, differing_self}
use spatter.Util.Distance.{bit_distance, hamming, bit_distance-hamming}
use spatter.Prelude.{ℕ, zero, suc, ◌+◌, ◌*◌, ◌≤◌, ◌≡◌, ◌↔◌, refl, sym, ap, List, [], ◌∷◌, arith}

hamming_comm : (a b : List ℕ) → hamming a b ≡ hamming b a
unfolding hamming
hamming_comm [] [] = refl
hamming_comm [] (y ∷ b) = refl
hamming_comm (x ∷ a) [] = refl
hamming_comm (x ∷ a) (y ∷ b) = rw (differing_comm 8 x y, hamming_comm a b)

hamming_self : (a : List ℕ) → hamming a a ≡ 0
unfolding hamming
hamming_self [] = refl
hamming_self (x ∷ a) = omega (arith, differing_self 8 x, hamming_self a)

hamming-le : (n : ℕ) (a b : List ℕ) → IsBytes n a → hamming a b ≤ n * 8
unfolding hamming
hamming-le n [] b u = omega arith
hamming-le n (x ∷ a) [] u = omega arith
hamming-le zero (x ∷ a) (y ∷ b) u = absurd u
hamming-le (suc n) (x ∷ a) (y ∷ b) u = omega (arith, differing-le 8 x y, hamming-le n a b u.1)

hamming_triangle :
    (n : ℕ) (a b c : List ℕ)
    → IsBytes n a
    → IsBytes n b
    → IsBytes n c
    → hamming a c ≤ hamming a b + hamming b c
unfolding hamming
hamming_triangle n [] b c u v w = omega arith
hamming_triangle zero (x ∷ a) b c u v w = absurd u
hamming_triangle (suc n) (x ∷ a) [] c u v w = absurd v
hamming_triangle (suc n) (x ∷ a) (y ∷ b) [] u v w = absurd w
hamming_triangle (suc n) (x ∷ a) (y ∷ b) (z ∷ c) u v w =
    omega (arith, differing_triangle 8 x y z, hamming_triangle n a b c u.1 v.1 w.1)

eq_of_hamming : (n : ℕ) (a b : List ℕ) → IsBytes n a → IsBytes n b → hamming a b ≡ 0 → a ≡ b
unfolding hamming
eq_of_hamming zero [] [] u v h = refl
eq_of_hamming zero (x ∷ a) b u v h = absurd u
eq_of_hamming zero [] (y ∷ b) u v h = absurd v
eq_of_hamming (suc n) [] b u v h = absurd u
eq_of_hamming (suc n) (x ∷ a) [] u v h = absurd v
eq_of_hamming (suc n) (x ∷ a) (y ∷ b) u v h =
    cc (eq_of_differing 8 x y u.0 v.0 (omega arith), eq_of_hamming n a b u.1 v.1 (omega arith))

-- The distance of two arrays of 24 bytes is symmetric and at most 192, and it is 0 exactly if they are
-- the same.
pub bit_distance_metric :
    (a b : Hash)
    → IsHash a
    → IsHash b
    → (bit_distance a b ≡ bit_distance b a)
      × (bit_distance a b ≤ 192)
      × ((bit_distance a b ≡ 0) ↔ (a ≡ b))
bit_distance_metric a b u v =
    let ab = bit_distance-hamming a b u v in
    let ba = bit_distance-hamming b a v u in
    (
      omega (arith, ab, ba, hamming_comm a b),
      omega (arith, ab, hamming-le 24 a b u),
      (
        λ h. eq_of_hamming 24 a b u v (omega arith),
        λ e. omega (arith, ab, ap (hamming a) (sym e), hamming_self a),
      ),
    )

-- The distance of arrays of 24 bytes satisfies the triangle inequality.
bit_distance_triangle :
    (a b c : Hash)
    → IsHash a
    → IsHash b
    → IsHash c
    → bit_distance a c ≤ bit_distance a b + bit_distance b c
bit_distance_triangle a b c u v w = omega (
  arith,
  bit_distance-hamming a b u v,
  bit_distance-hamming b c v w,
  bit_distance-hamming a c u w,
  hamming_triangle 24 a b c u v w,
)
