-- ===== src/Util/Distance.antt =====
-- `bit_distance` of util/util.cpp. `v & 0xffff` is `v % 65536`, `v >> 16` is `v / 65536`.
use native.Mathlib.Nat.{add-zero}
use spatter.Messages.Memory.{IsBytes, load}
use spatter.Messages.Hash.{Hash, IsHash, hash_bytes}
use spatter.Util.Bits.{ones, differing, ones-bit_xor, differing_parts, ones_word}
use spatter.Util.Table.{Table, bits_in_16bits, bits_in_16bits-ones}
use spatter.Prelude.{
  ℕ, zero, suc, ◌+◌, ◌*◌, ◌/◌, ◌%◌, ◌<◌, ◌≡◌, ap, ◌==◌, if◌then◌else◌, arith, List, [], ◌∷◌,
  bit_xor, drop,
}

-- The body of the loop, for the word `v` of differences: `continue` where it is zero.
add_word : Table → ℕ → ℕ → ℕ
add_word t v dist = if v == 0 then dist else dist + (t (v % 65536) + t (v / 65536 % 65536))

-- The loop with `n` rounds left; `p` and `q` point to the words of the next round.
distance_loop : ℕ → Table → List ℕ → List ℕ → ℕ → ℕ
distance_loop zero t p q dist = dist
distance_loop (suc n) t p q dist =
    distance_loop n t (drop 4 p) (drop 4 q) (add_word t (bit_xor (load 4 p) (load 4 q)) dist)

unfoldable pub bit_distance : Hash → Hash → ℕ
unfolding distance_loop add_word load
bit_distance h1 h2 = distance_loop (hash_bytes / 4) bits_in_16bits h1 h2 0

-- The reference: the number of bit positions in which two arrays of bytes differ.
unfoldable pub hamming : List ℕ → List ℕ → ℕ
hamming [] b = 0
hamming (x ∷ a) [] = 0
hamming (x ∷ a) (y ∷ b) = differing 8 x y + hamming a b

ones-zero : (v : ℕ) → v ≡ 0 → ones 32 v ≡ 0
unfolding ones
ones-zero v e = rw e

-- A word of the table's two counts.
add_word_lem : (v dist : ℕ) → add_word bits_in_16bits v dist ≡ dist + ones 32 v
unfolding add_word
add_word_lem v dist = ground (
  arith,
  bits_in_16bits-ones (v % 65536) (omega arith),
  bits_in_16bits-ones (v / 65536 % 65536) (omega arith),
  ones_word v,
  ones-zero v,
)

-- Four rounds of eight bits.
differing_word :
    (x0 x1 x2 x3 y0 y1 y2 y3 : ℕ)
    → x0 < 256
    → x1 < 256
    → x2 < 256
    → y0 < 256
    → y1 < 256
    → y2 < 256
    → differing 32
        (x0 + (x1 + (x2 + x3 * 256) * 256) * 256)
        (y0 + (y1 + (y2 + y3 * 256) * 256) * 256)
      ≡ differing 8 x0 y0 + (differing 8 x1 y1 + (differing 8 x2 y2 + differing 8 x3 y3))
differing_word x0 x1 x2 x3 y0 y1 y2 y3 a b c d e f = omega (
  arith,
  differing_parts 8 24 x0 y0 (x1 + (x2 + x3 * 256) * 256) (y1 + (y2 + y3 * 256) * 256) a d,
  differing_parts 8 16 x1 y1 (x2 + x3 * 256) (y2 + y3 * 256) b e,
  differing_parts 8 8 x2 y2 x3 y3 c f,
)

-- The bytes of `n` words.
abbrev word_bytes : ℕ → ℕ
word_bytes zero = 0
word_bytes (suc n) = suc (suc (suc (suc (word_bytes n))))

-- A round adds the differences of its four bytes.
round_lem :
    (x0 x1 x2 x3 y0 y1 y2 y3 dist : ℕ) (p q : List ℕ)
    → IsBytes 3 (x0 ∷ x1 ∷ x2 ∷ [])
    → IsBytes 3 (y0 ∷ y1 ∷ y2 ∷ [])
    → add_word bits_in_16bits
        (bit_xor (load 4 (x0 ∷ x1 ∷ x2 ∷ x3 ∷ p)) (load 4 (y0 ∷ y1 ∷ y2 ∷ y3 ∷ q)))
        dist
      ≡ dist + (differing 8 x0 y0 + (differing 8 x1 y1 + (differing 8 x2 y2 + differing 8 x3 y3)))
unfolding load
round_lem x0 x1 x2 x3 y0 y1 y2 y3 dist p q (a, (b, (c, _))) (d, (e, (f, _))) =
    rw (add-zero x3, add-zero y3, add_word_lem, ones-bit_xor)
      (ap (◌+◌ dist) (differing_word x0 x1 x2 x3 y0 y1 y2 y3 a b c d e f))

distance_loop_lem :
    (n : ℕ) (p q : List ℕ) (dist : ℕ)
    → IsBytes (word_bytes n) p
    → IsBytes (word_bytes n) q
    → distance_loop n bits_in_16bits p q dist ≡ dist + hamming p q
unfolding distance_loop hamming
distance_loop_lem zero [] q dist u v = omega arith
distance_loop_lem zero (x ∷ p) q dist u v = absurd u
distance_loop_lem (suc n) (x0 ∷ x1 ∷ x2 ∷ x3 ∷ p) (y0 ∷ y1 ∷ y2 ∷ y3 ∷ q) dist u v =
    rw
      (round_lem x0 x1 x2 x3 y0 y1 y2 y3 dist p q (u.0, (u.1.0, (u.1.1.0, tt)))
        (v.0, (v.1.0, (v.1.1.0, tt))))
      (omega (arith, distance_loop_lem n p q _ u.1.1.1.1 v.1.1.1.1))
distance_loop_lem (suc n) p q dist u v = ground arith

-- The table-driven loop over six 32-bit words counts the bit positions in which two arrays
-- of 24 bytes differ.
pub bit_distance-hamming :
    (h1 h2 : Hash) → IsHash h1 → IsHash h2 → bit_distance h1 h2 ≡ hamming h1 h2
unfolding bit_distance
bit_distance-hamming h1 h2 u v = omega (arith, distance_loop_lem 6 h1 h2 0 u v)
