-- ===== src/Util/Table.antt =====
-- `bits_in_16bits` and `init_util` of util/util.cpp. `i & 1` is `i % 2`, `i >> 1` is `i / 2`.
use native.Mathlib.Nat.{pow-suc}
use spatter.Util.Bits.{ones, ones-le}
use spatter.Prelude.{
  ℕ, zero, suc, ◌+◌, ◌/◌, ◌%◌, ◌^◌, ◌≤◌, ◌<◌, ◌≡◌, refl, ◌==◌, if◌then◌else◌, arith,
}

abbrev pub Table : Type 0
Table = ℕ → ℕ

abbrev pub table_size : ℕ
table_size = 65536

-- `table[i] = v`, with `uint8_t` elements.
store : Table → ℕ → ℕ → Table
store t i v j = if i == j then v % 256 else t j

-- The loop of `init_util`, with `n` rounds left.
fill : ℕ → ℕ → Table → Table
fill zero i t = t
fill (suc n) i t = fill n (i + 1) (store t i (i % 2 + t (i / 2)))

unfoldable pub init_util : Table → Table
unfolding fill store
init_util t = fill table_size 0 (store t 0 0)

-- The table that `main` leaves, by its call of `init_util`.
unfoldable pub bits_in_16bits : Table
bits_in_16bits = init_util (λ _. 0)

-- A number below `2 ^ w` has no ones above its lowest `w` bits.
ones_of_small : (w n : ℕ) → n < 2 ^ w → ones (suc w) n ≡ ones w n
unfolding ones
ones_of_small zero n h = omega arith
ones_of_small (suc w) n h =
    let two = pow-suc 2 w in let ih = ones_of_small w (n / 2) (omega arith) in rw ih

ones_half : (i : ℕ) → i < table_size → ones 16 i ≡ i % 2 + ones 16 (i / 2)
unfolding ones
ones_half i h = omega (arith, ones_of_small 15 (i / 2) (omega arith))

-- What a round stores, once the entries below `i` are right.
round_value :
    (i : ℕ) (t : Table)
    → i < table_size
    → t 0 ≡ 0
    → ((j : ℕ) → j < i → t j ≡ ones 16 j)
    → i % 2 + t (i / 2) ≡ ones 16 i
unfolding ones
round_value zero t h z f = rw z
round_value (suc i) t h z f = omega (arith, f (suc i / 2) (omega arith), ones_half (suc i) h)

round_below :
    (i : ℕ) (t : Table)
    → i < table_size
    → t 0 ≡ 0
    → ((j : ℕ) → j < i → t j ≡ ones 16 j)
    → (j : ℕ) → j < i + 1
    → store t i (i % 2 + t (i / 2)) j ≡ ones 16 j
unfolding store
round_below i t h z f j k = ground (arith, round_value i t h z f, f j, ones-le 16 i)

-- The rounds so far have left the counts of the numbers below `i`.
fill_lem :
    (n i : ℕ) (t : Table)
    → i + n ≤ table_size
    → t 0 ≡ 0
    → ((j : ℕ) → j < i → t j ≡ ones 16 j)
    → (j : ℕ) → j < i + n
    → fill n i t j ≡ ones 16 j
unfolding fill ones
fill_lem zero i t h z f j k = f j (omega arith)
fill_lem (suc n) i t h z f j k =
    let below = round_below i t (omega arith) z f in
    fill_lem n (i + 1) (store t i (i % 2 + t (i / 2))) (omega arith) (below 0 (omega arith)) below j
      (omega arith)

-- Whatever the array holds before, `init_util` leaves in each of its 65536 entries the number of
-- ones in the binary form of the index.
init_util-ones : (t : Table) (v : ℕ) → v < table_size → init_util t v ≡ ones 16 v
unfolding init_util
init_util-ones t v h =
    fill_lem table_size 0 (store t 0 0) (omega arith) refl (λ j k. absurd (omega arith)) v
      (omega arith)

pub bits_in_16bits-ones : (v : ℕ) → v < table_size → bits_in_16bits v ≡ ones 16 v
unfolding bits_in_16bits
bits_in_16bits-ones v h = init_util-ones (λ _. 0) v h
