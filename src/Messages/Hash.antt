-- ===== src/Messages/Hash.antt =====
-- `hash` of dht/protocol/messages.hpp: 24 bytes, their comparisons, and `hash_value` of
-- messages.cpp.
pub mod Order
pub mod Value
use spatter.Messages.Memory.{
  IsBytes, memcmp, load, is_eq, is_lt, memcmp_self, memcmp-opposite, memcmp_eq_left,
  memcmp_lt_trans, eq_of_memcmp, load-memcmp,
}
use spatter.Util.Bits.{bit_xor_self}
use spatter.Prelude.{
  ℕ, zero, suc, ◌+◌, ◌-◌, ◌*◌, ◌/◌, ◌%◌, ◌≤◌, ◌<◌, ◌≡◌, refl, sym, ap, ◌≢◌, ◌↔◌, Bool, true, false,
  List, [], ◌∷◌, Ordering, bit_xor, drop, ◌==◌, if◌then◌else◌, arith,
}

abbrev pub Hash : Type 0
Hash = List ℕ

abbrev pub hash_bytes : ℕ
hash_bytes = 24

abbrev pub IsHash : Hash → Type 0
IsHash h = IsBytes hash_bytes h

-- the constructor
zeros : ℕ → List ℕ
zeros zero = []
zeros (suc n) = 0 ∷ zeros n

pub zero_hash : Hash
unfolding zeros
zero_hash = zeros hash_bytes

-- `rand` gives the results of the successive calls of `rand()`.
random_bytes : ℕ → (ℕ → ℕ) → ℕ → List ℕ
random_bytes zero rand i = []
random_bytes (suc n) rand i = rand i % 256 ∷ random_bytes n rand (i + 1)

unfoldable pub randomize : (ℕ → ℕ) → Hash
unfolding random_bytes
randomize rand = random_bytes hash_bytes rand 0

unfoldable pub hash_eq : Hash → Hash → Bool
hash_eq h1 h2 = is_eq (memcmp hash_bytes h1 h2)

unfoldable pub hash_lt : Hash → Hash → Bool
hash_lt h1 h2 = is_lt (memcmp hash_bytes h1 h2)

-- The loop of `hash_value`. The pointer is not moved, so each round reads the same word.
xor_word : ℕ → ℕ → ℕ → ℕ
xor_word zero word hash = hash
xor_word (suc n) word hash = xor_word n word (bit_xor hash word)

-- `size` is `sizeof(size_t)`.
unfoldable pub hash_value : ℕ → Hash → ℕ
unfolding xor_word load
hash_value size h =
    let hash = xor_word (hash_bytes / size) (load size h) 0 in
    if hash_bytes % size == 0 then hash else bit_xor hash (load size (drop (hash_bytes - size) h))

random_bytes-IsBytes : (n i : ℕ) (rand : ℕ → ℕ) → IsBytes n (random_bytes n rand i)
unfolding random_bytes
random_bytes-IsBytes zero i rand = tt
random_bytes-IsBytes (suc n) i rand = (omega arith, random_bytes-IsBytes n (i + 1) rand)

pub randomize-IsHash : (rand : ℕ → ℕ) → IsHash (randomize rand)
unfolding randomize
randomize-IsHash rand = random_bytes-IsBytes hash_bytes 0 rand

pub hash_eq_refl : (h : Hash) → hash_eq h h ≡ true
unfolding hash_eq
hash_eq_refl h = ap is_eq (memcmp_self hash_bytes h)

pub hash_eq_symm : (a b : Hash) → hash_eq a b ≡ hash_eq b a
unfolding hash_eq
hash_eq_symm a b = ground (arith, memcmp-opposite hash_bytes a b)

pub hash_eq_left : (a b c : Hash) → hash_eq a b ≡ true → hash_eq a c ≡ hash_eq b c
unfolding hash_eq
hash_eq_left a b c h = ground (arith, memcmp_eq_left hash_bytes a b c)

-- On hashes `==` decides equality.
pub hash_eq_iff : (a b : Hash) → IsHash a → IsHash b → (hash_eq a b ≡ true) ↔ (a ≡ b)
unfolding hash_eq
hash_eq_iff a b u v = (λ h. eq_of_memcmp hash_bytes a b u v (ground arith), λ e. subst_right e)
  where
    subst_right : a ≡ b → hash_eq a b ≡ true
    subst_right e = rw e (hash_eq_refl b)
