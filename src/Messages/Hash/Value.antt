-- ===== src/Messages/Hash/Value.antt =====
-- `hash_value(const hash&)` of dht/protocol/messages.cpp.
use spatter.Messages.Memory.{load, memcmp, load-memcmp, load-drop-memcmp}
use spatter.Messages.Hash.{Hash, hash_bytes, hash_eq, hash_value}
use spatter.Util.Bits.{bit_xor_self, zero-bit_xor}
use spatter.Prelude.{ℕ, ◌-◌, ◌≤◌, ◌≡◌, true, Ordering, arith}

-- The loop reads one word in every round, since the pointer is not moved. With 8-byte `size_t` the
-- value is the first 8 bytes of the hash, whatever the other 16 are; with 4-byte `size_t` it is 0.
hash_value_first_word : (h : Hash) → (hash_value 8 h ≡ load 8 h) × (hash_value 4 h ≡ 0)
unfolding hash_value
hash_value_first_word h = (
  rw (zero-bit_xor (load 8 h), bit_xor_self (load 8 h)) (zero-bit_xor (load 8 h)),
  rw
      (
        zero-bit_xor (load 4 h),
        bit_xor_self (load 4 h),
        zero-bit_xor (load 4 h),
        bit_xor_self (load 4 h),
        zero-bit_xor (load 4 h),
      )
      (bit_xor_self (load 4 h)),
)

-- Arrays that compare equal as hashes have the same value, as an unordered container asks, for every width of
-- `size_t` up to that of a hash.
hash_value-hash_eq :
    (size : ℕ) (a b : Hash)
    → size ≤ hash_bytes
    → hash_eq a b ≡ true
    → hash_value size a ≡ hash_value size b
unfolding hash_value hash_eq
hash_value-hash_eq size a b h e =
    let eq : memcmp hash_bytes a b ≡ Ordering.eq = ground arith in
    rw (
      load-memcmp size hash_bytes a b h eq,
      load-drop-memcmp (hash_bytes - size) size hash_bytes a b (omega arith) eq,
    )
