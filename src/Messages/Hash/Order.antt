-- ===== src/Messages/Hash/Order.antt =====
-- `operator<` and `operator==` of `hash`, dht/protocol/messages.hpp.
use spatter.Messages.Memory.{memcmp-opposite, memcmp_lt_trans, eq_of_memcmp}
use spatter.Messages.Hash.{Hash, IsHash, hash_bytes, hash_eq, hash_lt}
use spatter.Prelude.{◌≡◌, ◌⊎◌, true, false, arith}

-- `operator<` of hashes is transitive.
hash_lt_trans : (a b c : Hash) → hash_lt a b ≡ true → hash_lt b c ≡ true → hash_lt a c ≡ true
unfolding hash_lt
hash_lt_trans a b c h k = ground (arith, memcmp_lt_trans hash_bytes a b c)

-- Of two arrays of 24 bytes, exactly one of `a < b`, `b < a` and `a == b` holds, and the last only
-- if they are the same array.
hash_trichotomy :
    (a b : Hash)
    → IsHash a
    → IsHash b
    → ((hash_lt a b ≡ true) × (hash_lt b a ≡ false) × (hash_eq a b ≡ false))
      ⊎ ((hash_lt a b ≡ false) × (hash_lt b a ≡ true) × (hash_eq a b ≡ false))
      ⊎ ((hash_lt a b ≡ false) × (hash_lt b a ≡ false) × (hash_eq a b ≡ true) × (a ≡ b))
unfolding hash_lt hash_eq
hash_trichotomy a b u v =
    ground (arith, memcmp-opposite hash_bytes a b, eq_of_memcmp hash_bytes a b u v)
