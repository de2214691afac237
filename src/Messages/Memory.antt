-- ===== src/Messages/Memory.antt =====
-- The C library's view of an array of bytes: `memcmp`, a word read at a pointer, and what it is for
-- a list to hold the bytes of an array. Bytes are numbers, and the word is little-endian.
use spatter.Prelude.{
  ℕ, zero, suc, ◌+◌, ◌*◌, ◌≤◌, ◌<◌, ◌≡◌, refl, Bool, true, false, List, [], ◌∷◌, compare, Ordering,
  drop, arith,
}

-- A list of exactly `n` bytes.
abbrev pub IsBytes : ℕ → List ℕ → Type 0
IsBytes zero [] = Unit {0}
IsBytes zero (x ∷ xs) = ⊥
IsBytes (suc n) [] = ⊥
IsBytes (suc n) (x ∷ xs) = (x < 256) × IsBytes n xs

-- Two arrays of `n` bytes have no shorter one among them: the cases for that are not reached.
unfoldable pub memcmp : ℕ → List ℕ → List ℕ → Ordering
memcmp zero a b = Ordering.eq
memcmp (suc n) [] [] = Ordering.eq
memcmp (suc n) [] (y ∷ b) = Ordering.lt
memcmp (suc n) (x ∷ a) [] = Ordering.gt
memcmp (suc n) (x ∷ a) (y ∷ b) = elim (compare x y) [
  | Ordering.lt ↦ Ordering.lt
  | Ordering.gt ↦ Ordering.gt
  | Ordering.eq ↦ memcmp n a b
]

-- `*(uint32_t*)p` is `load 4 p`.
unfoldable pub load : ℕ → List ℕ → ℕ
load zero p = 0
load (suc n) [] = 0
load (suc n) (x ∷ p) = x + load n p * 256

abbrev pub is_eq : Ordering → Bool
is_eq Ordering.lt = false
is_eq Ordering.eq = true
is_eq Ordering.gt = false

abbrev pub is_lt : Ordering → Bool
is_lt Ordering.lt = true
is_lt Ordering.eq = false
is_lt Ordering.gt = false

abbrev pub opposite : Ordering → Ordering
opposite Ordering.lt = Ordering.gt
opposite Ordering.eq = Ordering.eq
opposite Ordering.gt = Ordering.lt

pub memcmp_self : (n : ℕ) (a : List ℕ) → memcmp n a a ≡ Ordering.eq
unfolding memcmp
memcmp_self zero a = refl
memcmp_self (suc n) [] = refl
memcmp_self (suc n) (x ∷ a) = ground (arith, memcmp_self n a)

pub memcmp-opposite : (n : ℕ) (a b : List ℕ) → memcmp n b a ≡ opposite (memcmp n a b)
unfolding memcmp
memcmp-opposite zero a b = refl
memcmp-opposite (suc n) [] [] = refl
memcmp-opposite (suc n) [] (y ∷ b) = refl
memcmp-opposite (suc n) (x ∷ a) [] = refl
memcmp-opposite (suc n) (x ∷ a) (y ∷ b) = ground (arith, memcmp-opposite n a b)

-- An array that equals `b` compares as `b` does.
pub memcmp_eq_left :
    (n : ℕ) (a b c : List ℕ) → memcmp n a b ≡ Ordering.eq → memcmp n a c ≡ memcmp n b c
unfolding memcmp
memcmp_eq_left zero a b c h = refl
memcmp_eq_left (suc n) [] [] c h = refl
memcmp_eq_left (suc n) [] (y ∷ b) c h = cc
memcmp_eq_left (suc n) (x ∷ a) [] c h = cc
memcmp_eq_left (suc n) (x ∷ a) (y ∷ b) [] h = refl
memcmp_eq_left (suc n) (x ∷ a) (y ∷ b) (z ∷ c) h = ground (arith, memcmp_eq_left n a b c)

pub memcmp_lt_trans :
    (n : ℕ) (a b c : List ℕ)
    → memcmp n a b ≡ Ordering.lt
    → memcmp n b c ≡ Ordering.lt
    → memcmp n a c ≡ Ordering.lt
unfolding memcmp
memcmp_lt_trans zero a b c h k = h
memcmp_lt_trans (suc n) [] [] c h k = k
memcmp_lt_trans (suc n) [] (y ∷ b) [] h k = cc
memcmp_lt_trans (suc n) [] (y ∷ b) (z ∷ c) h k = refl
memcmp_lt_trans (suc n) (x ∷ a) [] c h k = cc
memcmp_lt_trans (suc n) (x ∷ a) (y ∷ b) [] h k = cc
memcmp_lt_trans (suc n) (x ∷ a) (y ∷ b) (z ∷ c) h k = ground (arith, memcmp_lt_trans n a b c)

-- On arrays of `n` elements, equality by `memcmp` is equality.
pub eq_of_memcmp :
    (n : ℕ) (a b : List ℕ) → IsBytes n a → IsBytes n b → memcmp n a b ≡ Ordering.eq → a ≡ b
unfolding memcmp
eq_of_memcmp zero [] [] u v h = refl
eq_of_memcmp zero (x ∷ a) b u v h = absurd u
eq_of_memcmp zero [] (y ∷ b) u v h = absurd v
eq_of_memcmp (suc n) [] b u v h = absurd u
eq_of_memcmp (suc n) (x ∷ a) [] u v h = absurd v
eq_of_memcmp (suc n) (x ∷ a) (y ∷ b) u v h = ground (arith, eq_of_memcmp n a b u.1 v.1)

-- A word reads the bytes that `memcmp` compares.
pub load-memcmp :
    (w n : ℕ) (a b : List ℕ) → w ≤ n → memcmp n a b ≡ Ordering.eq → load w a ≡ load w b
unfolding memcmp load
load-memcmp zero n a b h e = refl
load-memcmp (suc w) zero a b h e = absurd (omega arith)
load-memcmp (suc w) (suc n) [] [] h e = refl
load-memcmp (suc w) (suc n) [] (y ∷ b) h e = cc
load-memcmp (suc w) (suc n) (x ∷ a) [] h e = cc
load-memcmp (suc w) (suc n) (x ∷ a) (y ∷ b) h e = ground (arith, load-memcmp w n a b)

pub load-drop-memcmp :
    (k w n : ℕ) (a b : List ℕ)
    → k + w ≤ n
    → memcmp n a b ≡ Ordering.eq
    → load w (drop k a) ≡ load w (drop k b)
unfolding memcmp
load-drop-memcmp zero w n a b h e = load-memcmp w n a b (omega arith) e
load-drop-memcmp (suc k) w zero a b h e = absurd (omega arith)
load-drop-memcmp (suc k) w (suc n) [] [] h e = refl
load-drop-memcmp (suc k) w (suc n) [] (y ∷ b) h e = cc
load-drop-memcmp (suc k) w (suc n) (x ∷ a) [] h e = cc
load-drop-memcmp (suc k) w (suc n) (x ∷ a) (y ∷ b) h e = ground (arith, load-drop-memcmp k w n a b)
