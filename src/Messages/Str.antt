-- ===== src/Messages/Str.antt =====
-- `std::string` as the list of its characters' codes: `==` and `<`.
use spatter.Prelude.{
  ℕ, ◌≡◌, refl, ◌↔◌, Bool, true, false, List, [], ◌∷◌, ◌&&◌, compare, Ordering, ◌==◌, arith,
}

abbrev pub Str : Type 0
Str = List ℕ

unfoldable pub str_eq : Str → Str → Bool
str_eq [] [] = true
str_eq [] (y ∷ b) = false
str_eq (x ∷ a) [] = false
str_eq (x ∷ a) (y ∷ b) = (x == y) && str_eq a b

-- lexicographic
unfoldable pub str_lt : Str → Str → Bool
str_lt a [] = false
str_lt [] (y ∷ b) = true
str_lt (x ∷ a) (y ∷ b) = elim (compare x y) [
  | Ordering.lt ↦ true
  | Ordering.gt ↦ false
  | Ordering.eq ↦ str_lt a b
]

eq_of_str_eq : (a b : Str) → str_eq a b ≡ true → a ≡ b
unfolding str_eq
eq_of_str_eq [] [] h = refl
eq_of_str_eq [] (y ∷ b) h = cc
eq_of_str_eq (x ∷ a) [] h = cc
eq_of_str_eq (x ∷ a) (y ∷ b) h = ground (arith, eq_of_str_eq a b)

pub str_eq_refl : (a : Str) → str_eq a a ≡ true
unfolding str_eq
str_eq_refl [] = refl
str_eq_refl (x ∷ a) = ground (arith, str_eq_refl a)

pub str_eq_iff : (a b : Str) → (str_eq a b ≡ true) ↔ (a ≡ b)
str_eq_iff a b = (eq_of_str_eq a b, λ e. rw e (str_eq_refl b))

pub str_lt_irrefl : (a : Str) → str_lt a a ≡ false
unfolding str_lt
str_lt_irrefl [] = refl
str_lt_irrefl (x ∷ a) = ground (arith, str_lt_irrefl a)

pub str_lt_trans : (a b c : Str) → str_lt a b ≡ true → str_lt b c ≡ true → str_lt a c ≡ true
unfolding str_lt
str_lt_trans a [] c h k = cc
str_lt_trans [] (y ∷ b) [] h k = cc
str_lt_trans (x ∷ a) (y ∷ b) [] h k = cc
str_lt_trans [] (y ∷ b) (z ∷ c) h k = refl
str_lt_trans (x ∷ a) (y ∷ b) (z ∷ c) h k = ground (arith, str_lt_trans a b c)
