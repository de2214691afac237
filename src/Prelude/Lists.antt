-- ===== src/Prelude/Lists.antt =====
-- Lists measured by native numbers, and the predicates on lists that the components share.
use Prim.Native.Nat.{ℕ, zero, suc, ◌+◌, ◌-◌}
use mathlib.Core.Path.{◌≡◌, refl, ap}
use mathlib.Core.Bool.{Bool, false, ◌||◌}
use mathlib.Core.List.{List, [], ◌∷◌, ◌++◌, map}
use mathlib.Core.Option.{Option, none, some}
use native.Mathlib.Omega.{arith}

module _ {ℓ} {A : Type ℓ} where
  abbrev pub length : List A → ℕ
  length [] = 0
  length (x ∷ xs) = suc (length xs)

  abbrev pub take : ℕ → List A → List A
  take zero xs = []
  take (suc n) [] = []
  take (suc n) (x ∷ xs) = x ∷ take n xs

  abbrev pub drop : ℕ → List A → List A
  drop zero xs = xs
  drop (suc n) [] = []
  drop (suc n) (x ∷ xs) = drop n xs

  -- `pop_back`, which the code calls on lists that are not empty.
  unfoldable pub pop_back : List A → List A
  pop_back [] = []
  pop_back (x ∷ []) = []
  pop_back (x ∷ y ∷ xs) = x ∷ pop_back (y ∷ xs)

  -- `back`.
  unfoldable pub back : List A → Option A
  back [] = none
  back (x ∷ []) = some x
  back (x ∷ y ∷ xs) = back (y ∷ xs)

  pub length-append : (xs ys : List A) → length (xs ++ ys) ≡ length xs + length ys
  length-append [] ys = omega arith
  length-append (x ∷ xs) ys = omega (arith, length-append xs ys)

  pub length-pop_back : (xs : List A) → length (pop_back xs) ≡ length xs - 1
  unfolding pop_back
  length-pop_back [] = refl
  length-pop_back (x ∷ []) = refl
  length-pop_back (x ∷ y ∷ xs) = omega (arith, length-pop_back (y ∷ xs))

  -- A predicate on every element, by recursion, which the tactics take apart.
  abbrev pub All {κ} : (A → Type κ) → List A → Type κ
  All P [] = Unit
  All P (x ∷ xs) = P x × All P xs

  abbrev pub any : (A → Bool) → List A → Bool
  any p [] = false
  any p (x ∷ xs) = p x || any p xs

pub All-mono {ℓ κ μ} :
    {A : Type ℓ} (P : A → Type κ) (Q : A → Type μ) (l : List A)
    → ((a : A) → P a → Q a)
    → All P l
    → All Q l
All-mono P Q [] f h = tt
All-mono P Q (x ∷ l) f h = (f x h.0, All-mono P Q l f h.1)

pub All-pop_back {ℓ κ} : {A : Type ℓ} (P : A → Type κ) (l : List A) → All P l → All P (pop_back l)
unfolding pop_back
All-pop_back P [] h = tt
All-pop_back P (x ∷ []) h = tt
All-pop_back P (x ∷ y ∷ l) h = (h.0, All-pop_back P (y ∷ l) h.1)

pub All-snoc {ℓ κ} :
    {A : Type ℓ} (P : A → Type κ) (x : A) (l : List A) → All P l → P x → All P (l ++ x ∷ [])
All-snoc P x [] a h = (h, tt)
All-snoc P x (y ∷ l) a h = (a.0, All-snoc P x l a.1 h)

pub All-middle {ℓ κ} :
    {A : Type ℓ} (P : A → Type κ) (x : A) (l k : List A) → All P (l ++ x ∷ k) → P x
All-middle P x [] k h = h.0
All-middle P x (y ∷ l) k h = All-middle P x l k h.1

pub All-map {ℓ κ μ ν} :
    {A : Type ℓ} {B : Type κ} (f : A → B) (P : A → Type μ) (Q : B → Type ν) (l : List A)
    → ((a : A) → P a → Q (f a))
    → All P l
    → All Q (map f l)
All-map f P Q [] g h = tt
All-map f P Q (x ∷ l) g h = (g x h.0, All-map f P Q l g h.1)

pub All-both {ℓ κ μ} :
    {A : Type ℓ} (P : A → Type κ) (Q : A → Type μ) (l : List A)
    → All P l
    → All Q l
    → All (λ a. P a × Q a) l
All-both P Q [] p q = tt
All-both P Q (x ∷ l) p q = ((p.0, q.0), All-both P Q l p.1 q.1)

pub length-map {ℓ κ} :
    {A : Type ℓ} {B : Type κ} (f : A → B) (l : List A) → length (map f l) ≡ length l
length-map f [] = refl
length-map f (x ∷ l) = ap suc (length-map f l)

pub back-cons {ℓ} : {A : Type ℓ} (x : A) (l : List A) → (a : A) × (back (x ∷ l) ≡ some a)
unfolding back
back-cons x [] = (x, refl)
back-cons x (y ∷ l) = back-cons y l

pub All-append {ℓ κ} :
    {A : Type ℓ} (P : A → Type κ) (xs ys : List A) → All P (xs ++ ys) → All P xs × All P ys
All-append P [] ys h = (tt, h)
All-append P (x ∷ xs) ys h = let rest = All-append P xs ys h.1 in ((h.0, rest.0), rest.1)
