-- ===== src/NodeQueue/Queue.antt =====
-- The queue of `get_better_nodes`, entry by entry: its order, its length, and its first entry.
use mathlib.Core.HLevel.{⊥_prop}
use native.Mathlib.Bridge.{le_prop}
use spatter.NodeQueue.Ranking.{place, spill, alpha}
use spatter.State.{Ranked}
use spatter.Prelude.{
  ℕ, suc, ◌≤◌, ◌<◌, ◌≡◌, refl, List, [], ◌∷◌, Option, none, some, leb, length, pop_back, All,
  All-mono, All-pop_back, length-pop_back, Bool-cases, ap, inl, inr, arith,
}

-- The distances do not fall along the queue.
abbrev pub IsRanked : List Ranked → Type 0
IsRanked [] = Unit {0}
IsRanked (x ∷ l) = All (λ y. x.0 ≤ y.0) l × IsRanked l

-- The queue has a first entry, and it is at most `d` away.
abbrev pub HeadLe : ℕ → List Ranked → Type 0
HeadLe d [] = ⊥
HeadLe d (x ∷ l) = x.0 ≤ d

pub HeadLe-prop : (d : ℕ) (l : List Ranked) → IsProp (HeadLe d l)
HeadLe-prop d [] = ⊥_prop
HeadLe-prop d (x ∷ l) = le_prop

pub IsRanked-pop_back : (l : List Ranked) → IsRanked l → IsRanked (pop_back l)
unfolding pop_back
IsRanked-pop_back [] h = tt
IsRanked-pop_back (x ∷ []) h = tt
IsRanked-pop_back (x ∷ y ∷ l) h =
    (All-pop_back (λ z. x.0 ≤ z.0) (y ∷ l) h.0, IsRanked-pop_back (y ∷ l) h.1)

-- What is claimed of a place, where one is found.
abbrev pub OnSome {ℓ κ} : {A : Type ℓ} → (A → Type κ) → Option A → Type κ
OnSome Q none = Unit
OnSome Q (some a) = Q a

OnSome-map {ℓ κ μ} :
    {A : Type ℓ} (Q : A → Type κ) (R : A → Type μ) (f : A → A) (o : Option A)
    → ((a : A) → Q a → R (f a))
    → OnSome Q o
    → OnSome R (elim o [ none ↦ none | some a ↦ some (f a) ])
OnSome-map Q R f none g h = tt
OnSome-map Q R f (some a) g h = g a h

pub OnSome-mono {ℓ κ μ} :
    {A : Type ℓ} {Q : A → Type κ} {R : A → Type μ} (o : Option A)
    → ((a : A) → Q a → R a)
    → OnSome Q o
    → OnSome R o
OnSome-mono none g h = tt
OnSome-mono (some a) g h = g a h

-- A property of the places that passes from the rest of a queue to the whole.
place_rule :
    (Q : List Ranked → List Ranked → Type 0) (e : Ranked)
    → ((x : Ranked) (l : List Ranked) → e.0 ≤ x.0 → Q (x ∷ l) (e ∷ x ∷ l))
    → ((x : Ranked) (l m : List Ranked) → x.0 < e.0 → Q l m → Q (x ∷ l) (x ∷ m))
    → (l : List Ranked) → OnSome (Q l) (place e l)
unfolding place
place_rule Q e here later [] = tt
place_rule Q e here later (x ∷ l) = elim (Bool-cases (leb e.0 x.0)) [
  | inl t ↦ rw t (here x l (ground arith))
  | inr t ↦ rw t (
      OnSome-map (Q l) (Q (x ∷ l)) (◌∷◌ x) (place e l) (λ m. later x l m (ground arith))
        (place_rule Q e here later l))
]

pub place-All :
    (P : Ranked → Type 0) (e : Ranked) (l : List Ranked)
    → OnSome (λ m. P e → All P l → All P m) (place e l)
place-All P e l =
    place_rule (λ l m. P e → All P l → All P m) e (λ x l t pe pl. (pe, pl))
      (λ x l m t ih pe pl. (pl.0, ih pe pl.1)) l

pub length-place :
    (e : Ranked) (l : List Ranked) → OnSome (λ m. length m ≡ suc (length l)) (place e l)
length-place e l =
    place_rule (λ l m. length m ≡ suc (length l)) e (λ x l t. refl) (λ x l m t ih. ap suc ih) l

pub place-IsRanked :
    (e : Ranked) (l : List Ranked) → OnSome (λ m. IsRanked l → IsRanked m) (place e l)
place-IsRanked e l = OnSome-mono (place e l) (λ m h. h.1) (place_rule Grows e here later l)
  where
    Grows : List Ranked → List Ranked → Type 0
    Grows l m =
        ((d : ℕ) → d ≤ e.0 → All (λ y. d ≤ y.0) l → All (λ y. d ≤ y.0) m)
        × (IsRanked l → IsRanked m)

    here : (x : Ranked) (l : List Ranked) → e.0 ≤ x.0 → Grows (x ∷ l) (e ∷ x ∷ l)
    here x l t = (
      λ d h a. (h, a),
      λ r. ((t, All-mono (λ y. x.0 ≤ y.0) (λ y. e.0 ≤ y.0) l (λ y h. omega arith) r.0), r),
    )

    later : (x : Ranked) (l m : List Ranked) → x.0 < e.0 → Grows l m → Grows (x ∷ l) (x ∷ m)
    later x l m t g = (λ d h a. (a.0, g.0 d h a.1), λ r. (g.0 x.0 (omega arith) r.0, g.1 r.1))

abbrev pub Heads : ℕ → List Ranked → List Ranked → Type 0
Heads k l m = HeadLe k m × ((d : ℕ) → HeadLe d l → HeadLe d m)

pub place-Heads : (e : Ranked) (l : List Ranked) → OnSome (Heads e.0 l) (place e l)
place-Heads e l =
    place_rule (Heads e.0) e (λ x l t. (omega arith, λ d h. omega arith))
      (λ x l m t ih. (omega arith, λ d h. h)) l

pub place-none : (e : Ranked) (l : List Ranked) → place e l ≡ none → All (λ x. x.0 < e.0) l
unfolding place
place-none e [] h = tt
place-none e (x ∷ l) h = ground (arith, place-none e l)

pop_back-HeadLe : (d : ℕ) (l : List Ranked) → 2 ≤ length l → HeadLe d l → HeadLe d (pop_back l)
unfolding pop_back
pop_back-HeadLe d [] n h = h
pop_back-HeadLe d (x ∷ []) n h = absurd (omega arith)
pop_back-HeadLe d (x ∷ y ∷ l) n h = h

module _ (l : List Ranked) where
  pub spill-All : (P : Ranked → Type 0) → All P l → All P (spill l)
  unfolding spill
  spill-All P h = ground (arith, All-pop_back P l h)

  pub spill-IsRanked : IsRanked l → IsRanked (spill l)
  unfolding spill
  spill-IsRanked h = ground (arith, IsRanked-pop_back l h)

  pub length-spill-lt : length l ≤ alpha → length (spill l) < alpha
  unfolding spill
  length-spill-lt h = ground (arith, length-pop_back l)

  pub spill-HeadLe : (d : ℕ) → HeadLe d l → HeadLe d (spill l)
  unfolding spill
  spill-HeadLe d h = ground (arith, pop_back-HeadLe d l)
