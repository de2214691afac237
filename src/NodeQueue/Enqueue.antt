-- ===== src/NodeQueue/Enqueue.antt =====
-- `pq` of `get_better_nodes` after one more node.
use spatter.NodeQueue.Ranking.{place, spill, enqueue, alpha}
use spatter.NodeQueue.Queue.{
  IsRanked, HeadLe, OnSome, OnSome-mono, place-All, length-place, place-IsRanked, place-Heads,
  place-none, spill-All, spill-IsRanked, length-spill-lt, spill-HeadLe,
}
use spatter.State.{Ranked}
use spatter.Prelude.{ℕ, ◌<◌, ◌≡◌, List, [], ◌∷◌, none, length, All, Option-cases, inl, inr, arith}

-- `enqueue` on a queue that is not empty, by what `place` finds.
enqueue_rule :
    (R : List Ranked → Type 0) (e x : Ranked) (l : List Ranked)
    → (place e (x ∷ l) ≡ none → R (x ∷ l))
    → OnSome (λ m. R (spill m)) (place e (x ∷ l))
    → R (enqueue e (x ∷ l))
unfolding enqueue
enqueue_rule R e x l missed placed = elim (Option-cases (place e (x ∷ l))) [
  | inl h ↦ rw (h, enqueue) (missed h)
  | inr (m, h) ↦ rw (h, enqueue) (rw h at placed)
]

pub enqueue-All :
    (P : Ranked → Type 0) (e : Ranked) (l : List Ranked) → P e → All P l → All P (enqueue e l)
unfolding enqueue
enqueue-All P e [] pe pl = (pe, tt)
enqueue-All P e (x ∷ l) pe pl =
    enqueue_rule (All P) e x l (λ h. pl)
      (OnSome-mono (place e (x ∷ l)) (λ m k. spill-All m P (k pe pl)) (place-All P e (x ∷ l)))

pub enqueue-IsRanked : (e : Ranked) (l : List Ranked) → IsRanked l → IsRanked (enqueue e l)
unfolding enqueue
enqueue-IsRanked e [] r = (tt, tt)
enqueue-IsRanked e (x ∷ l) r =
    enqueue_rule IsRanked e x l (λ h. r)
      (OnSome-mono (place e (x ∷ l)) (λ m k. spill-IsRanked m (k r)) (place-IsRanked e (x ∷ l)))

pub length-enqueue-lt :
    (e : Ranked) (l : List Ranked) → length l < alpha → length (enqueue e l) < alpha
unfolding enqueue
length-enqueue-lt e [] h = omega arith
length-enqueue-lt e (x ∷ l) h =
    enqueue_rule (λ m. length m < alpha) e x l (λ k. h)
      (OnSome-mono (place e (x ∷ l)) (λ m k. length-spill-lt m (omega arith))
        (length-place e (x ∷ l)))

-- The first entry is at most as far as the new one and as any distance that bounded it before.
pub enqueue-HeadLe_self : (e : Ranked) (l : List Ranked) → HeadLe e.0 (enqueue e l)
unfolding enqueue
enqueue-HeadLe_self e [] = omega arith
enqueue-HeadLe_self e (x ∷ l) =
    enqueue_rule (HeadLe e.0) e x l (λ h. omega (arith, (place-none e (x ∷ l) h).0))
      (OnSome-mono (place e (x ∷ l)) (λ m k. spill-HeadLe m e.0 k.0) (place-Heads e (x ∷ l)))

pub enqueue-HeadLe : (e : Ranked) (l : List Ranked) (d : ℕ) → HeadLe d l → HeadLe d (enqueue e l)
enqueue-HeadLe e [] d h = absurd h
enqueue-HeadLe e (x ∷ l) d h =
    enqueue_rule (HeadLe d) e x l (λ k. h)
      (OnSome-mono (place e (x ∷ l)) (λ m k. spill-HeadLe m d (k.1 d h)) (place-Heads e (x ∷ l)))
