-- ===== src/NodeQueue/Buckets.antt =====
-- The buckets of dht/NodeQueue.cpp after `mark_seen`.
use spatter.Messages.Node.{NodeRecord, node_eq, node_eq_symm, node_eq_left}
use spatter.NodeQueue.{erase_node, bucket_size}
use spatter.Prelude.{
  ℕ, ◌≤◌, ◌<◌, ◌≡◌, refl, true, false, List, [], ◌∷◌, leb, if◌then◌else◌, length, pop_back, any,
  length-pop_back, Bool-cases, inl, inr, arith,
}

-- No two nodes of the list have the same address and port.
abbrev pub DistinctNodes : List NodeRecord → Type 0
DistinctNodes [] = Unit {0}
DistinctNodes (x ∷ l) = (any (λ y. node_eq x y) l ≡ false) × DistinctNodes l

-- A bucket has fewer than 32 nodes, and none of them twice.
pub record IsBucket (l : List NodeRecord) : Type 0 where
  pub short : length l < bucket_size
  pub distinct : DistinctNodes l

abbrev pub IsBuckets : (ℕ → List NodeRecord) → Type 0
IsBuckets b = (i : ℕ) → IsBucket (b i)

any-erase_node :
    (x n : NodeRecord) (l : List NodeRecord)
    → any (λ y. node_eq x y) l ≡ false
    → any (λ y. node_eq x y) (erase_node n l) ≡ false
unfolding erase_node
any-erase_node x n [] h = refl
any-erase_node x n (y ∷ l) h = ground (arith, any-erase_node x n l)

any_same :
    (x n : NodeRecord) (l : List NodeRecord)
    → node_eq x n ≡ true
    → any (λ y. node_eq x y) l ≡ any (λ y. node_eq n y) l
any_same x n [] h = refl
any_same x n (y ∷ l) h = ground (arith, any_same x n l h, node_eq_left x n y h)

any-erase_node_self :
    (n : NodeRecord) (l : List NodeRecord)
    → DistinctNodes l
    → any (λ y. node_eq n y) (erase_node n l) ≡ false
unfolding erase_node
any-erase_node_self n [] d = refl
any-erase_node_self n (y ∷ l) d =
    ground (arith, any-erase_node_self n l d.1, any_same y n l, node_eq_symm y n)

erase_node-DistinctNodes :
    (n : NodeRecord) (l : List NodeRecord) → DistinctNodes l → DistinctNodes (erase_node n l)
unfolding erase_node
erase_node-DistinctNodes n [] d = tt
erase_node-DistinctNodes n (y ∷ l) d =
    ground (arith, any-erase_node y n l d.0, erase_node-DistinctNodes n l d.1)

pub length-erase_node-le :
    (n : NodeRecord) (l : List NodeRecord) → length (erase_node n l) ≤ length l
unfolding erase_node
length-erase_node-le n [] = omega arith
length-erase_node-le n (y ∷ l) = ground (arith, length-erase_node-le n l)

any-pop_back :
    (x : NodeRecord) (l : List NodeRecord)
    → any (λ y. node_eq x y) l ≡ false
    → any (λ y. node_eq x y) (pop_back l) ≡ false
unfolding pop_back
any-pop_back x [] h = refl
any-pop_back x (y ∷ []) h = refl
any-pop_back x (y ∷ z ∷ l) h = ground (arith, any-pop_back x (z ∷ l))

pop_back-DistinctNodes : (l : List NodeRecord) → DistinctNodes l → DistinctNodes (pop_back l)
unfolding pop_back
pop_back-DistinctNodes [] d = tt
pop_back-DistinctNodes (y ∷ []) d = tt
pop_back-DistinctNodes (y ∷ z ∷ l) d =
    (any-pop_back y (z ∷ l) d.0, pop_back-DistinctNodes (z ∷ l) d.1)

-- The node in front of the others: what `mark_seen` makes of a bucket before it trims it.
abbrev pub touched : NodeRecord → List NodeRecord → List NodeRecord
touched n l = n ∷ erase_node n l

touched-DistinctNodes :
    (n : NodeRecord) (l : List NodeRecord) → DistinctNodes l → DistinctNodes (touched n l)
touched-DistinctNodes n l d = (any-erase_node_self n l d, erase_node-DistinctNodes n l d)

-- What the bucket holds in the end.
unfoldable pub refreshed : NodeRecord → List NodeRecord → List NodeRecord
refreshed n l =
    if leb bucket_size (length (touched n l)) then pop_back (touched n l) else touched n l

pub refreshed-IsBucket :
    (n : NodeRecord) (l : List NodeRecord) → IsBucket l → IsBucket (refreshed n l)
unfolding refreshed
refreshed-IsBucket n l v = elim (Bool-cases (leb bucket_size (length (touched n l)))) [
  | inl full ↦ rw full (record {
    short = omega (arith, length-pop_back (touched n l), length-erase_node-le n l, v.short);
    distinct = pop_back-DistinctNodes (touched n l) (touched-DistinctNodes n l v.distinct);
  })
  | inr room ↦
      rw room (record { short = ground arith; distinct = touched-DistinctNodes n l v.distinct })
]
