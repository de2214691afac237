-- ===== src/NodeQueue/Placed.antt =====
-- Where dht/NodeQueue.cpp puts a node: the array's index is the distance from this node.
use spatter.Messages.Node.{NodeRecord}
use spatter.Util.Distance.{bit_distance}
use spatter.NodeQueue.{erase_node, set_bucket, mark_seen, bucket_size, bucket_count}
use spatter.NodeQueue.Buckets.{touched, refreshed}
use spatter.NodeQueue.Seen.{mark_seen-Marked}
use spatter.State.{State, Platform}
use spatter.Prelude.{
  ℕ, ◌<◌, ◌≡◌, refl, List, [], ◌∷◌, leb, ◌==◌, length, All, All-pop_back, subst, ok, Bool-cases,
  inl, inr, arith,
}

-- The nodes of a bucket are at its distance, and there are buckets below 192 only.
abbrev pub IsPlaced : NodeRecord → (ℕ → List NodeRecord) → Type 0
IsPlaced this b =
    (i : ℕ) → All (λ n. (bit_distance this.node_id n.node_id ≡ i) × (i < bucket_count)) (b i)

module _ (P : NodeRecord → Type 0) where
  erase_node-All : (n : NodeRecord) (l : List NodeRecord) → All P l → All P (erase_node n l)
  unfolding erase_node
  erase_node-All n [] a = tt
  erase_node-All n (x ∷ l) a = ground (arith, erase_node-All n l a.1)

  refreshed-All : (n : NodeRecord) (l : List NodeRecord) → P n → All P l → All P (refreshed n l)
  unfolding refreshed
  refreshed-All n l h a = elim (Bool-cases (leb bucket_size (length (touched n l)))) [
    | inl full ↦ rw full (All-pop_back P (touched n l) (h, erase_node-All n l a))
    | inr room ↦ rw room (h, erase_node-All n l a)
  ]

abbrev At : NodeRecord → ℕ → NodeRecord → Type 0
At this i n = (bit_distance this.node_id n.node_id ≡ i) × (i < bucket_count)

set_bucket-IsPlaced :
    (this : NodeRecord) (b : ℕ → List NodeRecord) (d : ℕ) (l : List NodeRecord)
    → IsPlaced this b
    → All (At this d) l
    → IsPlaced this (set_bucket b d l)
set_bucket-IsPlaced this b d l v a i = elim (Bool-cases (d == i)) [
  | inl same ↦ let e : d ≡ i = ground arith in rw same (subst (λ j. All (At this j) l) e a)
  | inr other ↦ rw other (v i)
]

-- `mark_seen` puts a node into the bucket of its distance, so a node is only ever in that one.
pub mark_seen-IsPlaced :
    {Text : Type 0} (p : Platform Text) (now : ℕ) (n : NodeRecord) (s s' : State Text)
    → IsPlaced s.this_node s.buckets
    → mark_seen p now n s ≡ ok s'
    → IsPlaced s'.this_node s'.buckets
mark_seen-IsPlaced p now n s s' v e =
    let m = mark_seen-Marked p now n s s' e in
    let d = bit_distance s.this_node.node_id n.node_id in
    rw (m.dht, m.buckets)
      (set_bucket-IsPlaced s.this_node s.buckets d _ v
        (refreshed-All (At s.this_node d) n _ (refl, m.in_range) (v d)))
