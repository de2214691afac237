-- ===== src/NodeQueue/Better.antt =====
-- What `get_better_nodes` of dht/NodeQueue.cpp returns.
use mathlib.Core.List.{Mem}
use spatter.Messages.Hash.{Hash}
use spatter.Messages.Node.{NodeRecord}
use spatter.Util.Distance.{bit_distance}
use spatter.NodeQueue.{get_better_nodes, rank_nodes, bucket_count}
use spatter.NodeQueue.Ranking.{alpha}
use spatter.NodeQueue.Queue.{IsRanked, HeadLe}
use spatter.NodeQueue.Enqueue.{enqueue-All, enqueue-IsRanked, length-enqueue-lt}
use spatter.NodeQueue.Loops.{admits, offer_buckets_rule, offer_buckets-HeadLe}
use spatter.State.{State, Ranked}
use spatter.Prelude.{
  ℕ, ◌≤◌, ◌<◌, ◌≡◌, refl, ◌⊎◌, Bool, true, List, [], ◌∷◌, map, length, All, All-mono, All-map,
  All-both, length-map, arith,
}

-- A queue's entry is a node of a bucket, admitted, with its distance.
abbrev IsEntry : NodeRecord → (ℕ → List NodeRecord) → Hash → Bool → Ranked → Type 0
IsEntry this b h allow e =
    (e.0 ≡ bit_distance e.1.node_id h)
    × ((i : ℕ) × (i < bucket_count) × Mem e.1 (b i))
    × (admits h (bit_distance this.node_id h) allow e.1 ≡ true)

module _ (this : NodeRecord) (b : ℕ → List NodeRecord) (h : Hash) (allow : Bool) where
  rank_nodes-IsEntry : All (IsEntry this b h allow) (rank_nodes this b h allow)
  unfolding rank_nodes
  rank_nodes-IsEntry =
      offer_buckets_rule h (bit_distance this.node_id h) allow (All (IsEntry this b h allow)) b
        (λ i n q lt m t a. enqueue-All (IsEntry this b h allow) _ q (refl, (i, lt, m), t) a)
        bucket_count 0 [] (omega arith) tt

  rank_nodes-IsRanked : IsRanked (rank_nodes this b h allow)
  unfolding rank_nodes
  rank_nodes-IsRanked =
      offer_buckets_rule h (bit_distance this.node_id h) allow IsRanked b
        (λ i n q lt m t a. enqueue-IsRanked _ q a) bucket_count 0 [] (omega arith) tt

  length-rank_nodes-lt : length (rank_nodes this b h allow) < alpha
  unfolding rank_nodes
  length-rank_nodes-lt =
      offer_buckets_rule h (bit_distance this.node_id h) allow (λ q. length q < alpha) b
        (λ i n q lt m t a. length-enqueue-lt _ q a) bucket_count 0 [] (omega arith) (omega arith)

  rank_nodes-HeadLe :
      (n : NodeRecord) (j : ℕ)
      → j < bucket_count
      → Mem n (b j)
      → admits h (bit_distance this.node_id h) allow n ≡ true
      → HeadLe (bit_distance n.node_id h) (rank_nodes this b h allow)
  unfolding rank_nodes
  rank_nodes-HeadLe n j lt m t =
      offer_buckets-HeadLe h (bit_distance this.node_id h) allow b n j t m bucket_count 0 []
        (omega arith) (omega arith) (omega arith)

-- The distances from `h` do not fall along a list of nodes.
abbrev pub IsNearestFirst : Hash → List NodeRecord → Type 0
IsNearestFirst h [] = Unit {0}
IsNearestFirst h (x ∷ l) =
    All (λ y. bit_distance x.node_id h ≤ bit_distance y.node_id h) l × IsNearestFirst h l

IsNearestFirst-map :
    (h : Hash) (l : List Ranked)
    → All (λ e. e.0 ≡ bit_distance e.1.node_id h) l
    → IsRanked l
    → IsNearestFirst h (map (λ e. e.1) l)
IsNearestFirst-map h [] a r = tt
IsNearestFirst-map h (x ∷ l) a r = (
  All-map (λ e. e.1) (λ e. (x.0 ≤ e.0) × (e.0 ≡ bit_distance e.1.node_id h))
      (λ y. bit_distance x.1.node_id h ≤ bit_distance y.node_id h) l (λ e g. omega arith)
      (All-both (λ e. x.0 ≤ e.0) (λ e. e.0 ≡ bit_distance e.1.node_id h) l r.0 a.1),
  IsNearestFirst-map h l a.1 r.1,
)

-- `get_better_nodes` returns at most four nodes, the nearest first. Each one is in a bucket, and is
-- nearer to the key than this node unless all nodes were asked for.
pub get_better_nodes_sound :
    {Text : Type 0} (s : State Text) (h : Hash) (allow : Bool)
    → (length (get_better_nodes s h allow) < alpha)
      × IsNearestFirst h (get_better_nodes s h allow)
      × All
          (λ n.
            ((i : ℕ) × (i < bucket_count) × Mem n (s.buckets i))
            × ((bit_distance n.node_id h < bit_distance s.this_node.node_id h) ⊎ (allow ≡ true)))
          (get_better_nodes s h allow)
unfolding get_better_nodes
get_better_nodes_sound s h allow =
    let this = s.this_node in
    let entries = rank_nodes-IsEntry this s.buckets h allow in
    (
      omega (
        arith,
        length-rank_nodes-lt this s.buckets h allow,
        length-map {0, 0} (λ (e : Ranked). e.1) (rank_nodes this s.buckets h allow),
      ),
      IsNearestFirst-map h (rank_nodes this s.buckets h allow)
          (All-mono (IsEntry this s.buckets h allow) (λ e. e.0 ≡ bit_distance e.1.node_id h) _
            (λ e g. g.0) entries)
          (rank_nodes-IsRanked this s.buckets h allow),
      All-map (λ e. e.1) (IsEntry this s.buckets h allow) _ _ (λ e g. (g.1, ground arith)) entries,
    )

-- Where a known node qualifies, the list is not empty, and its first node is at most as far from
-- the key as that one: the nearest qualifying node is always in front.
pub get_better_nodes_nearest :
    {Text : Type 0} (s : State Text) (h : Hash) (allow : Bool) (n : NodeRecord) (j : ℕ)
    → j < bucket_count
    → Mem n (s.buckets j)
    → (bit_distance n.node_id h < bit_distance s.this_node.node_id h) ⊎ (allow ≡ true)
    → (x : NodeRecord) × (l : List NodeRecord) × (get_better_nodes s h allow ≡ x ∷ l)
      × (bit_distance x.node_id h ≤ bit_distance n.node_id h)
unfolding get_better_nodes
get_better_nodes_nearest s h allow n j lt m t =
    first (rank_nodes s.this_node s.buckets h allow)
      (rank_nodes-IsEntry s.this_node s.buckets h allow)
      (rank_nodes-HeadLe s.this_node s.buckets h allow n j lt m (ground arith))
  where
    first :
        (q : List Ranked)
        → All (IsEntry s.this_node s.buckets h allow) q
        → HeadLe (bit_distance n.node_id h) q
        → (x : NodeRecord) × (l : List NodeRecord) × (map (λ e. e.1) q ≡ x ∷ l)
          × (bit_distance x.node_id h ≤ bit_distance n.node_id h)
    first [] a k = absurd k
    first (e ∷ q) a k = (e.1, map (λ e. e.1) q, refl, omega arith)
