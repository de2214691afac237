-- ===== src/NodeQueue/Dropped.antt =====
-- Which nodes `get_better_nodes` of dht/NodeQueue.cpp leaves out though there is room for them.
use spatter.Messages.Hash.{Hash}
use spatter.Messages.Node.{NodeRecord}
use spatter.Util.Distance.{bit_distance}
use spatter.NodeQueue.{get_better_nodes, rank_nodes, offer_buckets, offer_bucket, bucket_count}
use spatter.NodeQueue.Ranking.{offer, enqueue, place}
use spatter.NodeQueue.Loops.{admits}
use spatter.State.{State, Ranked}
use spatter.Prelude.{
  ℕ, zero, suc, ◌+◌, ◌<◌, ◌≡◌, refl, Bool, true, List, [], ◌∷◌, ◌++◌, All, arith, sym, ◌∙◌,
}

-- The nodes of `k` buckets from `i` on, in the order in which the loops meet them.
abbrev pub walk : (ℕ → List NodeRecord) → ℕ → ℕ → List NodeRecord
walk b zero i = []
walk b (suc k) i = b i ++ walk b k (i + 1)

module _ (h : Hash) (max_dist : ℕ) (allow : Bool) where
  offer_bucket-append :
      (l m : List NodeRecord) (q : List Ranked)
      → offer_bucket h max_dist allow (l ++ m) q
        ≡ offer_bucket h max_dist allow m (offer_bucket h max_dist allow l q)
  unfolding offer_bucket
  offer_bucket-append [] m q = refl
  offer_bucket-append (x ∷ l) m q = offer_bucket-append l m (offer h max_dist allow x q)

  offer_buckets-walk :
      (b : ℕ → List NodeRecord) (k i : ℕ) (q : List Ranked)
      → offer_buckets h max_dist allow b k i q ≡ offer_bucket h max_dist allow (walk b k i) q
  unfolding offer_buckets
  offer_buckets-walk b zero i q = unfold offer_bucket in refl
  offer_buckets-walk b (suc k) i q =
      offer_buckets-walk b k (i + 1) (offer_bucket h max_dist allow (b i) q)
      ∙ sym (offer_bucket-append (b i) (walk b k (i + 1)) q)

  -- A node that is farther than the only entry finds no place.
  offer_farther :
      (n y : NodeRecord)
      → bit_distance n.node_id h < bit_distance y.node_id h
      → offer h max_dist allow y ((bit_distance n.node_id h, n) ∷ [])
        ≡ (bit_distance n.node_id h, n) ∷ []
  unfolding offer enqueue place
  offer_farther n y t = ground arith

  offer_bucket_farther :
      (n : NodeRecord) (l : List NodeRecord)
      → All (λ y. bit_distance n.node_id h < bit_distance y.node_id h) l
      → offer_bucket h max_dist allow l ((bit_distance n.node_id h, n) ∷ [])
        ≡ (bit_distance n.node_id h, n) ∷ []
  unfolding offer_bucket
  offer_bucket_farther n [] t = refl
  offer_bucket_farther n (y ∷ l) t = rw (offer_farther n y t.0) (offer_bucket_farther n l t.1)

  offer_first :
      (n : NodeRecord)
      → admits h max_dist allow n ≡ true
      → offer h max_dist allow n [] ≡ (bit_distance n.node_id h, n) ∷ []
  unfolding offer enqueue
  offer_first n t = rw t

-- A node is only taken in before a farther one. So if the first node that the loops meet qualifies
-- and is nearer than all others, it is the only one that is returned, whatever the others are.
pub get_better_nodes_drops_farther :
    {Text : Type 0} (s : State Text) (h : Hash) (allow : Bool) (n : NodeRecord)
    (others : List NodeRecord)
    → walk s.buckets bucket_count 0 ≡ n ∷ others
    → admits h (bit_distance s.this_node.node_id h) allow n ≡ true
    → All (λ y. bit_distance n.node_id h < bit_distance y.node_id h) others
    → get_better_nodes s h allow ≡ n ∷ []
unfolding get_better_nodes rank_nodes
get_better_nodes_drops_farther s h allow n others w t f =
    let max_dist = bit_distance s.this_node.node_id h in
    rw (
      offer_buckets-walk h max_dist allow s.buckets bucket_count 0 [],
      w,
      offer_bucket,
      offer_first h max_dist allow n t,
      offer_bucket_farther h max_dist allow n others f,
    )
