-- ===== src/NodeQueue/Loops.antt =====
-- Rules for the two loops of `get_better_nodes` in dht/NodeQueue.cpp.
use mathlib.Core.Logic.Or
use mathlib.Core.List.{Mem, mem-cons_self, mem-cons_of_mem, eq-or-mem_of_mem-cons, not-mem-nil}
use native.Mathlib.Decide.{ℕ_discrete}
use spatter.Messages.Hash.{Hash}
use spatter.Messages.Node.{NodeRecord}
use spatter.Util.Distance.{bit_distance}
use spatter.NodeQueue.{offer_buckets, offer_bucket, bucket_count}
use spatter.NodeQueue.Ranking.{offer, enqueue}
use spatter.NodeQueue.Queue.{HeadLe, HeadLe-prop}
use spatter.NodeQueue.Enqueue.{enqueue-HeadLe_self, enqueue-HeadLe}
use spatter.State.{Ranked}
use spatter.Prelude.{
  ℕ, zero, suc, ◌+◌, ◌≤◌, ◌<◌, ◌≡◌, inl, inr, Bool, true, ◌||◌, List, [], ◌∷◌, ltb, Bool-cases,
  arith,
}

module _ (h : Hash) (max_dist : ℕ) (allow : Bool) where
  -- A node is taken into account: it is nearer than this node, or all are asked for.
  abbrev pub admits : NodeRecord → Bool
  admits n = ltb (bit_distance n.node_id h) max_dist || allow

  -- A property of the queue that each admitted node keeps holds at the end of a bucket.
  offer_bucket_rule :
      (P : List Ranked → Type 0) (l : List NodeRecord)
      → ((n : NodeRecord) (q : List Ranked)
          → Mem n l
          → admits n ≡ true
          → P q
          → P (enqueue (bit_distance n.node_id h, n) q))
      → (q : List Ranked) → P q
      → P (offer_bucket h max_dist allow l q)
  unfolding offer_bucket offer
  offer_bucket_rule P [] f q pq = pq
  offer_bucket_rule P (n ∷ l) f q pq =
      offer_bucket_rule P l (λ m r i. f m r (mem-cons_of_mem n i)) (offer h max_dist allow n q)
        (elim (Bool-cases (admits n)) [ inl t ↦ rw t (f n q mem-cons_self t pq) | inr t ↦ rw t pq ])

  pub offer_buckets_rule :
      (P : List Ranked → Type 0) (b : ℕ → List NodeRecord)
      → ((i : ℕ) (n : NodeRecord) (q : List Ranked)
          → i < bucket_count
          → Mem n (b i)
          → admits n ≡ true
          → P q
          → P (enqueue (bit_distance n.node_id h, n) q))
      → (k i : ℕ) (q : List Ranked) → i + k ≤ bucket_count
      → P q
      → P (offer_buckets h max_dist allow b k i q)
  unfolding offer_buckets
  offer_buckets_rule P b f zero i q le pq = pq
  offer_buckets_rule P b f (suc k) i q le pq =
      offer_buckets_rule P b f k (i + 1) (offer_bucket h max_dist allow (b i) q) (omega arith)
        (offer_bucket_rule P (b i) (λ n r. f i n r (omega arith)) q pq)

  -- Once a bucket is done, the first entry is at most as far as each of its admitted nodes.
  offer_bucket-HeadLe :
      (n : NodeRecord) (l : List NodeRecord) (q : List Ranked)
      → admits n ≡ true
      → Mem n l
      → HeadLe (bit_distance n.node_id h) (offer_bucket h max_dist allow l q)
  unfolding offer_bucket offer
  offer_bucket-HeadLe n [] q t m = absurd (not-mem-nil m)
  offer_bucket-HeadLe n (x ∷ l) q t m =
      Or.elim (HeadLe-prop _ _) (eq-or-mem_of_mem-cons m)
        (λ e.
          offer_bucket_rule (HeadLe (bit_distance n.node_id h)) l
            (λ y r i u k. enqueue-HeadLe _ r _ k) (offer h max_dist allow x q)
            (rw (← e, t) (enqueue-HeadLe_self _ q)))
        (offer_bucket-HeadLe n l _ t)

  pub offer_buckets-HeadLe :
      (b : ℕ → List NodeRecord) (n : NodeRecord) (j : ℕ)
      → admits n ≡ true
      → Mem n (b j)
      → (k i : ℕ) (q : List Ranked) → i + k ≤ bucket_count
      → i ≤ j
      → j < i + k
      → HeadLe (bit_distance n.node_id h) (offer_buckets h max_dist allow b k i q)
  unfolding offer_buckets
  offer_buckets-HeadLe b n j t m zero i q le lo hi = absurd (omega arith)
  offer_buckets-HeadLe b n j t m (suc k) i q le lo hi = elim (ℕ_discrete i j) [
    | yes here ↦
        offer_buckets_rule (HeadLe (bit_distance n.node_id h)) b
          (λ i' x r u v w. enqueue-HeadLe _ r _) k (i + 1) (offer_bucket h max_dist allow (b i) q)
          (omega arith) (offer_bucket-HeadLe n (b i) q t (rw here m))
    | no later ↦
        offer_buckets-HeadLe b n j t m k (i + 1) (offer_bucket h max_dist allow (b i) q)
          (omega arith) (omega arith) (omega arith)
  ]
