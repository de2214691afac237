-- ===== src/NodeQueue.antt =====
-- dht/NodeQueue.cpp: the buckets of known nodes, by their distance from this node, and the queries
-- and pings that walk them.
pub mod Ranking
pub mod Queue
pub mod Enqueue
pub mod Farthest
pub mod PingAll
pub mod PingKeeps
pub mod Receiving
pub mod Buckets
pub mod Seen
pub mod Refreshing
pub mod Placed
pub mod Sending
pub mod Loops
pub mod Dropped
pub mod Better
use spatter.Messages.Hash.{Hash}
use spatter.Messages.Node.{NodeRecord, node_eq}
use spatter.Messages.Ping.{PingMessage}
use spatter.Util.Distance.{bit_distance}
use spatter.Control.Send.{ping}
use spatter.State.{State, Platform, Ranked}
use spatter.Prelude.{
  ℕ, zero, suc, ◌+◌, ◌%◌, ◌^◌, Bool, true, false, ◌||◌, List, [], ◌∷◌, Option, none, some, map, ltb,
  leb, ◌==◌, if◌then◌else◌, length, pop_back, back, Outcome, ok, fault, assertion, out_of_bounds,
  ◌>>=◌,
}
use Ranking.{offer}

-- `HASH_BYTES * CHAR_BIT`
abbrev pub bucket_count : ℕ
bucket_count = 192

abbrev pub bucket_size : ℕ
bucket_size = 32

-- `find` and `erase`: without the first node equal to the given one.
unfoldable pub erase_node : NodeRecord → List NodeRecord → List NodeRecord
erase_node n [] = []
erase_node n (x ∷ l) = if node_eq x n then l else x ∷ erase_node n l

abbrev pub set_bucket : (ℕ → List NodeRecord) → ℕ → List NodeRecord → ℕ → List NodeRecord
set_bucket b d l i = if d == i then l else b i

module _ {Text : Type 0} (p : Platform Text) where
  -- The request that goes to a node, under a new message id.
  unfoldable pub send_ping : ℕ → NodeRecord → State Text → Outcome (State Text)
  send_ping now to s =
      ping p now
        (record {
          sender_node = s.this_node;
          receiver_node = to;
          is_reply = 0;
          message_id = s.next_message_id;
        })
        (record s { next_message_id = (s.next_message_id + 1) % 2 ^ 32 })

  -- The end of `mark_seen`, with `l` in the bucket `d`.
  unfoldable pub trim_bucket : ℕ → ℕ → List NodeRecord → State Text → Outcome (State Text)
  trim_bucket now d l s =
      if leb bucket_size (length l)
      then elim (back l) [
        | none ↦ ok s
        | some last ↦
            send_ping now last (record s { buckets = set_bucket s.buckets d (pop_back l) })
      ]
      else ok (record s { buckets = set_bucket s.buckets d l })

  unfoldable pub mark_seen : ℕ → NodeRecord → State Text → Outcome (State Text)
  unfolding trim_bucket erase_node
  mark_seen now node s =
      if node.port == 0
      then fault assertion
      else (let d = bit_distance s.this_node.node_id node.node_id in
          if ltb d bucket_count
          then trim_bucket now d (node ∷ erase_node node (s.buckets d)) s
          else fault out_of_bounds)

  unfoldable pub ping_bucket : ℕ → List NodeRecord → State Text → Outcome (State Text)
  ping_bucket now [] s = ok s
  ping_bucket now (n ∷ l) s = do s' ← send_ping now n s; ping_bucket now l s'

  -- The loop of `ping_all` from the bucket `i`, with `n` rounds left.
  unfoldable pub ping_buckets : ℕ → ℕ → ℕ → State Text → Outcome (State Text)
  unfolding ping_bucket
  ping_buckets now zero i s = ok s
  ping_buckets now (suc n) i s = do
    s' ← ping_bucket now (s.buckets i) s
    ping_buckets now n (i + 1) s'

  unfoldable pub ping_all : ℕ → State Text → Outcome (State Text)
  unfolding ping_buckets
  ping_all now s = ping_buckets now bucket_count 0 s

-- The two loops of `get_better_nodes`: the nodes of a bucket, and the buckets from `i` on.
pub offer_bucket : Hash → ℕ → Bool → List NodeRecord → List Ranked → List Ranked
offer_bucket h max_dist allow [] pq = pq
offer_bucket h max_dist allow (n ∷ l) pq =
    offer_bucket h max_dist allow l (offer h max_dist allow n pq)

pub offer_buckets : Hash → ℕ → Bool → (ℕ → List NodeRecord) → ℕ → ℕ → List Ranked → List Ranked
unfolding offer_bucket
offer_buckets h max_dist allow b zero i pq = pq
offer_buckets h max_dist allow b (suc n) i pq =
    offer_buckets h max_dist allow b n (i + 1) (offer_bucket h max_dist allow (b i) pq)

unfoldable pub rank_nodes : NodeRecord → (ℕ → List NodeRecord) → Hash → Bool → List Ranked
unfolding offer_buckets
rank_nodes this b h allow = offer_buckets h (bit_distance this.node_id h) allow b bucket_count 0 []

unfoldable pub get_better_nodes : {Text : Type 0} → State Text → Hash → Bool → List NodeRecord
unfolding rank_nodes
get_better_nodes s h allow = map (λ e. e.1) (rank_nodes s.this_node s.buckets h allow)
