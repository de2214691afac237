-- ===== src/NodeQueue/Refreshing.antt =====
-- `mark_seen` of dht/NodeQueue.cpp for a node whose bucket has room.
use spatter.Messages.Node.{NodeRecord, node_eq, node_eq_symm, node_eq_left}
use spatter.NodeQueue.{erase_node, set_bucket, mark_seen, bucket_size, bucket_count}
use spatter.NodeQueue.Buckets.{DistinctNodes}
use spatter.NodeQueue.Seen.{mark_seen_room, bucket_of}
use spatter.State.{State, Platform}
use spatter.Prelude.{
  ℕ, suc, ◌<◌, ◌≡◌, ◌≢◌, refl, sym, ap, ◌∙◌, true, false, List, [], ◌∷◌, if◌then◌else◌, any, length,
  ok, Bool-cases, inl, inr, arith,
}

-- The nodes of another address or port than the given one's.
unfoldable pub others : NodeRecord → List NodeRecord → List NodeRecord
others n [] = []
others n (x ∷ l) = let rest = others n l in if node_eq x n then rest else x ∷ rest

others-same :
    (x n : NodeRecord) (l : List NodeRecord)
    → node_eq x n ≡ true
    → any (λ y. node_eq x y) l ≡ false
    → others n l ≡ l
unfolding others
others-same x n [] h d = refl
others-same x n (y ∷ l) h d =
    let different : node_eq y n ≡ false = ground (arith, node_eq_left x n y h, node_eq_symm y n) in
    rw different (ap (λ m. y ∷ m) (others-same x n l h (ground arith)))

-- Where there is at most one such node, erasing the first leaves none.
erase_node-others :
    (n : NodeRecord) (l : List NodeRecord) → DistinctNodes l → erase_node n l ≡ others n l
unfolding erase_node others
erase_node-others n [] d = refl
erase_node-others n (x ∷ l) d = elim (Bool-cases (node_eq x n)) [
  | inl same ↦ rw same (sym (others-same x n l same d.0))
  | inr other ↦ rw other (ap (λ m. x ∷ m) (erase_node-others n l d.1))
]

-- A node with a port, at a distance below 192, in whose bucket no address and port is twice, is put in
-- front of the bucket with success if there is room: the bucket is then the node and all the nodes of
-- another address or port, in their order, so that an older record of the node is gone. Nothing else
-- changes.
pub mark_seen_refreshes :
    {Text : Type 0} (p : Platform Text) (now : ℕ) (n : NodeRecord) (s : State Text)
    → n.port ≢ 0
    → bucket_of p now n s < bucket_count
    → DistinctNodes (s.buckets (bucket_of p now n s))
    → suc (length (others n (s.buckets (bucket_of p now n s)))) < bucket_size
    → mark_seen p now n s
      ≡ ok (record s {
        buckets =
            set_bucket s.buckets
              (bucket_of p now n s)
              (n ∷ others n (s.buckets (bucket_of p now n s)));
      })
mark_seen_refreshes p now n s port range distinct room =
    let d = bucket_of p now n s in
    let same = erase_node-others n (s.buckets d) distinct in
    mark_seen_room p now n s port range (rw same room)
    ∙ ap (λ l. ok (record s { buckets = set_bucket s.buckets d (n ∷ l) })) same
