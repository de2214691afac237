-- ===== src/Search/Answers.antt =====
-- The answer to another node's search, dht/protocol/search_manager.cpp.
use spatter.Messages.Node.{NodeRecord, node_eq}
use spatter.Messages.Search.{SearchMessage, SearchResult, is_key_search}
use spatter.Messages.Archive.{Message, serialize_message}
use spatter.Util.Distance.{bit_distance}
use spatter.Control.Send.{udp_send}
use spatter.NodeQueue.{get_better_nodes}
use spatter.NodeQueue.Buckets.{DistinctNodes}
use spatter.NodeQueue.Better.{get_better_nodes_sound}
use spatter.NodeQueue.Ranking.{alpha}
use spatter.Dht.{query}
use spatter.Search.Manager.{remove_node, answer_search, handle_search}
use spatter.State.{State, Platform, ControlProtocol}
use spatter.Prelude.{
  ◌≤◌, ◌<◌, ◌≡◌, refl, true, false, List, [], ◌∷◌, ◌++◌, some, if◌then◌else◌, length, any, All,
  All-mono, All-both, ok, Bool-cases, inl, inr, arith,
}

remove_node-All :
    (P : NodeRecord → Type 0) (n : NodeRecord) (l : List NodeRecord)
    → All P l
    → All P (remove_node n l)
unfolding remove_node
remove_node-All P n [] h = tt
remove_node-All P n (x ∷ l) h = ground (arith, remove_node-All P n l h.1)

remove_node_gone :
    (n : NodeRecord) (l : List NodeRecord) → All (λ x. node_eq x n ≡ false) (remove_node n l)
unfolding remove_node
remove_node_gone n [] = tt
remove_node_gone n (x ∷ l) = elim (Bool-cases (node_eq x n)) [
  | inl same ↦ rw same (remove_node_gone n l)
  | inr other ↦ rw other (other, remove_node_gone n l)
]

length-remove_node-le : (n : NodeRecord) (l : List NodeRecord) → length (remove_node n l) ≤ length l
unfolding remove_node
length-remove_node-le n [] = omega arith
length-remove_node-le n (x ∷ l) = ground (arith, length-remove_node-le n l)

abbrev NearerThanThis : {Text : Type 0} → SearchMessage → State Text → NodeRecord → Type 0
NearerThanThis sm s n = bit_distance n.node_id sm.key < bit_distance s.this_node.node_id sm.key

-- The list without this node and the asker.
answer_near :
    {Text : Type 0} (sm : SearchMessage) (s : State Text)
    → All (NearerThanThis sm s) (get_better_nodes s sm.key false)
    → All
        (λ n.
          (node_eq n s.this_node ≡ false)
          × (node_eq n sm.sender_node ≡ false)
          × (bit_distance n.node_id sm.key < bit_distance s.this_node.node_id sm.key))
        (answer_search sm s).node_list
unfolding answer_search
answer_near sm s near =
    let l = get_better_nodes s sm.key false in
    let NotThis : NodeRecord → Type 0 = λ n. node_eq n s.this_node ≡ false in
    let Both : NodeRecord → Type 0 = λ n. NotThis n × NearerThanThis sm s n in
    let without : All Both (remove_node s.this_node l) =
      All-both NotThis (NearerThanThis sm s) _ (remove_node_gone s.this_node l)
        (remove_node-All (NearerThanThis sm s) s.this_node l near) in
    All-mono _ _ _ (λ n h. (h.1.0, h.0, h.1.1))
      (All-both (λ n. node_eq n sm.sender_node ≡ false) Both _
        (remove_node_gone sm.sender_node (remove_node s.this_node l))
        (remove_node-All Both sm.sender_node _ without))

any-remove_node :
    (x n : NodeRecord) (l : List NodeRecord)
    → any (λ y. node_eq x y) l ≡ false
    → any (λ y. node_eq x y) (remove_node n l) ≡ false
unfolding remove_node
any-remove_node x n [] h = refl
any-remove_node x n (y ∷ l) h = ground (arith, any-remove_node x n l)

remove_node-DistinctNodes :
    (n : NodeRecord) (l : List NodeRecord) → DistinctNodes l → DistinctNodes (remove_node n l)
unfolding remove_node
remove_node-DistinctNodes n [] d = tt
remove_node-DistinctNodes n (y ∷ l) d =
    ground (arith, any-remove_node y n l d.0, remove_node-DistinctNodes n l d.1)

-- The answer names no address and port twice if the nodes that are known do not.
pub answer_search-DistinctNodes :
    {Text : Type 0} (sm : SearchMessage) (s : State Text)
    → DistinctNodes (get_better_nodes s sm.key false)
    → DistinctNodes (answer_search sm s).node_list
unfolding answer_search
answer_search-DistinctNodes sm s d =
    remove_node-DistinctNodes sm.sender_node _ (remove_node-DistinctNodes s.this_node _ d)

-- The answer goes to the asker.
pub handle_search_sends :
    {Text : Type 0} (p : Platform Text) (sm : SearchMessage) (s : State Text) (c : ControlProtocol)
    → s.control ≡ some c
    → node_eq sm.sender_node s.this_node ≡ false
    → p.resolves sm.sender_node ≡ true
    → handle_search p sm s
      ≡ ok (record s {
        sent =
            s.sent
            ++ (
              serialize_message p.archive (Message.search_result (answer_search sm s)),
              sm.sender_node,
            )
              ∷ [];
      })
unfolding handle_search udp_send
handle_search_sends p sm s c ctl other r = rw (ctl, other, r)

-- A search of another node with an address that resolves gets one packet in answer, with both of its
-- ids, and nothing else changes. The answer names at most four nodes; each is nearer to the key than
-- this node, and neither this node nor the asker. It has the file records of the key if the search is
-- for a key, and none if it is for a node.
pub handle_search_answers :
    {Text : Type 0} (p : Platform Text) (sm : SearchMessage) (s : State Text) (c : ControlProtocol)
    → s.control ≡ some c
    → node_eq sm.sender_node s.this_node ≡ false
    → p.resolves sm.sender_node ≡ true
    → (srm : SearchResult) × (handle_search p sm s
        ≡ ok (record s {
          sent =
              s.sent
              ++ (serialize_message p.archive (Message.search_result srm), sm.sender_node) ∷ [];
        }))
      × (srm.search_id ≡ sm.search_id)
      × (srm.sub_search_id ≡ sm.sub_search_id)
      × (srm.file_list ≡ (if is_key_search sm.type then query s.dht sm.key else []))
      × (length srm.node_list < alpha)
      × All
          (λ n.
            (node_eq n s.this_node ≡ false)
            × (node_eq n sm.sender_node ≡ false)
            × (bit_distance n.node_id sm.key < bit_distance s.this_node.node_id sm.key))
          srm.node_list
unfolding answer_search
handle_search_answers p sm s c ctl other r =
    let l = get_better_nodes s sm.key false in
    let (short, _, sound) = get_better_nodes_sound s sm.key false in
    let near =
      All-mono _
        (λ (n : NodeRecord).
          bit_distance n.node_id sm.key < bit_distance s.this_node.node_id sm.key)
        l (λ n h. ground arith) sound in
    (
      answer_search sm s,
      handle_search_sends p sm s c ctl other r,
      refl,
      refl,
      refl,
      omega (
        arith,
        short,
        length-remove_node-le s.this_node l,
        length-remove_node-le sm.sender_node (remove_node s.this_node l),
      ),
      answer_near sm s near,
    )
