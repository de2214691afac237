-- ===== src/NodeQueue/Seen.antt =====
-- `mark_seen` of dht/NodeQueue.cpp on every branch.
use spatter.Messages.Node.{NodeRecord, node_eq}
use spatter.Util.Distance.{bit_distance}
use spatter.Control.Frame.{SendsOnly, ping-SendsOnly, pinged, ping-pinged, ping_self}
use spatter.NodeQueue.{
  erase_node, set_bucket, send_ping, trim_bucket, mark_seen, bucket_size, bucket_count,
}
use spatter.NodeQueue.Buckets.{IsBucket, IsBuckets, touched, refreshed, refreshed-IsBucket}
use spatter.State.{State, Platform, ControlProtocol}
use spatter.Prelude.{
  ℕ, ◌+◌, ◌%◌, ◌^◌, ◌≤◌, ◌<◌, ◌≡◌, ◌≢◌, true, false, List, ◌∷◌, some, leb, ◌==◌, if◌then◌else◌,
  length, pop_back, back, back-cons, sym, ok, Bool-cases, ◌∙◌, inl, inr, arith,
}

module _ {Text : Type 0} (p : Platform Text) (now : ℕ) (s : State Text) where
  trim_room :
      (d : ℕ) (l : List NodeRecord)
      → length l < bucket_size
      → trim_bucket p now d l s ≡ ok (record s { buckets = set_bucket s.buckets d l })
  unfolding trim_bucket
  trim_room d l r = ground arith

  trim_full :
      (d : ℕ) (l : List NodeRecord) (last : NodeRecord)
      → bucket_size ≤ length l
      → back l ≡ some last
      → trim_bucket p now d l s
        ≡ send_ping p now last (record s { buckets = set_bucket s.buckets d (pop_back l) })
  unfolding trim_bucket
  trim_full d l last f b = ground arith

module _ {Text : Type 0} (p : Platform Text) (now : ℕ) (n : NodeRecord) (s : State Text) where
  abbrev pub bucket_of : ℕ
  bucket_of = bit_distance s.this_node.node_id n.node_id

  -- On the other branches the node's bucket is touched and trimmed.
  pub mark_seen-trim :
      n.port ≢ 0
      → bucket_of < bucket_count
      → mark_seen p now n s ≡ trim_bucket p now bucket_of (touched n (s.buckets bucket_of)) s
  unfolding mark_seen
  mark_seen-trim h k = ground arith

  -- A node with a port, at a distance below 192, whose bucket has room, is put in front of its bucket
  -- with success; an older record of the same address and port goes, and nothing else changes.
  pub mark_seen_room :
      n.port ≢ 0
      → bucket_of < bucket_count
      → length (touched n (s.buckets bucket_of)) < bucket_size
      → mark_seen p now n s
        ≡ ok (record s {
          buckets = set_bucket s.buckets bucket_of (touched n (s.buckets bucket_of));
        })
  mark_seen_room h k r =
      mark_seen-trim h k ∙ trim_room p now s bucket_of (touched n (s.buckets bucket_of)) r

  -- Where instead the bucket would reach 32 nodes, its last node goes and is sent a ping under the next
  -- message id, and the answer is awaited. This is for an open socket and a last node that is another
  -- one than this and whose address resolves; `mark_seen` then succeeds.
  pub mark_seen_evicts :
      (last : NodeRecord) (c : ControlProtocol)
      → n.port ≢ 0
      → bucket_of < bucket_count
      → bucket_size ≤ length (touched n (s.buckets bucket_of))
      → back (touched n (s.buckets bucket_of)) ≡ some last
      → s.control ≡ some c
      → node_eq last s.this_node ≡ false
      → p.resolves last ≡ true
      → mark_seen p now n s
        ≡ ok (
            pinged p now
              (record {
                sender_node = s.this_node;
                receiver_node = last;
                is_reply = 0;
                message_id = s.next_message_id;
              })
              c
              (record s {
                buckets =
                    set_bucket s.buckets bucket_of (pop_back (touched n (s.buckets bucket_of)));
                next_message_id = (s.next_message_id + 1) % 2 ^ 32;
              }))
  unfolding send_ping
  mark_seen_evicts last c h k f b ctl other r =
      mark_seen-trim h k
      ∙ (trim_full p now s bucket_of (touched n (s.buckets bucket_of)) last f b
          ∙ ping-pinged p now _ _ c ctl other r)

  -- With the socket open and all addresses resolvable, `mark_seen` succeeds for every node that has a
  -- port and is at a distance below 192.
  pub mark_seen_succeeds :
      (c : ControlProtocol)
      → s.control ≡ some c
      → ((x : NodeRecord) → p.resolves x ≡ true)
      → n.port ≢ 0
      → bucket_of < bucket_count
      → (s' : State Text) × (mark_seen p now n s ≡ ok s')
  unfolding send_ping
  mark_seen_succeeds c ctl found h k =
      let l = touched n (s.buckets bucket_of) in
      elim (Bool-cases (leb bucket_size (length l))) [
        | inl full ↦
            let (last, e) = back-cons n (erase_node n (s.buckets bucket_of)) in
            elim (Bool-cases (node_eq last s.this_node)) [
              | inl self ↦ (
                _,
                mark_seen-trim h k
                    ∙ (trim_full p now s bucket_of l last (ground arith) e
                        ∙ ping_self p now _ _ c ctl self),
              )
              | inr other ↦ (_, mark_seen_evicts last c h k (ground arith) e ctl other (found last))
            ]
        | inr room ↦ (_, mark_seen_room h k (ground arith))
      ]

-- What every success of `mark_seen` does to the buckets and to what sending does not touch.
pub record Marked {Text : Type 0} (n : NodeRecord) (s s' : State Text) : Type 0 where
  pub in_range : bit_distance s.this_node.node_id n.node_id < bucket_count
  pub port : n.port ≢ 0
  pub dht : s'.dht ≡ s.dht
  pub searches : s'.searches ≡ s.searches
  pub buckets :
      s'.buckets
      ≡ set_bucket s.buckets
          (bit_distance s.this_node.node_id n.node_id)
          (refreshed n (s.buckets (bit_distance s.this_node.node_id n.node_id)))

set_bucket-IsBuckets :
    (b : ℕ → List NodeRecord)
    → IsBuckets b
    → (d : ℕ) (l : List NodeRecord) → IsBucket l
    → IsBuckets (set_bucket b d l)
set_bucket-IsBuckets b v d l k i = elim (Bool-cases (d == i)) [
  | inl same ↦ rw same k
  | inr other ↦ rw other (v i)
]

trimmed : ℕ → List NodeRecord → (ℕ → List NodeRecord) → ℕ → List NodeRecord
trimmed d l b = set_bucket b d (if leb bucket_size (length l) then pop_back l else l)

module _ {Text : Type 0} (p : Platform Text) (now : ℕ) where
  send_ping-SendsOnly :
      (to : NodeRecord) (s s' : State Text)
      → send_ping p now to s ≡ ok s'
      → SendsOnly (record s { next_message_id = (s.next_message_id + 1) % 2 ^ 32 }) s'
  unfolding send_ping
  send_ping-SendsOnly to s s' h = ping-SendsOnly p now _ _ s' h

  trim_bucket_lem :
      (d : ℕ) (x : NodeRecord) (l : List NodeRecord) (s s' : State Text)
      → trim_bucket p now d (x ∷ l) s ≡ ok s'
      → (s'.dht ≡ s.dht) × (s'.searches ≡ s.searches) × (s'.buckets ≡ trimmed d (x ∷ l) s.buckets)
  unfolding trim_bucket trimmed
  trim_bucket_lem d x l s s' h = elim (Bool-cases (leb bucket_size (length (x ∷ l)))) [
    | inl full ↦
        let (last, e) = back-cons x l in
        let sent = sym (trim_full p now s d (x ∷ l) last (ground arith) e) ∙ h in
        let f = send_ping-SendsOnly last _ s' sent in rw full (f.dht, f.searches, f.buckets)
    | inr room ↦ ground arith
  ]

  pub mark_seen_inv :
      (n : NodeRecord) (s s' : State Text)
      → mark_seen p now n s ≡ ok s'
      → (n.port ≢ 0) × (bit_distance s.this_node.node_id n.node_id < bucket_count)
  unfolding mark_seen
  mark_seen_inv n s s' h = ground arith

  -- Every success of `mark_seen` has looked up an entry of the array, for a record with a port, and
  -- has put the node in front of that bucket and trimmed it; the other buckets, the table and the
  -- searches stay.
  pub mark_seen-Marked :
      (n : NodeRecord) (s s' : State Text) → mark_seen p now n s ≡ ok s' → Marked n s s'
  unfolding refreshed
  mark_seen-Marked n s s' h =
      let (port, range) = mark_seen_inv n s s' h in
      let d = bit_distance s.this_node.node_id n.node_id in
      let (same_dht, same_searches, b) =
        trim_bucket_lem d n (erase_node n (s.buckets d)) s s'
          (sym (mark_seen-trim p now n s port range) ∙ h) in
      record {
        in_range = range;
        port = port;
        dht = same_dht;
        searches = same_searches;
        buckets = unfold trimmed in b;
      }

  -- `mark_seen` keeps each bucket below 32 nodes, with no address and port twice.
  pub mark_seen-IsBuckets :
      (n : NodeRecord) (s s' : State Text)
      → IsBuckets s.buckets
      → mark_seen p now n s ≡ ok s'
      → IsBuckets s'.buckets
  mark_seen-IsBuckets n s s' v h = rw (mark_seen-Marked n s s' h).buckets (
      set_bucket-IsBuckets s.buckets v (bit_distance s.this_node.node_id n.node_id) _
        (refreshed-IsBucket n _ (v _)))
