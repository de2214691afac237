-- ===== src/Config/Friends/Known.antt =====
-- Which nodes the list of friends of Config.cpp makes known.
use spatter.Boost.{Boost}
use spatter.Config.{is_comment}
use spatter.Config.Friends.{blanks, friend_node, load_friends}
use spatter.Control.Invariant.{IsNode, Keeps, Keeps-bind, if-Keeps, mark_seen-Keeps}
use spatter.Control.Send.{ping}
use spatter.Messages.Hash.{hash_bytes}
use spatter.Messages.Node.{NodeRecord}
use spatter.Messages.Str.{Str}
use spatter.NodeQueue.{
  mark_seen, trim_bucket, send_ping, bucket_size, bucket_count, set_bucket, erase_node,
}
use spatter.NodeQueue.Buckets.{touched, length-erase_node-le}
use spatter.NodeQueue.Seen.{mark_seen_room, bucket_of}
use spatter.State.{State, Platform}
use spatter.Util.Distance.{bit_distance}
use spatter.Prelude.{
  ℕ, suc, ◌+◌, ◌≤◌, ◌<◌, ◌≡◌, ◌≢◌, refl, true, false, List, [], ◌∷◌, none, length, back-cons, ◌==◌,
  Outcome, ok, fault, null_pointer, ◌>>=◌, >>=-eq-ok, Bool-cases, inl, inr, arith,
}

module _ (b : Boost) {Text : Type 0} (p : Platform Text) (now : ℕ) (rand : ℕ → ℕ) where
  mark-Keeps :
      (o : Outcome NodeRecord) (s : State Text) (f : State Text → Outcome (State Text))
      → IsNode s
      → ((t : State Text) → IsNode t → Keeps (f t))
      → Keeps (o >>= λ n. mark_seen p now n s >>= f)
  mark-Keeps (fault e) s f v g = tt
  mark-Keeps (ok n) s f v g = Keeps-bind (mark_seen p now n s) f (mark_seen-Keeps p now n s v) g

  pub load_friends-Keeps :
      (i : ℕ) (lines : List Str) (s : State Text)
      → IsNode s
      → Keeps (load_friends b p now rand i lines s)
  unfolding load_friends
  load_friends-Keeps i [] s v = v
  load_friends-Keeps i (text ∷ lines) s v =
      if-Keeps p now (is_comment (b.trim text)) _ _ (load_friends-Keeps i lines s v) (
        mark-Keeps (friend_node b p now rand i (b.split blanks (b.trim text))) s
          (load_friends b p now rand (i + hash_bytes) lines) v
          (load_friends-Keeps (i + hash_bytes) lines))

  -- Before there is a socket, a success of `mark_seen` has sent nothing and evicted nothing.
  mark_seen_unconnected :
      (n : NodeRecord) (s s' : State Text)
      → s.control ≡ none
      → mark_seen p now n s ≡ ok s'
      → s'.control ≡ none
  unfolding mark_seen send_ping ping trim_bucket
  mark_seen_unconnected n s s' c e = ground arith

  mark_seen_full :
      (n : NodeRecord) (s : State Text)
      → s.control ≡ none
      → n.port ≢ 0
      → bucket_of p now n s < bucket_count
      → bucket_size ≤ length (touched n (s.buckets (bucket_of p now n s)))
      → mark_seen p now n s ≡ fault null_pointer
  unfolding mark_seen send_ping ping trim_bucket
  mark_seen_full n s c h k f =
      let (last, e) = back-cons n (erase_node n (s.buckets (bucket_of p now n s))) in
      ground (arith, e)

  pub load_friends_unconnected :
      (i : ℕ) (lines : List Str) (s s' : State Text)
      → s.control ≡ none
      → load_friends b p now rand i lines s ≡ ok s'
      → s'.control ≡ none
  unfolding load_friends
  load_friends_unconnected i [] s s' c e = ground arith
  load_friends_unconnected i (text ∷ lines) s s' c e =
      elim (Bool-cases (is_comment (b.trim text))) [
        | inl skip ↦ load_friends_unconnected i lines s s' c (rw skip at e)
        | inr friend ↦
            let e' = rw friend at e in
            let (n, known, rest) =
              >>=-eq-ok (friend_node b p now rand i (b.split blanks (b.trim text))) _ e' in
            let (t, marked, later) = >>=-eq-ok (mark_seen p now n s) _ rest in
            load_friends_unconnected (i + hash_bytes) lines t s'
              (mark_seen_unconnected n s t c marked) later
      ]

  -- Without a socket, a line that names a node with a port, at a distance below 192, whose bucket
  -- has 31 other nodes, ends the loop over the friends: the ping of the evicted node goes through
  -- the null pointer.
  pub load_friends_full :
      (i : ℕ) (text : Str) (lines : List Str) (n : NodeRecord) (s : State Text)
      → s.control ≡ none
      → is_comment (b.trim text) ≡ false
      → friend_node b p now rand i (b.split blanks (b.trim text)) ≡ ok n
      → n.port ≢ 0
      → bucket_of p now n s < bucket_count
      → bucket_size ≤ length (touched n (s.buckets (bucket_of p now n s)))
      → load_friends b p now rand i (text ∷ lines) s ≡ fault null_pointer
  unfolding load_friends
  load_friends_full i text lines n s c skip known h k f =
      rw (skip, known, mark_seen_full n s c h k f)

  -- Lines of which each is a comment or names a friend that `mark_seen` can take.
  pub data AllFriends (this : NodeRecord) : ℕ → List Str → Type 0 where
    nil : (i : ℕ) → AllFriends this i []
    comment :
        (i : ℕ) (text : Str) (lines : List Str)
        → is_comment (b.trim text) ≡ true
        → AllFriends this i lines
        → AllFriends this i (text ∷ lines)
    friend :
        (i : ℕ) (text : Str) (lines : List Str) (n : NodeRecord)
        → is_comment (b.trim text) ≡ false
        → friend_node b p now rand i (b.split blanks (b.trim text)) ≡ ok n
        → n.port ≢ 0
        → bit_distance this.node_id n.node_id < bucket_count
        → AllFriends this (i + hash_bytes) lines
        → AllFriends this i (text ∷ lines)

  length-touched-le : (n : NodeRecord) (l : List NodeRecord) → length (touched n l) ≤ suc (length l)
  length-touched-le n l = omega (arith, length-erase_node-le n l)

  abbrev ShortBuckets : ℕ → State Text → Type 0
  ShortBuckets k s = (j : ℕ) → length (s.buckets j) ≤ k

  short_after :
      (n : NodeRecord) (d k : ℕ) (s : State Text)
      → ShortBuckets k s
      → length (touched n (s.buckets d)) ≤ suc k
      → (j : ℕ) → length (set_bucket s.buckets d (touched n (s.buckets d)) j) ≤ suc k
  short_after n d k s short here j = elim (Bool-cases (d == j)) [
    | inl same ↦ rw same here
    | inr other ↦ rw other (omega (arith, short j))
  ]

  -- Fewer than 32 lines leave room in every bucket.
  pub load_friends_succeeds :
      (this : NodeRecord) (i : ℕ) (lines : List Str)
      → AllFriends this i lines
      → (k : ℕ) (s : State Text) → s.this_node ≡ this
      → ShortBuckets k s
      → k + length lines < bucket_size
      → (s' : State Text) × (load_friends b p now rand i lines s ≡ ok s')
        × (s'.dht ≡ s.dht)
        × (s'.control ≡ s.control)
        × (s'.sent ≡ s.sent)
        × (s'.next_message_id ≡ s.next_message_id)
  unfolding load_friends
  load_friends_succeeds this i lines (nil _) k s same short room = (s, refl, refl, refl, refl, refl)
  load_friends_succeeds this i lines (comment _ text rest skip more) k s same short room =
      let (s', done, d0, d1, d2, d3) =
        load_friends_succeeds this i rest more k s same short (omega arith) in
      (s', rw skip done, d0, d1, d2, d3)
  load_friends_succeeds this i lines (friend _ text rest n skip known h d more) k s same short
        room =
      let d' = bit_distance s.this_node.node_id n.node_id in
      let t : State Text = record s {
        buckets = set_bucket s.buckets d' (touched n (s.buckets d'));
      } in
      let range : d' < bucket_count = rw same d in
      let here : length (touched n (s.buckets d')) ≤ suc k =
        omega (arith, length-touched-le n (s.buckets d'), short d') in
      let marked : mark_seen p now n s ≡ ok t = mark_seen_room p now n s h range (omega arith) in
      let (s', done, d0, d1, d2, d3) =
        load_friends_succeeds this (i + hash_bytes) rest more (suc k) t same
          (short_after n d' k s short here) (omega arith) in
      (s', rw (skip, known, marked) done, d0, d1, d2, d3)
