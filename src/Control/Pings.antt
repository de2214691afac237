-- ===== src/Control/Pings.antt =====
-- Pings between two nodes, dht/protocol/control_protocol.cpp.
use spatter.Messages.Hash.{IsHash}
use spatter.Messages.Node.{NodeRecord, node_eq, node_eq_refl}
use spatter.Messages.Ping.{PingMessage, ping_eq, ping_eq_answer}
use spatter.Messages.Archive.{Packet, Message, serialize_message, ReadsBack}
use spatter.Util.Distance.{bit_distance}
use spatter.Util.Metric.{bit_distance_metric}
use spatter.Control.Send.{udp_send, insert_pending, pending_eq}
use spatter.Control.Frame.{udp_send-SendsOnly}
use spatter.Control.Delivered.{ping_handled}
use spatter.Control.Handle.{
  acknowledge, ping_reply, handle_message, handle_ping_request, handle_ping,
}
use spatter.NodeQueue.{mark_seen, set_bucket}
use spatter.NodeQueue.Buckets.{refreshed}
use spatter.NodeQueue.Seen.{mark_seen-Marked}
use spatter.State.{State, Platform, ControlProtocol, Pending}
use spatter.Prelude.{
  ℕ, ◌≡◌, refl, ◌∙◌, true, false, List, [], ◌∷◌, ◌++◌, some, any, ==_refl, ok, >>=-eq-ok, arith,
}

acknowledge-append :
    (r : PingMessage) (e : Pending) (l : List Pending)
    → any (λ x. ping_eq x.1 r) l ≡ false
    → ping_eq e.1 r ≡ true
    → acknowledge r (l ++ e ∷ []) ≡ l
unfolding acknowledge
acknowledge-append r e [] h k = rw k
acknowledge-append r e (x ∷ l) h k = ground (arith, acknowledge-append r e l)

acknowledge-insert_pending :
    (r : PingMessage) (e : Pending) (l : List Pending)
    → any (λ x. ping_eq x.1 r) l ≡ false
    → any (λ x. pending_eq x e) l ≡ false
    → ping_eq e.1 r ≡ true
    → acknowledge r (insert_pending e l) ≡ l
unfolding insert_pending
acknowledge-insert_pending r e l h new k = rw new (acknowledge-append r e l h k)

module _ {Text : Type 0} (p : Platform Text) (now : ℕ) where
  marked_after_send :
      (to n : NodeRecord) (s t s' : State Text) (msg : Packet Text)
      → udp_send p msg to s ≡ ok t
      → mark_seen p now n t ≡ ok s'
      → let d = bit_distance s.this_node.node_id n.node_id in
        (s'.buckets ≡ set_bucket s.buckets d (refreshed n (s.buckets d))) × (s'.dht ≡ s.dht)
  marked_after_send to n s t s' msg sent marked =
      let f = udp_send-SendsOnly p msg to s t sent in
      let m = mark_seen-Marked p now n t s' marked in
      (rw (← f.buckets, ← f.dht) m.buckets, m.dht ∙ f.dht)

  request_buckets :
      (pm : PingMessage) (s s' : State Text)
      → handle_ping_request p now pm s ≡ ok s'
      → let d = bit_distance s.this_node.node_id s.this_node.node_id in
        (s'.buckets ≡ set_bucket s.buckets d (refreshed s.this_node (s.buckets d)))
        × (s'.dht ≡ s.dht)
  unfolding handle_ping_request
  request_buckets pm s s' h =
      let (t, sent, marked) = >>=-eq-ok (udp_send p _ pm.sender_node s) _ h in
      marked_after_send pm.sender_node s.this_node s t s' _ sent marked

  -- A ping request that is handled with success makes this node mark itself: it goes to the front of
  -- its own bucket 0. No other bucket changes, that of the asking node included, nor does the table.
  pub handle_ping_marks_self :
      (pm : PingMessage) (s s' : State Text)
      → IsHash s.this_node.node_id
      → pm.is_reply ≡ 0
      → handle_ping p now pm s ≡ ok s'
      → (s'.buckets ≡ set_bucket s.buckets 0 (refreshed s.this_node (s.buckets 0)))
        × (s'.dht ≡ s.dht)
  unfolding handle_ping
  handle_ping_marks_self pm s s' v q h =
      let id = s.this_node.node_id in
      let zero_distance : bit_distance id id ≡ 0 = (bit_distance_metric id id v v).2.1 refl in
      let request = rw q at h in rw zero_distance at (request_buckets pm s s' request)

  handle_ping_reply_lem :
      (m : PingMessage) (s : State Text) (c : ControlProtocol)
      → m.is_reply ≡ 1
      → s.control ≡ some c
      → handle_ping p now m s
        ≡ mark_seen p now m.sender_node (record s {
          control = some (record c { unacknowledged_pings = acknowledge m c.unacknowledged_pings });
        })
  unfolding handle_ping
  handle_ping_reply_lem m s c q h = rw (q, h)

  handle_ping_request_lem :
      (m : PingMessage) (s : State Text) (c : ControlProtocol)
      → m.is_reply ≡ 0
      → s.control ≡ some c
      → node_eq m.sender_node s.this_node ≡ false
      → p.resolves m.sender_node ≡ true
      → handle_ping p now m s
        ≡ mark_seen p now s.this_node (record s {
          sent =
              s.sent
              ++ (serialize_message p.archive (Message.ping (ping_reply m s)), m.sender_node) ∷ [];
        })
  unfolding handle_ping udp_send
  handle_ping_request_lem m s c q h k r = rw (q, h, k, r)

  -- A ping goes from `a`, which awaits its answer, to `b`, and the answer comes back: `b` sends it to
  -- the sender, and `a` takes that ping, and no other, off the pings that wait. Each then calls
  -- `mark_seen` with `b`. This is for an archive that reads back what it writes, open sockets, a ping
  -- that differs from those that wait before it, of which none matches the answer either, and a sender
  -- that is not `b` and whose address resolves.
  pub ping_round_trip :
      (a b : State Text) (c d : ControlProtocol) (m : PingMessage) (l : List Pending) (until : ℕ)
      → ReadsBack p.archive
      → a.control ≡ some c
      → b.control ≡ some d
      → c.unacknowledged_pings ≡ insert_pending (until, m) l
      → any (λ x. pending_eq x (until, m)) l ≡ false
      → any (λ x. ping_eq x.1 (ping_reply m b)) l ≡ false
      → m.is_reply ≡ 0
      → node_eq b.this_node m.receiver_node ≡ true
      → node_eq m.sender_node b.this_node ≡ false
      → p.resolves m.sender_node ≡ true
      → let answer = serialize_message p.archive (Message.ping (ping_reply m b)) in
        (handle_message p now (serialize_message p.archive (Message.ping m)) b
          ≡ mark_seen p now b.this_node
              (record b { sent = b.sent ++ (answer, m.sender_node) ∷ [] }))
        × (handle_message p now answer a
            ≡ mark_seen p now b.this_node
                (record a { control = some (record c { unacknowledged_pings = l }) }))
  unfolding ping_reply
  ping_round_trip a b c d m l until reads ac bd waits new clear request asked other found =
      let r = ping_reply m b in
      let answers : ping_eq m r ≡ true =
        ping_eq_answer m r request refl asked (node_eq_refl m.sender_node) ∙ ==_refl m.message_id in
      (
        ping_handled p now m b reads ∙ handle_ping_request_lem m b d request bd other found,
        ping_handled p now r a reads
            ∙ (handle_ping_reply_lem r a c refl ac
                ∙ rw (waits, acknowledge-insert_pending r (until, m) l clear new answers)),
      )
