-- ===== src/Control/Frame.antt =====
-- What `udp_send` and `ping` of dht/protocol/control_protocol.cpp leave as it was, and when they
-- succeed.
use spatter.Messages.Node.{NodeRecord, node_eq}
use spatter.Messages.Ping.{PingMessage}
use spatter.Messages.Archive.{Packet, Message, serialize_message}
use spatter.Control.Send.{udp_send, ping, insert_pending, ping_timeout}
use spatter.State.{State, Platform, ControlProtocol}
use spatter.Prelude.{ℕ, ◌+◌, ◌%◌, ◌^◌, ◌≡◌, true, false, [], ◌∷◌, ◌++◌, some, ok, arith}

-- The parts of the state that sending does not touch.
pub record SendsOnly {Text : Type 0} (s s' : State Text) : Type 0 where
  pub dht : s'.dht ≡ s.dht
  pub buckets : s'.buckets ≡ s.buckets
  pub next_message_id : s'.next_message_id ≡ s.next_message_id
  pub searches : s'.searches ≡ s.searches
  pub next_master_search_id : s'.next_master_search_id ≡ s.next_master_search_id
  pub next_sub_search_id : s'.next_sub_search_id ≡ s.next_sub_search_id

module _ {Text : Type 0} (p : Platform Text) where
  pub udp_send-SendsOnly :
      (msg : Packet Text) (to : NodeRecord) (s s' : State Text)
      → udp_send p msg to s ≡ ok s'
      → SendsOnly s s'
  unfolding udp_send
  udp_send-SendsOnly msg to s s' h = ground arith

  pub ping-SendsOnly :
      (now : ℕ) (m : PingMessage) (s s' : State Text) → ping p now m s ≡ ok s' → SendsOnly s s'
  unfolding ping
  ping-SendsOnly now m s s' h = ground arith

  -- The state after a ping of another node that can be resolved.
  abbrev pub pinged : ℕ → PingMessage → ControlProtocol → State Text → State Text
  pinged now m c s = record s {
    control = some (record c {
      unacknowledged_pings =
          insert_pending ((now + ping_timeout) % 2 ^ 32, m) c.unacknowledged_pings;
    });
    sent = s.sent ++ (serialize_message p.archive (Message.ping m), m.receiver_node) ∷ [];
  }

  pub ping-pinged :
      (now : ℕ) (m : PingMessage) (s : State Text) (c : ControlProtocol)
      → s.control ≡ some c
      → node_eq m.receiver_node s.this_node ≡ false
      → p.resolves m.receiver_node ≡ true
      → ping p now m s ≡ ok (pinged now m c s)
  unfolding ping udp_send
  ping-pinged now m s c h k r = rw (h, k, r)

  -- This node is not pinged: nothing is sent, and no answer is awaited.
  pub ping_self :
      (now : ℕ) (m : PingMessage) (s : State Text) (c : ControlProtocol)
      → s.control ≡ some c
      → node_eq m.receiver_node s.this_node ≡ true
      → ping p now m s ≡ ok s
  unfolding ping
  ping_self now m s c h k = rw (h, k)
