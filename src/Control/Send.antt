-- ===== src/Control/Send.antt =====
-- `create`, `udp_send` and `ping` of dht/protocol/control_protocol.cpp. They are called on
-- `control_protocol::get()`, which is null before `create`.
use spatter.Messages.Node.{NodeRecord, node_eq}
use spatter.Messages.Ping.{PingMessage, ping_eq}
use spatter.Messages.Archive.{Packet, Message, serialize_message}
use spatter.State.{State, Platform, Pending, ControlProtocol}
use spatter.Prelude.{
  ℕ, ◌+◌, ◌%◌, ◌^◌, Bool, ◌&&◌, List, [], ◌∷◌, ◌++◌, Option, none, some, any, ◌==◌, if◌then◌else◌,
  Outcome, ok, fault, thrown, null_pointer,
}

abbrev pub ping_timeout : ℕ
ping_timeout = 60

-- The constructor: the socket is bound and a first receive is posted.
abbrev pub new_control_protocol : ℕ → ControlProtocol
new_control_protocol port = record { port = port; unacknowledged_pings = []; receives = 1 }

-- `get`: the singleton.
abbrev pub get_control : {Text : Type 0} → State Text → Option ControlProtocol
get_control s = s.control

unfoldable pub create : {Text : Type 0} → ℕ → State Text → State Text
create port s = elim (get_control s) [
  | none ↦ record s { control = some (new_control_protocol port) }
  | some c ↦ s
]

-- `==` of the pairs in the set.
abbrev pub pending_eq : Pending → Pending → Bool
pending_eq a b = (a.0 == b.0) && ping_eq a.1 b.1

-- `insert` of the set: an element that is there already is not added.
unfoldable pub insert_pending : Pending → List Pending → List Pending
insert_pending e l = if any (λ x. pending_eq x e) l then l else l ++ e ∷ []

module _ {Text : Type 0} (p : Platform Text) where
  unfoldable pub udp_send : Packet Text → NodeRecord → State Text → Outcome (State Text)
  udp_send msg to s = elim (get_control s) [
    | none ↦ fault null_pointer
    | some c ↦
        if node_eq to s.this_node
        then ok s
        else (if p.resolves to
            then ok (record s { sent = s.sent ++ (msg, to) ∷ [] })
            else fault thrown)
  ]

  -- `now` is the result of `time(NULL)`; the sum is cut to the pair's `uint32_t`.
  unfoldable pub ping : ℕ → PingMessage → State Text → Outcome (State Text)
  unfolding udp_send insert_pending
  ping now m s = elim (get_control s) [
    | none ↦ fault null_pointer
    | some c ↦
        if node_eq m.receiver_node s.this_node
        then ok s
        else udp_send (serialize_message p.archive (Message.ping m)) m.receiver_node (record s {
          control = some (record c {
            unacknowledged_pings =
                insert_pending ((now + ping_timeout) % 2 ^ 32, m) c.unacknowledged_pings;
          });
        })
  ]
