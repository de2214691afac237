-- ===== src/Messages/Ping.antt =====
-- `ping_message` of dht/protocol/messages.hpp.
use spatter.Messages.Node.{NodeRecord, node_eq, node_eq_refl, node_eq_symm}
use spatter.Prelude.{ℕ, ◌≡◌, refl, Bool, true, ◌&&◌, ◌||◌, ◌==◌, if◌then◌else◌, arith}

-- `is_reply` is the `uint8_t`, and a flag where it is tested.
pub record PingMessage : Type 0 where
  pub sender_node : NodeRecord
  pub receiver_node : NodeRecord
  pub is_reply : ℕ
  pub message_id : ℕ

-- `!x` as a number
abbrev pub lnot : ℕ → ℕ
lnot x = if x == 0 then 1 else 0

-- `operator==`: the two are the same ping, or one is the answer to the other.
unfoldable pub ping_eq : PingMessage → PingMessage → Bool
ping_eq a b =
    (a.message_id == b.message_id)
    && ((node_eq a.sender_node b.receiver_node
          && (node_eq a.receiver_node b.sender_node && (a.is_reply == lnot b.is_reply)))
        || (node_eq a.sender_node b.sender_node
            && (node_eq a.receiver_node b.receiver_node && (a.is_reply == b.is_reply))))

-- `hash_value`; the hasher of a `uint32_t` is boost's.
unfoldable pub hash_value_ping : (ℕ → ℕ) → PingMessage → ℕ
hash_value_ping hasher p = hasher p.message_id

-- Pings that compare equal, a request and its answer among them, have the same value, as an unordered
-- container asks.
hash_value_ping-ping_eq :
    (hasher : ℕ → ℕ) (p q : PingMessage)
    → ping_eq p q ≡ true
    → hash_value_ping hasher p ≡ hash_value_ping hasher q
unfolding hash_value_ping ping_eq
hash_value_ping-ping_eq hasher p q e =
    let same : p.message_id ≡ q.message_id = ground arith in rw same refl

pub ping_eq_refl : (p : PingMessage) → ping_eq p p ≡ true
unfolding ping_eq
ping_eq_refl p = ground (arith, node_eq_refl p.sender_node, node_eq_refl p.receiver_node)

-- The answer to a request, from a node with the address that was asked, matches the request; no
-- other id does.
pub ping_eq_answer :
    (p q : PingMessage)
    → p.is_reply ≡ 0
    → q.is_reply ≡ 1
    → node_eq q.sender_node p.receiver_node ≡ true
    → node_eq q.receiver_node p.sender_node ≡ true
    → ping_eq p q ≡ (p.message_id == q.message_id)
unfolding ping_eq
ping_eq_answer p q a b h k =
    ground (
      arith,
      node_eq_symm q.sender_node p.receiver_node,
      node_eq_symm q.receiver_node p.sender_node,
    )
