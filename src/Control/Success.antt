-- ===== src/Control/Success.antt =====
-- When `handle_message` of dht/protocol/control_protocol.cpp gets through.
use spatter.Messages.Node.{NodeRecord, node_eq}
use spatter.Messages.Ping.{PingMessage}
use spatter.Messages.Search.{SearchResult}
use spatter.Messages.Archive.{
  Packet, Message, publish, search, search_result, ping, serialize_message, ReadsBack,
}
use spatter.Util.Distance.{bit_distance}
use spatter.Dht.{insert_file_info_record}
use spatter.Control.Send.{udp_send}
use spatter.Control.Handle
use spatter.NodeQueue.{mark_seen, bucket_count}
use spatter.NodeQueue.Seen.{mark_seen_succeeds}
use spatter.Search.Manager.{handle_search, answer_search, handle_search_result}
use spatter.State.{State, Platform, ControlProtocol}
use spatter.Prelude.{
  ℕ, ◌<◌, ◌≡◌, ◌≢◌, refl, ◌∙◌, true, [], ◌∷◌, ◌++◌, some, ◌==◌, if◌then◌else◌, ok, ◌>>=◌,
  Bool-cases, inl, inr, arith,
}

-- The node that `handle_message` marks in the end.
unfoldable pub marked_node : {Text : Type 0} → State Text → Message → NodeRecord
marked_node s (publish m) = m.file_info.node
marked_node s (search m) = m.sender_node
marked_node s (search_result m) = m.sender_node
marked_node s (ping m) = if m.is_reply == 0 then s.this_node else m.sender_node

module _ {Text : Type 0} (p : Platform Text) (now : ℕ)
    (found : (x : NodeRecord) → p.resolves x ≡ true) where
  -- `udp_send` succeeds, and keeps the socket and the table.
  udp_send_succeeds :
      (msg : Packet Text) (to : NodeRecord) (s : State Text) (c : ControlProtocol)
      → s.control ≡ some c
      → (s' : State Text) × (udp_send p msg to s ≡ ok s') × (s'.control ≡ some c) × (s'.dht ≡ s.dht)
  unfolding udp_send
  udp_send_succeeds msg to s c ctl = elim (Bool-cases (node_eq to s.this_node)) [
    | inl self ↦ (s, rw (ctl, self) refl, ctl, refl)
    | inr other ↦
        (record s { sent = s.sent ++ (msg, to) ∷ [] }, rw (ctl, other, found to) refl, ctl, refl)
  ]

  send_and_mark :
      (msg : Packet Text) (to n : NodeRecord) (s : State Text) (c : ControlProtocol)
      → s.control ≡ some c
      → n.port ≢ 0
      → bit_distance s.this_node.node_id n.node_id < bucket_count
      → (s' : State Text) × ((udp_send p msg to s >>= mark_seen p now n) ≡ ok s')
  send_and_mark msg to n s c ctl port range =
      let (t, sent, open_socket, same) = udp_send_succeeds msg to s c ctl in
      let (s', marked) = mark_seen_succeeds p now n t c open_socket found port (rw same range) in
      (s', rw sent marked)

  handle_search_result_keeps :
      (srm : SearchResult) (s : State Text)
      → ((handle_search_result srm s).dht ≡ s.dht)
        × ((handle_search_result srm s).control ≡ s.control)
  unfolding handle_search_result
  handle_search_result_keeps srm s = ground arith

  handle_ping_succeeds :
      (m : PingMessage) (s : State Text) (c : ControlProtocol)
      → s.control ≡ some c
      → (marked_node s (ping m)).port ≢ 0
      → bit_distance s.this_node.node_id (marked_node s (ping m)).node_id < bucket_count
      → (s' : State Text) × (Handle.handle_ping p now m s ≡ ok s')
  unfolding Handle.handle_ping Handle.handle_ping_request Handle.handle_ping_reply Handle.ping_reply
      marked_node
  handle_ping_succeeds m s c ctl port range = elim (Bool-cases (m.is_reply == 0)) [
    | inl request ↦
        let (s', done) =
          send_and_mark (serialize_message p.archive (ping (Handle.ping_reply m s))) m.sender_node
            s.this_node s c ctl (rw request at port) (rw request at range) in
        (s', rw request done)
    | inr reply ↦
        let (s', done) =
          mark_seen_succeeds p now m.sender_node
            (record s {
              control =
                  some (record c {
                    unacknowledged_pings = Handle.acknowledge m c.unacknowledged_pings;
                  });
            })
            _ refl found (rw reply at port) (rw reply at range) in
        (s', rw (reply, ctl) done)
  ]

  -- With the socket open, all addresses resolvable and an archive that reads back what it writes,
  -- `handle_message` succeeds on every message that a node writes, if the node that it marks in the
  -- end has a port and is at a distance below 192: this node for a ping request, else the sender.
  pub handle_message_succeeds :
      (m : Message) (s : State Text) (c : ControlProtocol)
      → ReadsBack p.archive
      → s.control ≡ some c
      → (marked_node s m).port ≢ 0
      → bit_distance s.this_node.node_id (marked_node s m).node_id < bucket_count
      → (s' : State Text) × (Handle.handle_message p now (serialize_message p.archive m) s ≡ ok s')
  unfolding Handle.handle_message Handle.dispatch Handle.handle_publish Handle.handle_search_message
      Handle.handle_result_message handle_search serialize_message marked_node
      insert_file_info_record
  handle_message_succeeds (publish m) s c r ctl port range =
      let (s', done) =
        mark_seen_succeeds p now m.file_info.node
          (record s { dht = insert_file_info_record s.dht m.file_info }) c ctl found port range in
      (s', rw (r.opens (publish m), r.publish m) done)
  handle_message_succeeds (search m) s c r ctl port range =
      let (s', done) =
        send_and_mark (serialize_message p.archive (search_result (answer_search m s)))
          m.sender_node m.sender_node s c ctl port range in
      (s', rw (r.opens (search m), r.search m) done)
  handle_message_succeeds (search_result m) s c r ctl port range =
      let (same_dht, same_control) = handle_search_result_keeps m s in
      let (s', done) =
        mark_seen_succeeds p now m.sender_node (handle_search_result m s) c (same_control ∙ ctl)
          found port (rw same_dht range) in
      (s', rw (r.opens (search_result m), r.search_result m) done)
  handle_message_succeeds (ping m) s c r ctl port range =
      let (s', done) = handle_ping_succeeds m s c ctl port range in
      (s', rw (r.opens (ping m), r.ping m) done)
