-- ===== src/Control/Delivered.antt =====
-- A packet that a node has written, at a node that reads it back: `handle_message` of
-- dht/protocol/control_protocol.cpp hands it to the case for its type.
use spatter.Control.Handle.{
  handle_message, dispatch, handle_publish, handle_search_message, handle_result_message,
  handle_ping,
}
use spatter.Dht.{insert_file_info_record}
use spatter.Messages.Archive.{Message, serialize_message, ReadsBack}
use spatter.Messages.File.{PublishMessage}
use spatter.Messages.Ping.{PingMessage}
use spatter.Messages.Search.{SearchMessage, SearchResult}
use spatter.NodeQueue.{mark_seen}
use spatter.Search.Manager.{handle_search, handle_search_result}
use spatter.State.{State, Platform}
use spatter.Prelude.{ℕ, ◌≡◌, refl, ◌>>=◌}

module _ {Text : Type 0} (p : Platform Text) (now : ℕ) where
  pub publish_handled :
      (pm : PublishMessage) (s : State Text)
      → ReadsBack p.archive
      → handle_message p now (serialize_message p.archive (Message.publish pm)) s
        ≡ mark_seen p now pm.file_info.node
            (record s { dht = insert_file_info_record s.dht pm.file_info })
  unfolding handle_message dispatch handle_publish serialize_message
  publish_handled pm s r = rw (r.opens (Message.publish pm), r.publish pm) refl

  pub search_handled :
      (sm : SearchMessage) (s : State Text)
      → ReadsBack p.archive
      → handle_message p now (serialize_message p.archive (Message.search sm)) s
        ≡ (handle_search p sm s >>= mark_seen p now sm.sender_node)
  unfolding handle_message dispatch handle_search_message serialize_message
  search_handled sm s r = rw (r.opens (Message.search sm), r.search sm) refl

  pub result_handled :
      (srm : SearchResult) (s : State Text)
      → ReadsBack p.archive
      → handle_message p now (serialize_message p.archive (Message.search_result srm)) s
        ≡ mark_seen p now srm.sender_node (handle_search_result srm s)
  unfolding handle_message dispatch handle_result_message serialize_message
  result_handled srm s r = rw (r.opens (Message.search_result srm), r.search_result srm) refl

  pub ping_handled :
      (m : PingMessage) (s : State Text)
      → ReadsBack p.archive
      → handle_message p now (serialize_message p.archive (Message.ping m)) s
        ≡ handle_ping p now m s
  unfolding handle_message dispatch serialize_message
  ping_handled m s r = rw (r.opens (Message.ping m), r.ping m)
