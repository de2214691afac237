-- ===== src/Control/Publishing.antt =====
-- A file that another node publishes, from its message to the answers to searches:
-- dht/protocol/control_protocol.cpp, dht/DHT.cpp and dht/protocol/search_manager.cpp together.
use spatter.Control.Delivered.{publish_handled}
use spatter.Control.Handle.{handle_message}
use spatter.Control.Success.{marked_node, handle_message_succeeds}
use spatter.Dht.{query}
use spatter.Dht.Queries.{inserted_found}
use spatter.Messages.Archive.{publish, serialize_message, ReadsBack}
use spatter.Messages.File.{FileInfo, PublishMessage, file_eq}
use spatter.Messages.Hash.{hash_eq}
use spatter.Messages.Node.{NodeRecord}
use spatter.Messages.Search.{SearchMessage, is_key_search}
use spatter.NodeQueue.{bucket_count}
use spatter.NodeQueue.Seen.{mark_seen-Marked}
use spatter.Search.Manager.{answer_search}
use spatter.State.{State, Platform, ControlProtocol}
use spatter.Util.Distance.{bit_distance}
use spatter.Prelude.{ℕ, ◌<◌, ◌≡◌, ◌≢◌, refl, sym, ◌∙◌, true, any, some, ok}

module _ {Text : Type 0} (p : Platform Text) (now : ℕ) where
  file_list_key :
      (sm : SearchMessage) (s : State Text)
      → is_key_search sm.type ≡ true
      → (answer_search sm s).file_list ≡ query s.dht sm.key
  unfolding answer_search
  file_list_key sm s k = rw k refl

  -- With the socket open, all addresses resolvable, an archive that reads back what it writes, and a
  -- node in the file's record that has a port and is at a distance below 192, a published file is taken
  -- in, and the answer to a search for its key has it, whatever its `valid_till`, at which no code looks.
  pub published_found :
      (info : FileInfo) (sm : SearchMessage) (s : State Text) (c : ControlProtocol)
      → ((x : NodeRecord) → p.resolves x ≡ true)
      → ReadsBack p.archive
      → s.control ≡ some c
      → info.node.port ≢ 0
      → bit_distance s.this_node.node_id info.node.node_id < bucket_count
      → is_key_search sm.type ≡ true
      → hash_eq info.key sm.key ≡ true
      → (s' : State Text) × (handle_message p now
            (serialize_message p.archive (publish (record { file_info = info })))
            s
          ≡ ok s')
        × (any (λ x. file_eq x info) (answer_search sm s').file_list ≡ true)
  unfolding marked_node
  published_found info sm s c found r open_socket port range k e =
      let pm : PublishMessage = record { file_info = info } in
      let (s', done) =
        handle_message_succeeds p now found (publish pm) s c r open_socket port range in
      let marked =
        mark_seen-Marked p now info.node _ s' (sym (publish_handled p now pm s r) ∙ done) in
      (s', done, rw (file_list_key sm s' k, marked.dht) (inserted_found s.dht info sm.key e))
