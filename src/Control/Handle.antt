-- ===== src/Control/Handle.antt =====
-- `handle_message` and `handle_receive_from` of dht/protocol/control_protocol.cpp. A received buffer
-- with at least one byte is a packet: its first byte and the text behind it.
use spatter.Messages.Ping.{PingMessage, ping_eq}
use spatter.Messages.File.{PublishMessage}
use spatter.Messages.Search.{SearchMessage, SearchResult}
use spatter.Messages.Archive.{Packet, Message, serialize_message}
use spatter.Dht.{insert_file_info_record}
use spatter.Control.Send.{udp_send}
use spatter.NodeQueue.{mark_seen}
use spatter.Search.Manager.{handle_search, handle_search_result}
use spatter.State.{State, Platform, Pending}
use spatter.Prelude.{
  ℕ, ◌+◌, ◌-◌, Bool, List, [], ◌∷◌, Option, none, some, ◌==◌, if◌then◌else◌, Outcome, ok, fault,
  thrown, null_pointer, ◌>>=◌,
}

-- The loop over the set: the first match is erased.
unfoldable pub acknowledge : PingMessage → List Pending → List Pending
acknowledge pm [] = []
acknowledge pm (e ∷ l) = if ping_eq e.1 pm then l else e ∷ acknowledge pm l

-- The answer: the request turned round.
unfoldable pub ping_reply : {Text : Type 0} → PingMessage → State Text → PingMessage
ping_reply pm s = record pm {
  sender_node = s.this_node;
  receiver_node = pm.sender_node;
  is_reply = 1;
}

-- `archive >> m` throws if the text is none of such a message.
abbrev pub or_throw : {A B : Type 0} → Option A → (A → Outcome B) → Outcome B
or_throw none f = fault thrown
or_throw (some a) f = f a

module _ {Text : Type 0} (p : Platform Text) (now : ℕ) where
  unfoldable pub handle_publish : PublishMessage → State Text → Outcome (State Text)
  handle_publish pm s =
      mark_seen p now pm.file_info.node
        (record s { dht = insert_file_info_record s.dht pm.file_info })

  unfoldable pub handle_search_message : SearchMessage → State Text → Outcome (State Text)
  handle_search_message sm s = do s' ← handle_search p sm s; mark_seen p now sm.sender_node s'

  unfoldable pub handle_result_message : SearchResult → State Text → Outcome (State Text)
  handle_result_message srm s = mark_seen p now srm.sender_node (handle_search_result srm s)

  unfoldable pub handle_ping_reply : PingMessage → State Text → Outcome (State Text)
  unfolding acknowledge
  handle_ping_reply pm s = elim s.control [
    | none ↦ fault null_pointer
    | some c ↦ mark_seen p now pm.sender_node (record s {
      control = some (record c { unacknowledged_pings = acknowledge pm c.unacknowledged_pings });
    })
  ]

  -- By the time of `mark_seen` the message's sender is this node.
  unfoldable pub handle_ping_request : PingMessage → State Text → Outcome (State Text)
  unfolding ping_reply
  handle_ping_request pm s = do
    let reply = ping_reply pm s
    s' ← udp_send p (serialize_message p.archive (Message.ping reply)) reply.receiver_node s
    mark_seen p now reply.sender_node s'

  unfoldable pub handle_ping : PingMessage → State Text → Outcome (State Text)
  unfolding handle_ping_reply handle_ping_request
  handle_ping pm s = if pm.is_reply == 0 then handle_ping_request pm s else handle_ping_reply pm s

  -- The four cases by the type byte; other bytes are passed over.
  unfoldable pub dispatch : ℕ → Text → State Text → Outcome (State Text)
  unfolding handle_publish handle_search_message handle_result_message handle_ping
  dispatch type text s =
      if type == 1
      then or_throw (p.read_publish text) (λ pm. handle_publish pm s)
      else (if type == 2
          then or_throw (p.read_search text) (λ sm. handle_search_message sm s)
          else (if type == 3
              then or_throw (p.read_search_result text) (λ srm. handle_result_message srm s)
              else (if type == 4
                  then or_throw (p.read_ping text) (λ pm. handle_ping pm s)
                  else ok s)))

  unfoldable pub handle_message : Packet Text → State Text → Outcome (State Text)
  unfolding dispatch
  handle_message m s = if p.opens m.body then dispatch m.type m.body s else fault thrown

  -- The completed receive is off the socket, and the next one is posted before the data is looked at.
  unfoldable pub handle_receive_from :
      Bool → Option (Packet Text) → State Text → Outcome (State Text)
  unfolding handle_message
  handle_receive_from error received s = elim s.control [
    | none ↦ fault null_pointer
    | some c ↦
        let s' = record s { control = some (record c { receives = c.receives - 1 + 1 }) } in
        if error then ok s' else elim received [ none ↦ ok s' | some m ↦ handle_message m s' ]
  ]
