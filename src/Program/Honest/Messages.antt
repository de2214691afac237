-- ===== src/Program/Honest/Messages.antt =====
-- What handling a packet makes of the records in a node and in what it sends.
use spatter.Control.Delivered.{publish_handled, search_handled, result_handled, ping_handled}
use spatter.Control.Handle.{
  handle_message, handle_receive_from, handle_ping, handle_ping_request, handle_ping_reply,
  ping_reply,
}
use spatter.Control.Send.{udp_send}
use spatter.Dht.{insert_file_info_record, query}
use spatter.Messages.Archive.{
  Packet, Message, publish, search, search_result, ping, serialize_message, ReadsBack,
}
use spatter.Messages.File.{FileInfo}
use spatter.Messages.Ping.{PingMessage}
use spatter.Messages.Search.{SearchMessage, SearchResult, is_key_search}
use spatter.Program.Honest.{
  GoodMessage, GoodPacket, IsHonest, GoodSub, GoodSearch, insert_record-GoodTable, lookup-All,
  udp_send-IsHonest, mark_seen-IsHonest,
}
use spatter.Search.Manager.{handle_search, handle_search_result, answer_search}
use spatter.Search.SubSearches.{add_response}
use spatter.State.{State, Platform, Search, SubSearch}
use spatter.Prelude.{
  All, assign, find_id, find_id-All, assign-All, All-snoc, OnOk, OnOk-chain, ℕ, ◌==◌, ◌≡◌, refl,
  Bool, true, false, Option, none, some, if◌then◌else◌, Option-cases, Bool-cases, inl, inr, ok,
}

module _ {Text : Type 0} (p : Platform Text) (P : FileInfo → Type 0) where
  -- It is about the table, what has been sent and the searches only.
  pub IsHonest-same :
      (s u : State Text)
      → u.dht ≡ s.dht
      → u.sent ≡ s.sent
      → u.searches ≡ s.searches
      → IsHonest p P s
      → IsHonest p P u
  IsHonest-same s u d e f v = record {
    table = rw d v.table;
    sent = rw e v.sent;
    found = rw f v.found;
  }

  -- A changed search goes to its place.
  pub assign-IsHonest :
      (k : ℕ) (sr : Search) (s : State Text)
      → GoodSearch P k sr
      → IsHonest p P s
      → IsHonest p P (record s { searches = assign k sr s.searches })
  assign-IsHonest k sr s g v = record {
    table = v.table;
    sent = v.sent;
    found = assign-All (GoodSearch P) k sr s.searches g v.found;
  }

  add_response-GoodSub :
      (i : ℕ) (srm : SearchResult) (ss : SubSearch)
      → All P srm.file_list
      → GoodSub P i ss
      → GoodSub P i (add_response srm ss)
  unfolding add_response
  add_response-GoodSub i srm ss g v = elim (Bool-cases ss.kill_search) [
    | inl killed ↦ rw killed v
    | inr alive ↦
        rw alive (All-snoc (λ (x : SearchResult). All P x.file_list) srm ss.responses v.0 g, v.1)
  ]

  answer_search-GoodMessage :
      (sm : SearchMessage) (s : State Text)
      → IsHonest p P s
      → GoodMessage P (search_result (answer_search sm s))
  unfolding answer_search query
  answer_search-GoodMessage sm s v = elim (Bool-cases (is_key_search sm.type)) [
    | inl by_key ↦ rw by_key (lookup-All P sm.key s.hash_table v.table)
    | inr by_node ↦ rw by_node tt
  ]

  handle_search-IsHonest :
      (sm : SearchMessage) (s : State Text)
      → IsHonest p P s
      → OnOk (IsHonest p P) (handle_search p sm s)
  unfolding handle_search
  handle_search-IsHonest sm s v =
      udp_send-IsHonest p P (serialize_message p.archive (search_result (answer_search sm s)))
        sm.sender_node s (_, refl, answer_search-GoodMessage sm s v) v

  handle_search_result-IsHonest :
      (srm : SearchResult) (s : State Text)
      → All P srm.file_list
      → IsHonest p P s
      → IsHonest p P (handle_search_result srm s)
  unfolding handle_search_result
  handle_search_result-IsHonest srm s g v = elim (Option-cases (find_id srm.search_id s.searches)) [
    | inl unknown ↦ rw (handle_search_result, unknown) v
    | inr (sr, there) ↦
        let subs = find_id-All (GoodSearch P) srm.search_id sr s.searches there v.found in
        rw (handle_search_result, there)
          (elim (Option-cases (find_id srm.sub_search_id sr.sub_searches)) [
            | inl gone ↦ rw gone v
            | inr (ss, here) ↦
                let sub = find_id-All (GoodSub P) srm.sub_search_id ss sr.sub_searches here subs in
                rw here (
                  assign-IsHonest srm.search_id _ s
                    (assign-All (GoodSub P) srm.sub_search_id (add_response srm ss) sr.sub_searches
                      (add_response-GoodSub srm.sub_search_id srm ss g sub) subs)
                    v)
          ])
  ]

  pub insert_file_info_record-IsHonest :
      (r : FileInfo) (s : State Text)
      → P r
      → IsHonest p P s
      → IsHonest p P (record s { dht = insert_file_info_record s.dht r })
  unfolding insert_file_info_record
  insert_file_info_record-IsHonest r s good v = record {
    table = insert_record-GoodTable P r s.hash_table good v.table;
    sent = v.sent;
    found = v.found;
  }

  handle_ping_request-IsHonest :
      (now : ℕ) (m : PingMessage) (s : State Text)
      → IsHonest p P s
      → OnOk (IsHonest p P) (handle_ping_request p now m s)
  unfolding handle_ping_request
  handle_ping_request-IsHonest now m s v =
      let reply = ping_reply m s in
      OnOk-chain (IsHonest p P) (IsHonest p P)
        (udp_send p (serialize_message p.archive (ping reply)) reply.receiver_node s) _
        (udp_send-IsHonest p P _ reply.receiver_node s (ping reply, refl, tt) v)
        (mark_seen-IsHonest p P now reply.sender_node)

  handle_ping-IsHonest :
      (now : ℕ) (m : PingMessage) (s : State Text)
      → IsHonest p P s
      → OnOk (IsHonest p P) (handle_ping p now m s)
  unfolding handle_ping handle_ping_reply
  handle_ping-IsHonest now m s v = elim (Bool-cases (m.is_reply == 0)) [
    | inl request ↦ rw request (handle_ping_request-IsHonest now m s v)
    | inr reply ↦ rw reply (elim (Option-cases s.control) [
      | inl closed ↦ rw closed tt
      | inr (c, is_open) ↦ rw is_open (
          mark_seen-IsHonest p P now m.sender_node _
            (record { table = v.table; sent = v.sent; found = v.found }))
    ])
  ]

  handled-IsHonest :
      (reads : ReadsBack p.archive) (now : ℕ) (m : Message) (s : State Text)
      → GoodMessage P m
      → IsHonest p P s
      → OnOk (IsHonest p P) (handle_message p now (serialize_message p.archive m) s)
  handled-IsHonest reads now (publish m) s g v = rw (publish_handled p now m s reads) (
      mark_seen-IsHonest p P now m.file_info.node _
        (insert_file_info_record-IsHonest m.file_info s g v))
  handled-IsHonest reads now (search m) s g v = rw (search_handled p now m s reads) (
      OnOk-chain (IsHonest p P) (IsHonest p P) (handle_search p m s) _
        (handle_search-IsHonest m s v) (mark_seen-IsHonest p P now m.sender_node))
  handled-IsHonest reads now (search_result m) s g v =
      rw (result_handled p now m s reads)
        (mark_seen-IsHonest p P now m.sender_node _ (handle_search_result-IsHonest m s g v))
  handled-IsHonest reads now (ping m) s g v =
      rw (ping_handled p now m s reads) (handle_ping-IsHonest now m s v)

  -- What arrives is good, if anything does.
  abbrev pub GoodArrival : Option (Packet Text) → Type 0
  GoodArrival none = Unit
  GoodArrival (some m) = GoodPacket p P m

  received-IsHonest :
      (reads : ReadsBack p.archive) (now : ℕ) (error : Bool) (received : Option (Packet Text))
      (s : State Text)
      → GoodArrival received
      → IsHonest p P s
      → OnOk (IsHonest p P) (
          if error then ok s else elim received [ none ↦ ok s | some m ↦ handle_message p now m s ])
  received-IsHonest reads now true received s g v = v
  received-IsHonest reads now false none s g v = v
  received-IsHonest reads now false (some m) s (msg, wrote, good) v =
      rw wrote (handled-IsHonest reads now msg s good v)

  pub handle_receive_from-IsHonest :
      (reads : ReadsBack p.archive) (now : ℕ) (error : Bool) (received : Option (Packet Text))
      (s : State Text)
      → GoodArrival received
      → IsHonest p P s
      → OnOk (IsHonest p P) (handle_receive_from p now error received s)
  unfolding handle_receive_from
  handle_receive_from-IsHonest reads now error received s g v = elim (Option-cases s.control) [
    | inl closed ↦ rw closed tt
    | inr (c, is_open) ↦ rw is_open (
        received-IsHonest reads now error received _ g
          (record { table = v.table; sent = v.sent; found = v.found }))
  ]
