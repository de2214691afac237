-- ===== src/Program/Exchange.antt =====
-- A search that two nodes carry out together: the question of the one, the answer of the other, and
-- what the one makes of it. dht/protocol/control_protocol.cpp and dht/protocol/search_manager.cpp.
use mathlib.Core.List.{Mem, mem-cons_self, mem-append_right}
use spatter.Control.Delivered.{search_handled, result_handled}
use spatter.Control.Handle.{handle_message}
use spatter.Control.Success.{marked_node, handle_message_succeeds}
use spatter.Dht.{query}
use spatter.Dht.Records.{IsTable}
use spatter.Dht.Table.{lookup}
use spatter.Messages.Archive.{Packet, Message, serialize_message, ReadsBack}
use spatter.Messages.Node.{NodeRecord, node_eq, node_eq_symm}
use spatter.Messages.Search.{SearchMessage, SearchResult, is_key_search}
use spatter.NodeQueue.{get_better_nodes, bucket_count}
use spatter.NodeQueue.Buckets.{DistinctNodes}
use spatter.NodeQueue.Seen.{mark_seen-Marked}
use spatter.NodeQueue.Sending.{mark_seen_sent}
use spatter.Program.{put}
use spatter.Search.Answers.{answer_search-DistinctNodes, handle_search_sends}
use spatter.Search.Asking.{addressed, mem-addressed, resolves_each, ask_next_nodes_asks, with_sent}
use spatter.Search.Manager.{answer_search, find_search}
use spatter.Search.Gathered.{answer_worked, lookup-Keyed}
use spatter.Search.Rounds.{result_delivered}
use spatter.Search.SubSearches.{ask_next_nodes, take_responses, unique}
use spatter.Search.Suggestions.{take_batch, ranked_eq}
use spatter.State.{State, Platform, Search, SubSearch, ControlProtocol}
use spatter.Util.Distance.{bit_distance}
use spatter.Prelude.{
  ℕ, ◌<◌, ◌≡◌, ◌≢◌, refl, sym, ◌∙◌, false, true, [], ◌∷◌, ◌++◌, some, find_id, assign,
  find_id-assign_self, ap, ok,
}

-- The message of a round.
abbrev question_of : {Text : Type 0} → Search → SubSearch → State Text → SearchMessage
question_of sr ss s = record {
  key = ss.key;
  sender_node = s.this_node;
  search_id = sr.master_search_id;
  sub_search_id = ss.search_id;
  type = sr.type;
}

module _ {Text : Type 0} (p : Platform Text) (now : ℕ) (reads : ReadsBack p.archive)
    (found : (x : NodeRecord) → p.resolves x ≡ true) where
  -- The other node answers.
  question_answered :
      (sm : SearchMessage) (b : State Text) (c : ControlProtocol)
      → b.control ≡ some c
      → node_eq sm.sender_node b.this_node ≡ false
      → sm.sender_node.port ≢ 0
      → bit_distance b.this_node.node_id sm.sender_node.node_id < bucket_count
      → (b' : State Text) × (handle_message p now
            (serialize_message p.archive (Message.search sm))
            b
          ≡ ok b')
        × Mem
            (
              serialize_message p.archive (Message.search_result (answer_search sm b)),
              sm.sender_node,
            )
            b'.sent
  unfolding marked_node
  question_answered sm b c ctl other port range =
      let (b', done) =
        handle_message_succeeds p now found (Message.search sm) b c reads ctl port range in
      let marked = sym (search_handled p now sm b reads) ∙ done in
      (
        b',
        done,
        mark_seen_sent p now sm.sender_node _ b' _
            (rw (handle_search_sends p sm b c ctl other (found sm.sender_node)) at marked)
            (mem-append_right b.sent mem-cons_self),
      )

  -- The answer reaches the sub-search.
  answer_delivered :
      (srm : SearchResult) (sr : Search) (ss : SubSearch) (a : State Text) (c : ControlProtocol)
      → a.control ≡ some c
      → srm.sender_node.port ≢ 0
      → bit_distance a.this_node.node_id srm.sender_node.node_id < bucket_count
      → find_id srm.search_id a.searches ≡ some sr
      → find_id srm.sub_search_id sr.sub_searches ≡ some ss
      → ss.kill_search ≡ false
      → (a' : State Text) × (handle_message p now
            (serialize_message p.archive (Message.search_result srm))
            a
          ≡ ok a')
        × (sr' : Search) × (find_id srm.search_id a'.searches ≡ some sr')
        × (sr'.type ≡ sr.type)
        × (find_id srm.sub_search_id sr'.sub_searches
            ≡ some
                (record ss { responses = ss.responses ++ srm ∷ []; response_queue_empty = false }))
  unfolding marked_node
  answer_delivered srm sr ss a c ctl port range registered there alive =
      let (a', done) =
        handle_message_succeeds p now found (Message.search_result srm) a c reads ctl port range in
      let marked =
        mark_seen-Marked p now srm.sender_node _ a'
          (sym (result_handled p now srm a reads) ∙ done) in
      let (sr', kept, same, joined) = result_delivered sr ss a srm registered there alive in
      (a', done, sr', rw marked.searches kept, same, joined)

  -- A round of a search for a key finds what a node of its queue has stored under the key. The round
  -- sends a packet to the node; the node handles it with success and sends a packet back; that is
  -- handled with success, and the sub-search's thread, with no other answer that waits, works through
  -- it with success. Under the key, the sub-search's results are then those that it had and behind them
  -- the node's records. This is for open sockets, two nodes with different addresses that resolve, with
  -- ports, at a distance below 192 of one another, an archive that reads back what it writes, a
  -- well-formed table, and nodes near the key that the other node does not know under one address and
  -- port twice.
  pub search_finds :
      (sr : Search) (ss : SubSearch) (a b : State Text) (ca cb : ControlProtocol) (d : ℕ)
      → a.control ≡ some ca
      → b.control ≡ some cb
      → node_eq b.this_node a.this_node ≡ false
      → a.this_node.port ≢ 0
      → b.this_node.port ≢ 0
      → bit_distance a.this_node.node_id b.this_node.node_id < bucket_count
      → bit_distance b.this_node.node_id a.this_node.node_id < bucket_count
      → is_key_search sr.type ≡ true
      → ss.kill_search ≡ false
      → ss.responses ≡ []
      → 0 < ss.next_nodes_queue_max_size
      → Mem (d, b.this_node) ss.next_nodes_queue
      → IsTable b.hash_table
      → DistinctNodes (get_better_nodes b ss.key false)
      → (asked : SubSearch) × (a1 : State Text) × (ask_next_nodes p sr ss a ≡ ok (asked, a1))
        × (m : Packet Text) × Mem (m, b.this_node) a1.sent
        × (b1 : State Text) × (handle_message p now m b ≡ ok b1)
        × (r : Packet Text) × Mem (r, a.this_node) b1.sent
        × (a2 : State Text) × (handle_message p now r (put ss.search_id asked sr a1) ≡ ok a2)
        × (sr' : Search) × (find_search sr.master_search_id a2 ≡ some sr')
        × (ss' : SubSearch) × (find_id ss.search_id sr'.sub_searches ≡ some ss')
        × (after : SubSearch) × (take_batch sr'.type
              (take_responses now ss').0
              (take_responses now ss').1
            ≡ ok after)
        × (lookup ss.key after.results ≡ lookup ss.key ss.results ++ query b.dht ss.key)
  unfolding find_search query answer_search
  search_finds sr ss a b ca cb d ctl_a ctl_b other port_a port_b near_b near_a k alive waits pos
        there table distinct =
      let sm = question_of sr ss a in
      let asks =
        ask_next_nodes_asks p sr ss a ca ctl_a (resolves_each p ss.next_nodes_queue found) in
      let asked : SubSearch = record ss {
        next_nodes_queue = [];
        pq = unique ranked_eq (ss.pq ++ ss.next_nodes_queue);
      } in
      let msg = serialize_message p.archive (Message.search sm) in
      let a1 = with_sent p a (addressed a.this_node msg ss.next_nodes_queue) in
      let sr1 : Search = record sr { sub_searches = assign ss.search_id asked sr.sub_searches } in
      let (b1, answered, back) =
        question_answered sm b cb ctl_b (node_eq_symm a.this_node b.this_node ∙ other) port_a
          near_a in
      let srm = answer_search sm b in
      let files : srm.file_list ≡ lookup ss.key b.hash_table = rw k refl in
      let (a2, delivered, sr', kept, same, joined) =
        answer_delivered srm sr1 asked (put ss.search_id asked sr a1) ca ctl_a port_b near_b
          (find_id-assign_self sr.master_search_id sr1 a.searches)
          (find_id-assign_self ss.search_id asked sr.sub_searches) alive in
      let ss' : SubSearch = record asked {
        responses = ss.responses ++ srm ∷ [];
        response_queue_empty = false;
      } in
      let (after, worked, results) =
        answer_worked now sr'.type srm ss' (rw same k) (rw waits refl) refl pos
          (answer_search-DistinctNodes sm b distinct)
          (rw files (lookup-Keyed ss.key b.hash_table table)) in
      (
        asked,
        a1,
        asks,
        msg,
        mem-append_right a.sent
            (mem-addressed a.this_node b.this_node msg d ss.next_nodes_queue other there),
        b1,
        answered,
        _,
        back,
        a2,
        delivered,
        sr',
        kept,
        ss',
        joined,
        after,
        worked,
        results ∙ ap (λ l. lookup ss.key ss.results ++ l) files,
      )
