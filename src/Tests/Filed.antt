-- ===== src/Tests/Filed.antt =====
-- An example for the ids of searches: the last ids are taken, and the counter wraps round.
use spatter.Control.Send.{udp_send}
use spatter.Program.{World, removed, Reach, here, next, round}
use spatter.Program.Ids.Reaching.{IsFiledWorld, Reach-IsFiled}
use spatter.Search.Manager.{find_search}
use spatter.Search.SubSearches.{advance, ask_next_nodes, send_queries, unique, drop_equal}
use spatter.State.{State, Search, SubSearch}
use spatter.Messages.Archive.{Message, serialize_message}
use spatter.Messages.Node.{node_eq}
use spatter.Messages.Str.{str_eq}
use spatter.Tests.{alice, bob, started, no_buckets}
use spatter.Tests.Sharing.{around}
use spatter.Tests.Searching.{round as at_start, search}
use spatter.Prelude.{◌≡◌, refl, [], ◌∷◌, find_id, assign, erase_id, ok, arith}

-- A sub-search that has Bob to ask.
abbrev asks_bob : SubSearch
asks_bob = record at_start { next_nodes_queue = (1, bob) ∷ [] }

abbrev looks : Search
looks = record search { sub_searches = (4, asks_bob) ∷ [] }

abbrev before_wrap : State Message
before_wrap = record (started alice no_buckets) {
  searches = (1, looks) ∷ [];
  next_sub_search_id = 4294967295;
}

abbrev moved_on : SubSearch
moved_on = record asks_bob { search_id = 4294967295; hops = 1 }

abbrev moved : Search
moved = record looks { sub_searches = (4294967295, moved_on) ∷ [] }

abbrev wrapped : State Message
wrapped = record before_wrap { next_sub_search_id = 0 }

abbrev has_asked : SubSearch
has_asked = record moved_on { next_nodes_queue = []; pq = (1, bob) ∷ [] }

abbrev after_sends : State Message
after_sends = record wrapped {
  sent =
      (
        serialize_message around.platform.archive (
            Message.search (record {
              key = moved_on.key;
              sender_node = alice;
              search_id = 1;
              sub_search_id = 4294967295;
              type = looks.type;
            })),
        bob,
      )
      ∷ [];
}

moves :
    advance 4 looks (record before_wrap { searches = [] })
    ≡ ok (moved, 4294967295, record wrapped { searches = [] })
unfolding advance find_id assign erase_id
moves = refl

bob_asked :
    ask_next_nodes around.platform moved moved_on (record wrapped { searches = [] })
    ≡ ok (has_asked, record after_sends { searches = [] })
unfolding ask_next_nodes send_queries udp_send unique drop_equal node_eq str_eq
bob_asked = refl

-- Its search has been killed.
abbrev before : World Message
before = record { node = record before_wrap { searches = [] }; loose = (0, looks) ∷ [] }

abbrev after : World Message
after = record {
  node = record after_sends { searches = [] };
  loose = (0, record moved { sub_searches = (4294967295, has_asked) ∷ [] }) ∷ [];
}

first_round : Reach around before after
unfolding find_search find_id assign
first_round = next here (
    round (removed 0) 4 4294967295 looks moved moved_on has_asked (record wrapped { searches = [] })
      (record after_sends { searches = [] }) refl moves refl bob_asked refl)

before-IsFiledWorld : IsFiledWorld around before
before-IsFiledWorld = record {
  node = record { searches = tt; next_master = omega arith; next_sub = omega arith };
  loose = ((omega arith, ((refl, omega arith), tt)), tt);
}

Reach-IsFiled_example : IsFiledWorld around after
Reach-IsFiled_example = Reach-IsFiled around before after before-IsFiledWorld first_round

-- The kill, and what is asked after it.
abbrev living : World Message
living = record { node = before_wrap; loose = [] }
