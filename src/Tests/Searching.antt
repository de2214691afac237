-- ===== src/Tests/Searching.antt =====
-- Examples for searches.
use spatter.Messages.Str.{str_eq}
use spatter.Messages.Node.{node_eq}
use spatter.Messages.Search.{SearchMessage, SearchResult, key_search}
use spatter.Messages.Archive.{Message, serialize_message}
use spatter.Util.Distance.{bit_distance}
use spatter.NodeQueue.Ranking.{alpha}
use spatter.Dht.{query}
use spatter.Search.Suggestions.{ranked_eq}
use spatter.Search.SubSearches.{advance, max_hops, give_up_search, ask_next_nodes, unique}
use spatter.Search.Asking.{addressed, ask_next_nodes_asks}
use spatter.Search.Run.Rounds.{rounds, rounds_at_most, killed_runs_out}
use spatter.Search.Manager.{handle_search, start_hash_search, start_query_search}
use spatter.Search.Answers.{handle_search_answers}
use spatter.Search.Start.{start_search_bad}
use spatter.Search.Run.{
  Run, round as start_round, outer, inner, finished, stop, kill, Reach, here, next,
}
use spatter.Search.Run.Bounds.{IsBounded, Reach-IsBounded}
use spatter.State.{State, Search, SubSearch, running, terminated}
use spatter.Tests.{
  id_of, alice, bob, carol, shared_file, platform, open_socket, started, no_buckets,
}
use spatter.Prelude.{
  Option, ◌+◌, ◌≤◌, ◌<◌, ◌≡◌, refl, ap, subst, true, false, [], ◌∷◌, ◌++◌, none, some, length, All,
  find_id, assign, erase_id, ok, fault, bad_iterator, arith,
}

abbrev question : SearchMessage
question = record {
  key = id_of 7;
  sender_node = bob;
  search_id = 2;
  sub_search_id = 6;
  type = key_search;
}

abbrev pub home : State Message
home = started alice no_buckets

handle_search_answers_example :
    (srm : SearchResult) × (handle_search platform question home
      ≡ ok (record home {
        sent = [] ++ (serialize_message platform.archive (Message.search_result srm), bob) ∷ [];
      }))
    × (srm.search_id ≡ 2)
    × (srm.sub_search_id ≡ 6)
    × (srm.file_list ≡ query home.dht (id_of 7))
    × (length srm.node_list < alpha)
    × All
        (λ n.
          (node_eq n alice ≡ false)
          × (node_eq n bob ≡ false)
          × (bit_distance n.node_id (id_of 7) < bit_distance (id_of 0) (id_of 7)))
        srm.node_list
unfolding node_eq str_eq
handle_search_answers_example =
    handle_search_answers platform question home open_socket refl refl refl

abbrev pub round : SubSearch
round = record {
  query_token = 97 ∷ [];
  key = id_of 7;
  search_id = 4;
  status = running;
  hops = 0;
  next_nodes_queue = [];
  pq = [];
  next_nodes_queue_max_size = 5;
  results = [];
  next_deadline = 5;
  responses = [];
  response_queue_empty = true;
  kill_search = false;
}

abbrev pub search : Search
search = record {
  full_query = 97 ∷ [];
  type = key_search;
  master_search_id = 1;
  sub_searches = (4, round) ∷ [];
}

abbrev pub searching : State Message
searching = record home { searches = (1, search) ∷ [] }

abbrev moved : Search
moved = record search { sub_searches = (8, record round { search_id = 8; hops = 1 }) ∷ [] }

abbrev searching_on : State Message
searching_on = record home { searches = (1, moved) ∷ []; next_sub_search_id = 9 }

abbrev pub answer : SearchResult
answer = record {
  sender_node = bob;
  file_list = shared_file ∷ [];
  node_list = carol ∷ [];
  search_id = 1;
  sub_search_id = 4;
}

start_search_bad_example :
    (start_hash_search (λ t. id_of 7) (λ l. l) 0 (id_of 7) key_search home ≡ fault bad_iterator)
    × (start_query_search (λ t. id_of 7) (λ l. l) (λ t. t ∷ []) (λ t. t) 0 (97 ∷ []) home
        ≡ fault bad_iterator)
start_search_bad_example =
    start_search_bad (λ t. id_of 7) (λ l. l) (λ l. refl) (λ t. t ∷ []) (λ t. t) 0 (id_of 7)
      key_search (97 ∷ []) (97 ∷ []) [] 97 [] home refl refl

-- The thread of `round` at its start, and after a kill and its last test.
abbrev started_run : Run Message
started_run = record { phase = outer; id = 4; search = search; state = home; now = 0 }

abbrev pub killed : SubSearch
killed = record round { kill_search = true }

abbrev killed_run : Run Message
killed_run = record started_run { search = record search { sub_searches = (4, killed) ∷ [] } }

abbrev pub ended : SubSearch
ended = record killed { status = terminated }

abbrev ended_run : Run Message
ended_run = record started_run {
  phase = finished;
  search = record search { sub_searches = (4, ended) ∷ [] };
}

kill_and_stop : Reach platform started_run ended_run
unfolding find_id assign give_up_search
kill_and_stop = next (next here (kill round refl refl)) (stop killed refl refl refl refl)

Reach-IsBounded_example : (0 ≤ max_hops + 1) × (finished ≡ inner → IsBounded ended)
unfolding find_id
Reach-IsBounded_example =
    Reach-IsBounded platform started_run ended_run ended refl
      (λ x e.
        subst (λ (y : SubSearch). (y.hops ≤ max_hops + 1) × (0 < y.next_nodes_queue_max_size))
          (ap (λ (o : Option SubSearch). or_round o) e) (omega arith, omega arith))
      kill_and_stop refl
  where
    or_round : Option SubSearch → SubSearch
    or_round none = round
    or_round (some x) = x

abbrev asking : SubSearch
asking = record round { next_nodes_queue = (1, bob) ∷ (2, alice) ∷ [] }

ask_next_nodes_asks_example :
    ask_next_nodes platform search asking home
    ≡ ok (
      record round { pq = unique ranked_eq ((1, bob) ∷ (2, alice) ∷ []) },
      record home {
        sent =
            (
              serialize_message platform.archive (
                  Message.search (record {
                    key = id_of 7;
                    sender_node = alice;
                    search_id = 1;
                    sub_search_id = 4;
                    type = key_search;
                  })),
              bob,
            )
            ∷ [];
      },
    )
unfolding addressed node_eq str_eq
ask_next_nodes_asks_example =
    ask_next_nodes_asks platform search asking home open_socket refl (refl, (refl, tt))

-- The thread of `round` goes round once.
abbrev gone_on : SubSearch
gone_on = record round { search_id = 8; hops = 1 }

abbrev next_run : Run Message
next_run = record started_run {
  phase = inner;
  id = 8;
  search = moved;
  state = record home { next_sub_search_id = 9 };
}

one_round : Reach platform started_run next_run
unfolding find_id assign erase_id advance give_up_search ask_next_nodes unique
one_round = next here (
    start_round round gone_on gone_on moved 8 (record home { next_sub_search_id = 9 })
      (record home { next_sub_search_id = 9 }) refl refl refl refl refl refl refl)

rounds_at_most_example : rounds platform one_round ≤ 8
rounds_at_most_example = rounds_at_most platform started_run next_run one_round

after_kill : Reach platform killed_run ended_run
unfolding find_id assign give_up_search
after_kill = next here (stop killed refl refl refl refl)

killed_runs_out_example : (rounds platform after_kill ≡ 0) × (ended.kill_search ≡ true)
unfolding find_id
killed_runs_out_example =
    killed_runs_out platform killed_run ended_run killed ended after_kill refl refl refl
