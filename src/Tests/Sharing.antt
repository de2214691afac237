-- ===== src/Tests/Sharing.antt =====
-- Examples for the console's commands.
use spatter.Boost.{codes}
use spatter.Console.{Surroundings, console, run_command, run_tokens, search_kill}
use spatter.Console.Invariant.{console-IsNode}
use spatter.Console.Publish.{targets, nearest, share_found_publishes, share_found_waits}
use spatter.Console.Share.{Moment, share_found, queues_empty}
use spatter.Control.Invariant.{IsNode}
use spatter.Dht.{query}
use spatter.Messages.Archive.{Message, serialize_message}
use spatter.Messages.File.{file_eq}
use spatter.Messages.Node.{node_eq}
use spatter.Messages.Str.{str_eq}
use spatter.Search.Asking.{addressed}
use spatter.Console.Kill.{search_kill_forgets}
use spatter.Search.Manager.{remove_search, find_search, handle_search_result}
use spatter.State.{State, Search, SubSearch}
use spatter.Tests.{id_of, bob, carol, shared_file, platform, open_socket}
use spatter.Tests.Searching.{answer, home, round, search, searching}
use spatter.Tests.Strings.{string_boost, tokens_from, number_from}
use spatter.Prelude.{none, ◌≡◌, refl, true, false, [], ◌∷◌, any, erase_id, ok, arith}

-- A sub-search that has found Carol and Bob, with Bob still to be asked, and with nobody to ask.
abbrev found : SubSearch
found = record round { pq = (2, carol) ∷ (1, bob) ∷ []; hops = 9 }

abbrev idle : Search
idle = record search { sub_searches = (4, found) ∷ [] }

abbrev busy : Search
busy = record search { sub_searches = (4, record found { next_nodes_queue = (1, bob) ∷ [] }) ∷ [] }

share_found_waits_example :
    (s' : State Message) × (share_found platform 1 shared_file busy home ≡ ok (false, s'))
    × (s'.sent ≡ [])
    × (s'.dht ≡ home.dht)
unfolding queues_empty
share_found_waits_example = share_found_waits platform 1 shared_file busy home refl

share_found_publishes_example :
    (s' : State Message) × (share_found platform 1 shared_file idle home ≡ ok (true, s'))
    × (s'.sent
        ≡ (
          serialize_message platform.archive (Message.publish (record { file_info = shared_file })),
          bob,
        )
          ∷ [])
    × (any (λ x. file_eq x shared_file) (query s'.dht (id_of 7)) ≡ true)
unfolding queues_empty targets nearest addressed node_eq str_eq
share_found_publishes_example =
    share_found_publishes platform 1 shared_file idle home open_socket refl refl (refl, tt)

-- A command to end a search, and one to quit.
abbrev pub around : Surroundings Message
around = record { boost = string_boost; platform = platform; tiger = λ t. id_of 0; sort = λ l. l }

abbrev pub quiet : Moment Message
quiet = record {
  now = λ i. 0;
  owner_publish_ts = λ i. 0;
  valid_till = λ i. 0;
  others = λ i. [];
  meanwhile = λ s. s;
}

kill_and_quit :
    console around ((codes "search_kill 1", quiet) ∷ (codes "quit", quiet) ∷ []) searching
    ≡ ok (true, home)
unfolding console run_command run_tokens search_kill remove_search erase_id tokens_from number_from
    str_eq
kill_and_quit = refl

console-IsNode_example : IsNode home
console-IsNode_example =
    console-IsNode around ((codes "search_kill 1", quiet) ∷ (codes "quit", quiet) ∷ []) searching
      home true
      (
        record { others = λ i. tt; meanwhile = λ s v. v },
        (record { others = λ i. tt; meanwhile = λ s v. v }, tt),
      )
      (record {
        buckets = λ i. record { short = omega arith; distinct = tt };
        placed = λ i. tt;
        table = tt;
        receiving = refl;
      })
      kill_and_quit

search_kill_forgets_example :
    (s' : State Message) × (search_kill around (codes "1" ∷ []) searching ≡ ok s')
    × (find_search 1 s' ≡ none)
    × (find_search 2 s' ≡ find_search 2 searching)
    × (handle_search_result answer s' ≡ s')
unfolding number_from
search_kill_forgets_example =
    search_kill_forgets around (codes "1") [] 1 2 answer searching refl
      (λ e. absurd (omega (arith, e))) refl
