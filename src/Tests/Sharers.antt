-- ===== src/Tests/Sharers.antt =====
-- An example of a network: Bob shares his file, and Alice hears of it.
use spatter.Console.{Surroundings}
use spatter.Console.Share.{
  share_round, share_found, publish_to, touch_results, hops_done, queues_empty, sort_ranked,
}
use spatter.Control.Handle.{handle_receive_from}
use spatter.Control.Send.{udp_send}
use spatter.Dht.{insert_file_info_record}
use spatter.Messages.Archive.{Message, serialize_message}
use spatter.Messages.Node.{node_eq}
use spatter.Messages.Str.{str_eq}
use spatter.Program.{World, receive, publish}
use spatter.Program.Network.{Network, set_node, AllHonest, Runs, begin, turn, Runs-AllHonest}
use spatter.Search.Manager.{find_search}
use spatter.Search.SubSearches.{send_queries}
use spatter.State.{State, Search, SubSearch}
use spatter.Tests.{alice, bob, shared_file, platform, plain_archive-ReadsBack, started, no_buckets}
use spatter.Tests.Dispatch.{fresh, published, after_publish, publish_handled}
use spatter.Tests.Searching.{round, search}
use spatter.Tests.Sharing.{around}
use spatter.Prelude.{
  ℕ, ◌≡◌, refl, true, false, [], ◌∷◌, some, find_id, assign, ok, ◌==◌, if◌then◌else◌, Bool-cases,
  inl, inr,
}

-- Bob's search for the key of his file has come to Alice, and is over.
abbrev over : SubSearch
over = record round { pq = (1, alice) ∷ []; hops = 9 }

abbrev ended : Search
ended = record search { sub_searches = (4, over) ∷ [] }

abbrev sharer : State Message
sharer = record (started bob no_buckets) { searches = (1, ended) ∷ [] }

abbrev has_shared : State Message
has_shared = record sharer {
  dht = insert_file_info_record sharer.dht shared_file;
  sent = (published, alice) ∷ [];
  searches = (1, record ended { sub_searches = (4, touch_results over) ∷ [] }) ∷ [];
}

abbrev two_nodes : Network Message
two_nodes i = record { node = if i == 0 then fresh else sharer; loose = [] }

abbrev everywhere : ℕ → Surroundings Message
everywhere i = around

abbrev shared : World Message
shared = record { node = has_shared; loose = [] }

abbrev heard : World Message
heard = record { node = after_publish; loose = [] }

shares : share_round platform 1 shared_file (λ x. x) sharer ≡ ok (true, has_shared)
unfolding serialize_message share_round share_found publish_to touch_results hops_done queues_empty
    sort_ranked send_queries udp_send find_search find_id assign insert_file_info_record node_eq
    str_eq
shares = refl

hears : handle_receive_from platform 0 false (some published) fresh ≡ ok after_publish
unfolding handle_receive_from
hears = publish_handled

in_turns :
    Runs
      (λ r. r ≡ shared_file)
      everywhere
      two_nodes
      (set_node 0 heard (set_node 1 shared two_nodes))
in_turns =
    turn (turn begin 1 shared (publish 1 shared_file true shares refl) refl) 0 heard
      (receive 0 false (some published) hears refl) (1, alice, [], [], refl)

two_nodes-AllHonest : AllHonest (λ r. r ≡ shared_file) everywhere two_nodes
two_nodes-AllHonest i = elim (Bool-cases (i == 0)) [
  | inl first ↦
      rw first (record { node = record { table = tt; sent = tt; found = tt }; loose = tt })
  | inr other ↦
      rw other (record {
        node = record { table = tt; sent = tt; found = (((tt, tt), tt), tt) };
        loose = tt;
      })
]

Runs-AllHonest_example :
    AllHonest (λ r. r ≡ shared_file) everywhere (set_node 0 heard (set_node 1 shared two_nodes))
Runs-AllHonest_example =
    Runs-AllHonest (λ r. r ≡ shared_file) everywhere (λ i j. refl) (λ i. plain_archive-ReadsBack)
      two_nodes (set_node 0 heard (set_node 1 shared two_nodes)) two_nodes-AllHonest in_turns
