-- ===== src/Tests/Exchange.antt =====
-- An example of a search that two nodes carry out together.
use mathlib.Core.List.{Mem, mem-cons_self, not-mem-nil}
use spatter.Control.Handle.{handle_message}
use spatter.Dht.{query}
use spatter.Dht.Table.{lookup}
use spatter.Messages.Archive.{Message, Packet}
use spatter.Messages.Hash.{hash_eq_refl}
use spatter.Messages.Node.{NodeRecord, node_eq}
use spatter.Messages.Str.{str_eq}
use spatter.Messages.Search.{key_search}
use spatter.NodeQueue.{bucket_count}
use spatter.NodeQueue.Better.{get_better_nodes_sound}
use spatter.NodeQueue.Buckets.{DistinctNodes}
use spatter.Util.Distance.{bit_distance, hamming, bit_distance-hamming}
use spatter.Util.Bits.{differing}
use spatter.Program.{put}
use spatter.Program.Exchange.{search_finds}
use spatter.Search.Manager.{find_search}
use spatter.Search.SubSearches.{ask_next_nodes, take_responses}
use spatter.Search.Suggestions.{take_batch}
use spatter.State.{State, Search, SubSearch, running}
use spatter.Tests.{
  id_of, id-IsHash, alice, bob, shared_file, platform, plain_archive-ReadsBack, open_socket,
  started, no_buckets, alice_to_bob,
}
use spatter.Prelude.{
  ℕ, ◌<◌, ◌⊎◌, All, ◌≡◌, refl, true, false, List, [], ◌∷◌, ◌++◌, some, find_id, ok, arith,
}

-- Alice looks for the key 7, and has to ask Bob, who has a file under it.
abbrev asking : SubSearch
asking = record {
  query_token = 97 ∷ [];
  key = id_of 7;
  search_id = 4;
  status = running;
  hops = 1;
  next_nodes_queue = (2, bob) ∷ [];
  pq = [];
  next_nodes_queue_max_size = 5;
  results = (id_of 7, []) ∷ [];
  next_deadline = 5;
  responses = [];
  response_queue_empty = true;
  kill_search = false;
}

abbrev wanted : Search
wanted = record {
  full_query = 97 ∷ [];
  type = key_search;
  master_search_id = 1;
  sub_searches = (4, asking) ∷ [];
}

abbrev seeker : State Message
seeker = record (started alice no_buckets) { searches = (1, wanted) ∷ [] }

abbrev keeper : State Message
keeper = record (started bob no_buckets) {
  dht = record { this_node = bob; hash_table = (id_of 7, shared_file ∷ []) ∷ [] };
}

bob_to_alice : bit_distance (id_of 1) (id_of 0) ≡ 1
unfolding hamming differing
bob_to_alice =
    bit_distance-hamming (id_of 1) (id_of 0) (id-IsHash 1 (omega arith)) (id-IsHash 0 (omega arith))

-- Bob knows nobody.
none_distinct :
    (l : List NodeRecord)
    → All
        (λ n.
          ((i : ℕ) × (i < bucket_count) × Mem n (no_buckets i))
          × ((bit_distance n.node_id (id_of 7) < bit_distance (id_of 1) (id_of 7))
              ⊎ (false ≡ true)))
        l
    → DistinctNodes l
none_distinct [] a = tt
none_distinct (n ∷ l) a = absurd (not-mem-nil a.0.0.2)

search_finds_example :
    (asked : SubSearch) × (a1 : State Message) × (ask_next_nodes platform wanted asking seeker
      ≡ ok (asked, a1))
    × (m : Packet Message) × Mem (m, bob) a1.sent
    × (b1 : State Message) × (handle_message platform 0 m keeper ≡ ok b1)
    × (r : Packet Message) × Mem (r, alice) b1.sent
    × (a2 : State Message) × (handle_message platform 0 r (put 4 asked wanted a1) ≡ ok a2)
    × (sr' : Search) × (find_search 1 a2 ≡ some sr')
    × (ss' : SubSearch) × (find_id 4 sr'.sub_searches ≡ some ss')
    × (after : SubSearch) × (take_batch sr'.type (take_responses 0 ss').0 (take_responses 0 ss').1
        ≡ ok after)
    × (lookup (id_of 7) after.results
        ≡ lookup (id_of 7) ((id_of 7, []) ∷ []) ++ query keeper.dht (id_of 7))
unfolding node_eq str_eq
search_finds_example =
    search_finds platform 0 plain_archive-ReadsBack (λ n. refl) wanted asking seeker keeper
      open_socket open_socket 2 refl refl refl (omega arith) (omega arith)
      (rw alice_to_bob (omega arith)) (rw bob_to_alice (omega arith)) refl refl refl (omega arith)
      mem-cons_self ((hash_eq_refl (id_of 7), tt), (refl, tt), tt)
      (none_distinct _ (get_better_nodes_sound keeper (id_of 7) false).2)
