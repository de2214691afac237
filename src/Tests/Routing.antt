-- ===== src/Tests/Routing.antt =====
-- Examples for the buckets.
use mathlib.Core.List.{Mem, mem-cons_self}
use spatter.Messages.Node.{NodeRecord, node_eq}
use spatter.Messages.Str.{str_eq}
use spatter.Messages.Archive.{Message}
use spatter.Util.Distance.{bit_distance}
use spatter.Util.Metric.{bit_distance_metric}
use spatter.Control.Frame.{pinged}
use spatter.NodeQueue.{
  get_better_nodes, bucket_count, bucket_size, mark_seen, set_bucket, ping_all, erase_node,
}
use spatter.NodeQueue.Ranking.{alpha}
use spatter.NodeQueue.Better.{IsNearestFirst, get_better_nodes_sound, get_better_nodes_nearest}
use spatter.NodeQueue.Buckets.{touched}
use spatter.NodeQueue.Seen.{mark_seen_evicts}
use spatter.NodeQueue.Refreshing.{others, mark_seen_refreshes}
use spatter.NodeQueue.Buckets.{DistinctNodes}
use spatter.NodeQueue.Dropped.{walk, get_better_nodes_drops_farther}
use spatter.NodeQueue.Farthest.{complement, mark_seen-complement}
use spatter.NodeQueue.PingAll.{requests, ping_all-requests}
use spatter.State.{State}
use spatter.Tests.{
  id_of, alice, bob, carol, id-IsHash, alice_to_bob, bob_to_carol, platform, open_socket, started,
  no_buckets,
}
use spatter.Prelude.{
  ℕ, zero, suc, ◌≤◌, ◌<◌, ◌≡◌, ◌⊎◌, inr, refl, ap, sym, subst, true, false, List, [], ◌∷◌, ◌++◌,
  length, All, pop_back, back, ok, fault, out_of_bounds, arith,
}

-- Bob and Carol stand in the buckets of Alice.
abbrev known : ℕ → List NodeRecord
known = set_bucket (set_bucket no_buckets 1 (bob ∷ [])) 2 (carol ∷ [])

abbrev home : State Message
home = started alice known

get_better_nodes_sound_example :
    (length (get_better_nodes home (id_of 3) false) < alpha)
    × IsNearestFirst (id_of 3) (get_better_nodes home (id_of 3) false)
    × All
        (λ n.
          ((i : ℕ) × (i < bucket_count) × Mem n (known i))
          × ((bit_distance n.node_id (id_of 3) < bit_distance (id_of 0) (id_of 3))
              ⊎ (false ≡ true)))
        (get_better_nodes home (id_of 3) false)
get_better_nodes_sound_example = get_better_nodes_sound home (id_of 3) false

get_better_nodes_nearest_example :
    (x : NodeRecord) × (l : List NodeRecord) × (get_better_nodes home (id_of 3) true ≡ x ∷ l)
    × (bit_distance x.node_id (id_of 3) ≤ bit_distance (id_of 1) (id_of 3))
get_better_nodes_nearest_example =
    get_better_nodes_nearest home (id_of 3) true bob 1 (omega arith) mem-cons_self (inr refl)

bob_in_range : bit_distance (id_of 0) (id_of 1) < bucket_count
bob_in_range = omega (arith, alice_to_bob)

bob_distinct : DistinctNodes (known (bit_distance (id_of 0) (id_of 1)))
bob_distinct = rw alice_to_bob (refl, tt)

bob_has_room : suc (length (others bob (known (bit_distance (id_of 0) (id_of 1))))) < bucket_size
unfolding others node_eq str_eq
bob_has_room = rw alice_to_bob (omega arith)

mark_seen_refreshes_example :
    mark_seen platform 0 bob home
    ≡ ok (record home {
      buckets =
          set_bucket known
            (bit_distance (id_of 0) (id_of 1))
            (bob ∷ others bob (known (bit_distance (id_of 0) (id_of 1))));
    })
mark_seen_refreshes_example =
    mark_seen_refreshes platform 0 bob home (omega arith) bob_in_range bob_distinct bob_has_room

-- `n` nodes on one address.
abbrev crowd : ℕ → List NodeRecord
crowd zero = []
crowd (suc n) = record { node_id = id_of 1; ip = 100 ∷ []; port = suc n } ∷ crowd n

abbrev oldest : NodeRecord
oldest = record { node_id = id_of 1; ip = 100 ∷ []; port = 1 }

abbrev full : State Message
full = started alice (set_bucket no_buckets 1 (crowd 31))

full_before : touched bob (full.buckets (bit_distance (id_of 0) (id_of 1))) ≡ bob ∷ crowd 31
unfolding erase_node node_eq str_eq
full_before = rw alice_to_bob refl

mark_seen_evicts_example :
    mark_seen platform 0 bob full
    ≡ ok (
        pinged platform 0
          (record { sender_node = alice; receiver_node = oldest; is_reply = 0; message_id = 5 })
          open_socket
          (record full {
            buckets =
                set_bucket full.buckets
                  (bit_distance (id_of 0) (id_of 1))
                  (pop_back (touched bob (full.buckets (bit_distance (id_of 0) (id_of 1)))));
            next_message_id = 6;
          }))
unfolding node_eq str_eq back
mark_seen_evicts_example =
    mark_seen_evicts platform 0 bob full oldest open_socket (omega arith) bob_in_range
      (subst (λ l. bucket_size ≤ length l) (sym full_before) (omega arith)) (ap back full_before)
      refl refl refl

mark_seen-complement_example :
    mark_seen platform 0 (record { node_id = complement (id_of 0); ip = []; port = 1 }) home
    ≡ fault out_of_bounds
mark_seen-complement_example =
    mark_seen-complement platform 0 home
      (record { node_id = complement (id_of 0); ip = []; port = 1 }) (id-IsHash 0 (omega arith))
      refl (omega arith)

ping_all-requests_example :
    (s' : State Message) × (ping_all platform 0 home ≡ ok s')
    × (s'.sent ≡ [] ++ requests platform alice 5 (walk known bucket_count 0))
    × (s'.buckets ≡ known)
    × (s'.dht ≡ home.dht)
ping_all-requests_example = ping_all-requests platform 0 home open_socket refl (refl, (refl, tt))

-- Carol, at distance 0 from the key, stands in an earlier bucket than Bob here.
abbrev swapped : State Message
swapped = started alice (set_bucket (set_bucket no_buckets 1 (carol ∷ [])) 2 (bob ∷ []))

key_distances : (bit_distance (id_of 3) (id_of 3) ≡ 0) × (bit_distance (id_of 1) (id_of 3) ≡ 1)
key_distances = (
  (bit_distance_metric (id_of 3) (id_of 3) (id-IsHash 3 (omega arith))
        (id-IsHash 3 (omega arith))).2.1
      refl,
  bob_to_carol,
)

get_better_nodes_drops_farther_example : get_better_nodes swapped (id_of 3) true ≡ carol ∷ []
get_better_nodes_drops_farther_example =
    get_better_nodes_drops_farther swapped (id_of 3) true carol (bob ∷ []) refl (ground arith)
      (omega (arith, key_distances.0, key_distances.1), tt)
