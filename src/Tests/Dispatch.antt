-- ===== src/Tests/Dispatch.antt =====
-- Examples for the messages that a node receives.
use spatter.Messages.Node.{node_eq}
use spatter.Messages.Str.{str_eq}
use spatter.Messages.Ping.{PingMessage}
use spatter.Messages.Archive.{Packet, Message, serialize_message}
use spatter.Util.Distance.{bit_distance}
use spatter.Util.Metric.{bit_distance_metric}
use spatter.Control.Send.{insert_pending, udp_send}
use spatter.Control.Handle.{
  handle_message, dispatch, handle_publish, handle_ping, handle_ping_request, ping_reply,
}
use spatter.Control.Pings.{ping_round_trip, handle_ping_marks_self}
use spatter.Control.Success.{marked_node, handle_message_succeeds}
use spatter.Control.Publishing.{published_found}
use spatter.Messages.File.{file_eq}
use spatter.Messages.Hash.{hash_eq_refl}
use spatter.Messages.Search.{SearchMessage, key_search}
use spatter.Search.Manager.{answer_search}
use spatter.Dht.{insert_file_info_record}
use spatter.NodeQueue.{mark_seen, set_bucket, bucket_count, erase_node}
use spatter.NodeQueue.Buckets.{touched, refreshed}
use spatter.NodeQueue.Seen.{mark_seen_room}
use spatter.State.{State}
use spatter.Tests.{
  id_of, id-IsHash, alice, bob, shared_file, alice_to_bob, platform, plain_archive-ReadsBack,
  open_socket, started, no_buckets,
}
use spatter.Prelude.{true, any, ◌<◌, ◌≡◌, refl, [], ◌∷◌, ◌++◌, some, ok, arith}

abbrev pub fresh : State Message
fresh = started alice no_buckets

-- Bob publishes his file.
abbrev pub published : Packet Message
published = record { type = 1; body = Message.publish (record { file_info = shared_file }) }

abbrev stored : State Message
stored = record fresh { dht = insert_file_info_record fresh.dht shared_file }

abbrev pub after_publish : State Message
after_publish = record stored {
  buckets = set_bucket no_buckets (bit_distance (id_of 0) (id_of 1)) (touched bob []);
}

bob_in_range : bit_distance (id_of 0) (id_of 1) < bucket_count
bob_in_range = omega (arith, alice_to_bob)

pub publish_handled : handle_message platform 0 published fresh ≡ ok after_publish
unfolding handle_message dispatch handle_publish insert_file_info_record erase_node
publish_handled = mark_seen_room platform 0 bob stored (omega arith) bob_in_range (omega arith)

-- Alice has asked Bob.
abbrev asked : PingMessage
asked = record { sender_node = alice; receiver_node = bob; is_reply = 0; message_id = 3 }

abbrev waits : State Message
unfolding insert_pending
waits = record fresh {
  control = some (record open_socket { unacknowledged_pings = insert_pending (60, asked) [] });
}

abbrev bob_state : State Message
bob_state = started bob no_buckets

ping_round_trip_example :
    (handle_message platform 0 (serialize_message platform.archive (Message.ping asked)) bob_state
      ≡ mark_seen platform 0 bob (record bob_state {
        sent =
            []
            ++ (
              serialize_message platform.archive (Message.ping (ping_reply asked bob_state)),
              alice,
            )
              ∷ [];
      }))
    × (handle_message platform 0
          (serialize_message platform.archive (Message.ping (ping_reply asked bob_state)))
          waits
        ≡ mark_seen platform 0 bob
            (record waits { control = some (record open_socket { unacknowledged_pings = [] }) }))
unfolding waits node_eq str_eq
ping_round_trip_example =
    ping_round_trip platform 0 waits bob_state
      (record open_socket { unacknowledged_pings = insert_pending (60, asked) [] }) open_socket
      asked [] 60 plain_archive-ReadsBack refl refl refl refl refl refl refl refl refl

abbrev with_reply : State Message
unfolding ping_reply
with_reply = record bob_state {
  sent =
      []
      ++ (serialize_message platform.archive (Message.ping (ping_reply asked bob_state)), alice)
        ∷ [];
}

abbrev marked_self : State Message
marked_self = record with_reply {
  buckets = set_bucket no_buckets (bit_distance (id_of 1) (id_of 1)) (touched bob []);
}

self_in_range : bit_distance (id_of 1) (id_of 1) < bucket_count
self_in_range = omega (
  arith,
  (bit_distance_metric (id_of 1) (id_of 1) (id-IsHash 1 (omega arith))
        (id-IsHash 1 (omega arith))).2.1
      refl,
)

request_handled : handle_ping platform 0 asked bob_state ≡ ok marked_self
unfolding handle_ping handle_ping_request udp_send with_reply node_eq str_eq erase_node
request_handled = mark_seen_room platform 0 bob with_reply (omega arith) self_in_range (omega arith)

handle_ping_marks_self_example :
    (marked_self.buckets ≡ set_bucket no_buckets 0 (refreshed bob []))
    × (marked_self.dht ≡ bob_state.dht)
handle_ping_marks_self_example =
    handle_ping_marks_self platform 0 asked bob_state marked_self (id-IsHash 1 (omega arith)) refl
      request_handled

handle_message_succeeds_example :
    (s' : State Message) × (handle_message platform 0
        (serialize_message platform.archive (Message.publish (record { file_info = shared_file })))
        fresh
      ≡ ok s')
unfolding marked_node
handle_message_succeeds_example =
    handle_message_succeeds platform 0 (λ x. refl)
      (Message.publish (record { file_info = shared_file })) fresh open_socket
      plain_archive-ReadsBack refl (omega arith) bob_in_range

abbrev wanted : SearchMessage
wanted = record {
  key = id_of 7;
  sender_node = alice;
  search_id = 2;
  sub_search_id = 6;
  type = key_search;
}

published_found_example :
    (s' : State Message) × (handle_message platform 0
        (serialize_message platform.archive (Message.publish (record { file_info = shared_file })))
        fresh
      ≡ ok s')
    × (any (λ x. file_eq x shared_file) (answer_search wanted s').file_list ≡ true)
published_found_example =
    published_found platform 0 shared_file wanted fresh open_socket (λ x. refl)
      plain_archive-ReadsBack refl (omega arith) bob_in_range refl (hash_eq_refl (id_of 7))
