-- ===== src/Tests/Starting.antt =====
-- Examples for the start of the program, and for what follows it.
use spatter.Boost.{codes}
use spatter.Config.{
  Config, load_config, get_param, find_prop, assign_prop, load_lines, load_line, split_equals,
}
use spatter.Config.Files.{read_file, read_rounds, until_nul}
use spatter.Config.Friends.{load_friends_list, friend_node}
use spatter.Config.Friends.Known.{friend, nil}
use spatter.Control.Handle.{handle_receive_from, handle_message, dispatch, handle_publish}
use spatter.Control.Invariant.{IsNode}
use spatter.Control.Send.{create}
use spatter.Dht.{new_dht, insert_file_info_record}
use spatter.Main.{Host, start_up, open_control}
use spatter.Main.Joined.{Joined, start_up_succeeds}
use spatter.Main.Unbound.{start_up_unbound}
use spatter.Messages.Archive.{Message, Packet}
use spatter.Messages.Hash.{randomize}
use spatter.Messages.Str.{Str, str_eq}
use spatter.NodeQueue.{ping_all, ping_buckets, ping_bucket, set_bucket, erase_node}
use spatter.NodeQueue.Buckets.{touched}
use spatter.NodeQueue.Seen.{mark_seen_room}
use spatter.Util.Distance.{bit_distance}
use spatter.Program.{receive, here, next}
use spatter.Program.Invariant.{Reach-IsNode}
use spatter.State.{State}
use spatter.Tests.{alice, bob, shared_file, alice_to_bob, platform, no_buckets, id_of}
use spatter.Tests.Strings.{string_boost, tokens_from, split_from, trim_start, trim_end, number_from}
use spatter.Prelude.{
  ℕ, zero, suc, ◌≡◌, refl, Bool, true, false, [], ◌∷◌, none, some, if◌then◌else◌, ok, arith,
}

abbrev settings : Str
settings = codes "network.ip=a\nnetwork.port=80\nnetwork.thread_pool_size=2\n"

abbrev first_is_one : ℕ → ℕ
first_is_one zero = 1
first_is_one (suc i) = 0

abbrev pub host : Bool → Host Message
host binds = record {
  boost = string_boost;
  platform = platform;
  tiger = λ t. id_of 0;
  to_str = λ n. [];
  random = 0;
  rand = first_is_one;
  now = 0;
  binds = λ port. binds;
  opens = λ f. true;
  order = λ m. m;
}

abbrev pub unread : Config
unread = record {
  config_file = [];
  props = [];
  files = λ f. if str_eq f (codes "spatter.conf") then settings else [];
}

abbrev pub read : Config
read = record unread {
  config_file = codes "spatter.conf";
  props =
      (codes "network.ip", codes "a")
      ∷ (codes "network.port", codes "80")
      ∷ (codes "network.thread_pool_size", codes "2")
      ∷ (codes "dht.friendlist", [])
      ∷ [];
}

abbrev first_read : Config
first_read = record read {
  props =
      (codes "network.ip", codes "a")
      ∷ (codes "network.port", codes "80")
      ∷ (codes "network.thread_pool_size", codes "2")
      ∷ [];
}

abbrev alone : State Message
alone = record {
  dht = record { this_node = alice; hash_table = [] };
  buckets = λ i. [];
  next_message_id = 0;
  control = none;
  sent = [];
  searches = [];
  next_master_search_id = 0;
  next_sub_search_id = 0;
}

abbrev pub listening : State Message
listening = record alone {
  control = some (record { port = 80; unacknowledged_pings = []; receives = 1 });
}

pub bound : start_up (host true) unread ≡ ok (read, listening)
unfolding start_up load_config read_file read_rounds until_nul tokens_from trim_start trim_end
    load_lines load_line split_equals assign_prop find_prop get_param str_eq number_from new_dht
    load_friends_list open_control create ping_all ping_buckets ping_bucket
bound = refl

start_up_unbound_example : start_up (host false) unread ≡ ok (read, alone)
unfolding load_config read_file read_rounds until_nul tokens_from trim_start trim_end load_lines
    load_line split_equals assign_prop find_prop get_param str_eq number_from new_dht
    load_friends_list
start_up_unbound_example =
    start_up_unbound (host false) unread first_read read true false 80 2 alone (λ q. refl) refl refl
      refl refl

-- Bob publishes his file.
abbrev published : Packet Message
published = record { type = 1; body = Message.publish (record { file_info = shared_file }) }

abbrev stored : State Message
stored = record listening { dht = insert_file_info_record listening.dht shared_file }

abbrev after_publish : State Message
after_publish = record stored {
  buckets = set_bucket no_buckets (bit_distance (id_of 0) (id_of 1)) (touched bob []);
}

received : handle_receive_from platform 0 false (some published) listening ≡ ok after_publish
unfolding handle_receive_from handle_message dispatch handle_publish insert_file_info_record
    erase_node
received =
    mark_seen_room platform 0 bob stored (omega arith) (omega (arith, alice_to_bob)) (omega arith)

Reach-IsNode_example : IsNode after_publish
Reach-IsNode_example =
    Reach-IsNode (host true) (λ l. l) unread read listening
      (record { node = after_publish; loose = [] }) bound
      (next here (receive 0 false (some published) received refl))

-- With a list of friends.
abbrev with_friends : Config
with_friends = record {
  config_file = codes "spatter.conf";
  props =
      (codes "network.ip", codes "a")
      ∷ (codes "network.port", codes "80")
      ∷ (codes "network.thread_pool_size", codes "2")
      ∷ (codes "dht.friendlist", codes "f")
      ∷ [];
  files = λ f.
      if str_eq f (codes "f")
      then codes "b 81\n"
      else (if str_eq f (codes "spatter.conf")
          then codes "network.ip=a\nnetwork.port=80\nnetwork.thread_pool_size=2\ndht.friendlist=f\n"
          else []);
}

start_up_succeeds_example :
    (s : State Message) × (start_up
        (host true)
        (record with_friends { config_file = []; props = [] })
      ≡ ok (with_friends, s))
    × (s.dht ≡ alone.dht)
    × Joined (host true) s
unfolding load_config read_file read_rounds until_nul tokens_from split_from trim_start trim_end
    load_lines load_line split_equals assign_prop find_prop str_eq number_from new_dht friend_node
    randomize
start_up_succeeds_example =
    start_up_succeeds (host true) (record with_friends { config_file = []; props = [] })
      with_friends (codes "a") (codes "80") (codes "f") (codes "2") (codes "b 81\n") 80 2 true refl
      (record { has_ip = refl; has_port = refl; has_friends = refl; has_threads = refl }) refl refl
      refl (λ n. refl) (omega arith) refl
      (friend 0 (codes "b 81") [] bob refl refl (omega arith) (omega (arith, alice_to_bob)) (nil _))
      (omega arith)
