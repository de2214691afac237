-- ===== src/Tests.antt =====
-- Two nodes, their messages and their states, for the examples of the child modules.
pub mod Strings
pub mod Settings
pub mod Starting
pub mod Sharing
pub mod Routing
pub mod Dispatch
pub mod Records
pub mod Searching
pub mod Values
pub mod Exchange
pub mod Rounds
pub mod Restarting
pub mod Sharers
pub mod Filed
use spatter.Messages.Hash.{Hash, IsHash}
use spatter.Messages.Str.{Str}
use spatter.Messages.Node.{NodeRecord}
use spatter.Messages.File.{FileInfo, FileType, file, PublishMessage}
use spatter.Messages.Search.{SearchMessage, SearchResult, SearchType, key_search}
use spatter.Messages.Ping.{PingMessage}
use spatter.Messages.Archive.{Archive, Message, ReadsBack}
use spatter.Util.Bits.{differing}
use spatter.Util.Distance.{bit_distance, hamming, bit_distance-hamming}
use spatter.State.{State, Platform, ControlProtocol, Search, SubSearch, running}
use spatter.Prelude.{
  ℕ, ◌<◌, ◌≡◌, refl, ◌∙◌, Bool, true, false, List, [], ◌∷◌, Option, none, some, Outcome, ok, arith,
}

-- The id with `x` as its first byte and zeros behind.
abbrev pub id_of : ℕ → Hash
id_of x =
    x ∷ 0 ∷ 0 ∷ 0 ∷ 0 ∷ 0 ∷ 0 ∷ 0 ∷ 0 ∷ 0 ∷ 0 ∷ 0 ∷ 0 ∷ 0 ∷ 0 ∷ 0 ∷ 0 ∷ 0 ∷ 0 ∷ 0 ∷ 0 ∷ 0 ∷ 0 ∷ 0
    ∷ []

abbrev pub alice : NodeRecord
alice = record { node_id = id_of 0; ip = 97 ∷ []; port = 80 }

abbrev pub bob : NodeRecord
bob = record { node_id = id_of 1; ip = 98 ∷ []; port = 81 }

abbrev pub carol : NodeRecord
carol = record { node_id = id_of 3; ip = 99 ∷ []; port = 82 }

pub id-IsHash : (x : ℕ) → x < 256 → IsHash (id_of x)
id-IsHash x h = (
  h,
  (
    omega arith,
    (
      omega arith,
      (
        omega arith,
        (
          omega arith,
          (
            omega arith,
            (
              omega arith,
              (
                omega arith,
                (
                  omega arith,
                  (
                    omega arith,
                    (
                      omega arith,
                      (
                        omega arith,
                        (
                          omega arith,
                          (
                            omega arith,
                            (
                              omega arith,
                              (
                                omega arith,
                                (
                                  omega arith,
                                  (
                                    omega arith,
                                    (
                                      omega arith,
                                      (
                                        omega arith,
                                        (
                                          omega arith,
                                          (omega arith, (omega arith, (omega arith, tt))),
                                        ),
                                      ),
                                    ),
                                  ),
                                ),
                              ),
                            ),
                          ),
                        ),
                      ),
                    ),
                  ),
                ),
              ),
            ),
          ),
        ),
      ),
    ),
  ),
)

pub alice_to_bob : bit_distance (id_of 0) (id_of 1) ≡ 1
unfolding hamming differing
alice_to_bob =
    bit_distance-hamming (id_of 0) (id_of 1) (id-IsHash 0 (omega arith)) (id-IsHash 1 (omega arith))

pub alice_to_carol : bit_distance (id_of 0) (id_of 3) ≡ 2
unfolding hamming differing
alice_to_carol =
    bit_distance-hamming (id_of 0) (id_of 3) (id-IsHash 0 (omega arith)) (id-IsHash 3 (omega arith))

pub bob_to_carol : bit_distance (id_of 1) (id_of 3) ≡ 1
unfolding hamming differing
bob_to_carol =
    bit_distance-hamming (id_of 1) (id_of 3) (id-IsHash 1 (omega arith)) (id-IsHash 3 (omega arith))

abbrev read_publish_message : Message → Option PublishMessage
read_publish_message (Message.publish m) = some m
read_publish_message (Message.search m) = none
read_publish_message (Message.search_result m) = none
read_publish_message (Message.ping m) = none

abbrev read_search_message : Message → Option SearchMessage
read_search_message (Message.publish m) = none
read_search_message (Message.search m) = some m
read_search_message (Message.search_result m) = none
read_search_message (Message.ping m) = none

abbrev read_result_message : Message → Option SearchResult
read_result_message (Message.publish m) = none
read_result_message (Message.search m) = none
read_result_message (Message.search_result m) = some m
read_result_message (Message.ping m) = none

abbrev read_ping_message : Message → Option PingMessage
read_ping_message (Message.publish m) = none
read_ping_message (Message.search m) = none
read_ping_message (Message.search_result m) = none
read_ping_message (Message.ping m) = some m

-- An archive whose texts are the messages themselves.
abbrev pub plain_archive : Archive Message
plain_archive = record {
  opens = λ m. true;
  write = λ m. m;
  read_publish = read_publish_message;
  read_search = read_search_message;
  read_search_result = read_result_message;
  read_ping = read_ping_message;
}

pub plain_archive-ReadsBack : ReadsBack plain_archive
plain_archive-ReadsBack = record {
  opens = λ m. refl;
  publish = λ m. refl;
  search = λ m. refl;
  search_result = λ m. refl;
  ping = λ m. refl;
}

abbrev pub platform : Platform Message
platform = record { archive = plain_archive; resolves = λ n. true }

abbrev pub open_socket : ControlProtocol
open_socket = record { port = 80; unacknowledged_pings = []; receives = 1 }

abbrev pub shared_file : FileInfo
shared_file = record {
  key = id_of 7;
  node = bob;
  path = 47 ∷ [];
  size = 10;
  type = file;
  mod_ts = 0;
  owner_publish_ts = 0;
  valid_till = 9;
}

-- A state of a node, by its record and its buckets.
abbrev pub started : NodeRecord → (ℕ → List NodeRecord) → State Message
started this b = record {
  dht = record { this_node = this; hash_table = [] };
  buckets = b;
  next_message_id = 5;
  control = some open_socket;
  sent = [];
  searches = [];
  next_master_search_id = 0;
  next_sub_search_id = 8;
}

abbrev pub no_buckets : ℕ → List NodeRecord
no_buckets i = []
