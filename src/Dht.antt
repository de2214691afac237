-- ===== src/Dht.antt =====
-- dht/DHT.cpp: this node's record and its share of the distributed table. The hash function is that
-- of lib/tigertree and `lexical_cast` is boost's: both are arguments. An `unordered_map` is an
-- association list; where its order could matter it is left open.
pub mod Table
pub mod Queries
pub mod Records
pub mod Race
pub mod Log
use spatter.Messages.Hash.{Hash}
use spatter.Messages.Str.{Str}
use spatter.Messages.Node.{NodeRecord}
use spatter.Messages.File.{FileInfo}
use spatter.Prelude.{ℕ, List, [], ◌++◌, Option, none, some}
use Table.{HashTable, insert_record, lookup}

pub record Dht : Type 0 where
  pub this_node : NodeRecord
  pub hash_table : HashTable

-- The constructor. `random` is the result of `random()`.
unfoldable pub new_dht : (Str → Hash) → (ℕ → Str) → Str → ℕ → ℕ → Dht
new_dht tiger lexical_cast ip port random = record {
  this_node = record {
    node_id = tiger (ip ++ (lexical_cast port ++ lexical_cast random));
    ip = ip;
    port = port;
  };
  hash_table = [];
}

-- The singleton is made once.
unfoldable pub make_dht : (Str → Hash) → (ℕ → Str) → Option Dht → Str → ℕ → ℕ → Option Dht
unfolding new_dht
make_dht tiger lexical_cast none ip port random = some (new_dht tiger lexical_cast ip port random)
make_dht tiger lexical_cast (some dht) ip port random = some dht

abbrev pub get_node : Dht → NodeRecord
get_node dht = dht.this_node

unfoldable pub insert_file_info_record : Dht → FileInfo → Dht
insert_file_info_record dht r = record dht { hash_table = insert_record r dht.hash_table }

unfoldable pub query : Dht → Hash → List FileInfo
query dht h = lookup h dht.hash_table
