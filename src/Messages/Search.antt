-- ===== src/Messages/Search.antt =====
-- `search_message` and `search_result_message` of dht/protocol/messages.hpp.
use spatter.Messages.Hash.{Hash}
use spatter.Messages.Node.{NodeRecord}
use spatter.Messages.File.{FileInfo}
use spatter.Prelude.{ℕ, Bool, true, false, List}

pub data SearchType : Type 0 where
  node_search key_search : SearchType

abbrev pub is_key_search : SearchType → Bool
is_key_search node_search = false
is_key_search key_search = true

pub record SearchMessage : Type 0 where
  pub key : Hash
  pub sender_node : NodeRecord
  pub search_id : ℕ
  pub sub_search_id : ℕ
  pub type : SearchType

pub record SearchResult : Type 0 where
  pub sender_node : NodeRecord
  pub file_list : List FileInfo
  pub node_list : List NodeRecord
  pub search_id : ℕ
  pub sub_search_id : ℕ
