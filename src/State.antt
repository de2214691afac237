-- ===== src/State.antt =====
-- The state of a running node: the globals of dht/NodeQueue.cpp and dht/protocol/search_manager.cpp
-- and the singletons of dht/DHT.cpp and dht/protocol/control_protocol.cpp, in one record that the
-- handlers pass on. The classes `sub_search` and `search` are records here too; `percent_completed`,
-- the locks and the thread object are left out, and the pointer to the master search is an argument
-- of the functions that follow it.
use spatter.Messages.Hash.{Hash}
use spatter.Messages.Str.{Str}
use spatter.Messages.Node.{NodeRecord}
use spatter.Messages.File.{FileInfo}
use spatter.Messages.Ping.{PingMessage}
use spatter.Messages.Search.{SearchType, SearchResult}
use spatter.Messages.Archive.{Archive, Packet}
use spatter.Dht.{Dht}
use spatter.Prelude.{ℕ, Bool, List, Option}

pub data SearchStatus : Type 0 where
  running terminated killed : SearchStatus

-- `std::pair<uint32_t, node_record>`: a node with its distance from a key.
abbrev pub Ranked : Type 0
Ranked = ℕ × NodeRecord

pub record SubSearch : Type 0 where
  pub query_token : Str
  pub key : Hash
  pub search_id : ℕ
  pub status : SearchStatus
  pub hops : ℕ
  pub next_nodes_queue : List Ranked
  pub pq : List Ranked
  pub next_nodes_queue_max_size : ℕ
  pub results : List (Hash × List FileInfo)
  pub next_deadline : ℕ
  pub responses : List SearchResult
  pub response_queue_empty : Bool
  pub kill_search : Bool

pub record Search : Type 0 where
  pub full_query : Str
  pub type : SearchType
  pub master_search_id : ℕ
  pub sub_searches : List (ℕ × SubSearch)

-- A ping that waits for its answer, with the time at which it is given up.
abbrev pub Pending : Type 0
Pending = ℕ × PingMessage

-- The `control_protocol` object. `receives` counts the receives that are posted on the socket.
pub record ControlProtocol : Type 0 where
  pub port : ℕ
  pub unacknowledged_pings : List Pending
  pub receives : ℕ

-- `sent` lists what has been handed to the socket, with the node that it is for.
pub record State (Text : Type 0) : Type 0 where
  pub dht : Dht
  pub open dht use *
  pub buckets : ℕ → List NodeRecord
  pub next_message_id : ℕ
  pub control : Option ControlProtocol
  pub sent : List (Packet Text × NodeRecord)
  pub searches : List (ℕ × Search)
  pub next_master_search_id : ℕ
  pub next_sub_search_id : ℕ

-- What the code takes from boost: the text archive, and whether the resolver finds an endpoint for
-- a node's address (it throws if it does not).
pub record Platform (Text : Type 0) : Type 0 where
  pub archive : Archive Text
  pub open archive use *
  pub resolves : NodeRecord → Bool
