-- ===== src/Search/Manager.antt =====
-- The functions of dht/protocol/search_manager.cpp: messages of other nodes' searches, and this
-- node's own searches.
use spatter.Messages.Hash.{Hash, zero_hash}
use spatter.Messages.Str.{Str}
use spatter.Messages.Node.{NodeRecord, node_eq}
use spatter.Messages.Search.{SearchMessage, SearchResult, SearchType, key_search, is_key_search}
use spatter.Messages.Archive.{Message, serialize_message}
use spatter.Control.Send.{udp_send}
use spatter.NodeQueue.{get_better_nodes}
use spatter.Dht.{query}
use spatter.Search.SubSearches.{new_sub_search, add_response}
use spatter.State.{State, Platform, SubSearch, Search}
use spatter.Prelude.{
  ℕ, ◌+◌, ◌%◌, ◌^◌, Bool, true, false, List, [], ◌∷◌, Option, none, some, if◌then◌else◌, find_id,
  assign, erase_id, Outcome, ok, ◌>>=◌,
}

-- `list.remove(n)`: all equal nodes go.
unfoldable pub remove_node : NodeRecord → List NodeRecord → List NodeRecord
remove_node n [] = []
remove_node n (x ∷ l) = let rest = remove_node n l in if node_eq x n then rest else x ∷ rest

-- The answer to a search message.
unfoldable pub answer_search : {Text : Type 0} → SearchMessage → State Text → SearchResult
unfolding remove_node
answer_search sm s = record {
  sender_node = s.this_node;
  file_list = if is_key_search sm.type then query s.dht sm.key else [];
  node_list =
      remove_node sm.sender_node (remove_node s.this_node (get_better_nodes s sm.key false));
  search_id = sm.search_id;
  sub_search_id = sm.sub_search_id;
}

unfoldable pub handle_search :
    {Text : Type 0} → Platform Text → SearchMessage → State Text → Outcome (State Text)
unfolding answer_search
handle_search p sm s =
    udp_send p (serialize_message p.archive (Message.search_result (answer_search sm s)))
      sm.sender_node s

-- A result goes to the sub-search that is registered under both of its ids, if there is one.
unfoldable pub handle_search_result : {Text : Type 0} → SearchResult → State Text → State Text
unfolding add_response
handle_search_result srm s = elim (find_id srm.search_id s.searches) [
  | none ↦ s
  | some sr ↦ elim (find_id srm.sub_search_id sr.sub_searches) [
    | none ↦ s
    | some ss ↦ record s {
      searches =
          assign srm.search_id
            (record sr {
              sub_searches = assign srm.sub_search_id (add_response srm ss) sr.sub_searches;
            })
            s.searches;
    }
  ]
]

unfoldable pub find_search : {Text : Type 0} → ℕ → State Text → Option Search
find_search id s = find_id id s.searches

abbrev pub is_some : {A : Type 0} → Option A → Bool
is_some none = false
is_some (some a) = true

unfoldable pub remove_search : {Text : Type 0} → ℕ → State Text → State Text × Bool
remove_search id s =
    (record s { searches = erase_id id s.searches }, is_some (find_id id s.searches))

abbrev pub take_master_id : {Text : Type 0} → State Text → State Text
take_master_id s = record s { next_master_search_id = (s.next_master_search_id + 1) % 2 ^ 32 }

abbrev pub register : {Text : Type 0} → Search → State Text → State Text
register sr s = record s { searches = assign sr.master_search_id sr s.searches }

module _ (tiger : Str → Hash) (sort : List NodeRecord → List NodeRecord) {Text : Type 0} where
  -- `start_search(hash, search_type)`
  unfoldable pub start_hash_search : ℕ → Hash → SearchType → State Text → Outcome (ℕ × State Text)
  start_hash_search now h type s = do
    (ss, s') ← new_sub_search tiger sort now [] h (take_master_id s)
    let sr : Search = record {
      full_query = [];
      type = type;
      master_search_id = s.next_master_search_id;
      sub_searches = (ss.search_id, ss) ∷ [];
    }
    ok (s.next_master_search_id, register sr s')

  -- The loop over the tokens of a query; `trim` is boost's.
  unfoldable pub start_tokens :
      (Str → Str)
      → ℕ
      → List Str
      → List (ℕ × SubSearch)
      → State Text
      → Outcome (List (ℕ × SubSearch) × State Text)
  start_tokens trim now [] m s = ok (m, s)
  start_tokens trim now (tok ∷ toks) m s = elim (trim tok) [
    | [] ↦ start_tokens trim now toks m s
    | c ∷ token ↦ do
      (ss, s') ← new_sub_search tiger sort now (c ∷ token) zero_hash s
      start_tokens trim now toks (assign ss.search_id ss m) s'
  ]

  -- `start_search(std::string)`; `tokenize` is boost's tokenizer with the code's separators.
  unfoldable pub start_query_search :
      (Str → List Str) → (Str → Str) → ℕ → Str → State Text → Outcome (ℕ × State Text)
  unfolding start_tokens
  start_query_search tokenize trim now text s = do
    (m, s') ← start_tokens trim now (tokenize text) [] (take_master_id s)
    let sr : Search = record {
      full_query = text;
      type = key_search;
      master_search_id = s.next_master_search_id;
      sub_searches = m;
    }
    ok (s.next_master_search_id, register sr s')
