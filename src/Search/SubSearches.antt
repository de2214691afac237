-- ===== src/Search/SubSearches.antt =====
-- The class `sub_search` of dht/protocol/search_manager.cpp: its constructor, `giveUpSearch`,
-- `add_response`, and the parts of `run`. `std::list::sort` is an argument, since with a comparison
-- that is no strict weak order its result is not specified. The hash function is that of
-- lib/tigertree.
use spatter.Messages.Hash.{Hash}
use spatter.Messages.Str.{Str}
use spatter.Messages.Node.{NodeRecord, node_eq}
use spatter.Messages.Search.{SearchResult, SearchMessage}
use spatter.Messages.Archive.{Message, serialize_message, Packet}
use spatter.Util.Distance.{bit_distance}
use spatter.Control.Send.{udp_send}
use spatter.NodeQueue.{get_better_nodes}
use spatter.NodeQueue.Ranking.{alpha}
use spatter.Dht.{query}
use spatter.Search.Suggestions.{ranked_eq}
use spatter.State.{State, Platform, SubSearch, Search, Ranked, running}
use spatter.Prelude.{
  ℕ, ◌+◌, ◌%◌, ◌^◌, Bool, true, false, List, [], ◌∷◌, ◌++◌, map, none, some, ltb, leb,
  if◌then◌else◌, length, take, find_id, assign, erase_id, Outcome, ok, fault, bad_iterator, ◌>>=◌,
}

abbrev pub max_hops : ℕ
max_hops = 7

abbrev pub search_timeout : ℕ
search_timeout = 5

-- `unique`: of equal neighbours the first stays.
unfoldable pub drop_equal : {A : Type 0} → (A → A → Bool) → A → List A → List A
drop_equal eq x [] = []
drop_equal eq x (y ∷ l) = elim (eq x y) [ true ↦ drop_equal eq x l | false ↦ y ∷ drop_equal eq y l ]

unfoldable pub unique : {A : Type 0} → (A → A → Bool) → List A → List A
unfolding drop_equal
unique eq [] = []
unique eq (x ∷ l) = x ∷ drop_equal eq x l

-- `std::advance(iter, n)` from the start and `erase` from there on: past the end the iterator is bad.
unfoldable pub keep_first : {A : Type 0} → ℕ → List A → Outcome (List A)
keep_first n l = if leb n (length l) then ok (take n l) else fault bad_iterator

unfoldable pub give_up_search : SubSearch → Bool
give_up_search ss = ltb max_hops ss.hops

unfoldable pub add_response : SearchResult → SubSearch → SubSearch
add_response srm ss =
    if ss.kill_search
    then ss
    else record ss { responses = ss.responses ++ srm ∷ []; response_queue_empty = false }

-- The key of a sub-search: the hash of its token if it has one.
abbrev pub key_of : (Str → Hash) → Str → Hash → Hash
key_of tiger [] key = key
key_of tiger (c ∷ token) key = tiger (c ∷ token)

-- "undefined-XX"
abbrev pub token_of : Str → Str
token_of [] = 117 ∷ 110 ∷ 100 ∷ 101 ∷ 102 ∷ 105 ∷ 110 ∷ 101 ∷ 100 ∷ 45 ∷ 88 ∷ 88 ∷ []
token_of (c ∷ token) = c ∷ token

module _ (tiger : Str → Hash) (sort : List NodeRecord → List NodeRecord) where
  -- The nodes that a sub-search starts from.
  unfoldable pub first_nodes : {Text : Type 0} → State Text → Hash → Outcome (List NodeRecord)
  unfolding unique keep_first
  first_nodes s key =
      let near = unique node_eq (get_better_nodes s key false) in
      let l =
        if ltb (length near) alpha then unique node_eq (get_better_nodes s key true) else near in
      keep_first alpha (sort l)

  -- The constructor; it takes an id off the counter.
  unfoldable pub new_sub_search :
      {Text : Type 0} → ℕ → Str → Hash → State Text → Outcome (SubSearch × State Text)
  unfolding first_nodes
  new_sub_search now token h s = do
    let key = key_of tiger token h
    l ← first_nodes s key
    ok (
      record {
        query_token = token_of token;
        key = key;
        search_id = s.next_sub_search_id;
        status = running;
        hops = 0;
        next_nodes_queue = map (λ n. (bit_distance key n.node_id, n)) l;
        pq = [];
        next_nodes_queue_max_size = alpha;
        results = (key, query s.dht key) ∷ [];
        next_deadline = now + search_timeout;
        responses = [];
        response_queue_empty = true;
        kill_search = false;
      },
      record s { next_sub_search_id = (s.next_sub_search_id + 1) % 2 ^ 32 },
    )

-- `search::advance`: the sub-search goes on under a new id. An id that is not in the map gives the
-- end of it, which the code goes through.
unfoldable pub advance :
    {Text : Type 0} → ℕ → Search → State Text → Outcome (Search × ℕ × State Text)
advance id sr s = elim (find_id id sr.sub_searches) [
  | none ↦ fault bad_iterator
  | some ss ↦
      let fresh = s.next_sub_search_id in
      ok (
        record sr {
          sub_searches =
              assign fresh (record ss { search_id = fresh; hops = ss.hops + 1 })
                (erase_id id sr.sub_searches);
        },
        fresh,
        record s { next_sub_search_id = (fresh + 1) % 2 ^ 32 },
      )
]

module _ {Text : Type 0} (p : Platform Text) where
  unfoldable pub send_queries : Packet Text → List Ranked → State Text → Outcome (State Text)
  send_queries msg [] s = ok s
  send_queries msg (e ∷ l) s = udp_send p msg e.1 s >>= λ s'. send_queries msg l s'

  -- The start of a round of `run`, after `advance`: the queue's nodes are kept in `pq` and are asked.
  unfoldable pub ask_next_nodes : Search → SubSearch → State Text → Outcome (SubSearch × State Text)
  unfolding unique send_queries
  ask_next_nodes sr ss s = do
    let sm : SearchMessage = record {
      key = ss.key;
      sender_node = s.this_node;
      search_id = sr.master_search_id;
      sub_search_id = ss.search_id;
      type = sr.type;
    }
    s' ← send_queries (serialize_message p.archive (Message.search sm)) ss.next_nodes_queue s
    ok (
      record ss { next_nodes_queue = []; pq = unique ranked_eq (ss.pq ++ ss.next_nodes_queue) },
      s',
    )

-- The critical section of the inner loop of `run`: the batch is taken and the deadline moved.
unfoldable pub take_responses : ℕ → SubSearch → List SearchResult × SubSearch
take_responses now ss = (
  ss.responses,
  record ss { responses = []; next_deadline = now + search_timeout; response_queue_empty = true },
)
