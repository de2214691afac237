-- ===== src/Search/Suggestions.antt =====
-- `next_nodes_queue` of `sub_search::run` in dht/protocol/search_manager.cpp, as it takes in the nodes
-- of a result, and the list of results by key.
use spatter.Messages.Hash.{Hash, hash_eq}
use spatter.Messages.Node.{NodeRecord, node_eq}
use spatter.Messages.File.{FileInfo}
use spatter.Messages.Search.{SearchResult, SearchType, is_key_search}
use spatter.Util.Distance.{bit_distance}
use spatter.State.{SubSearch, Ranked}
use spatter.Prelude.{
  ℕ, Bool, ◌&&◌, List, [], ◌∷◌, ◌++◌, any, ltb, leb, ◌==◌, if◌then◌else◌, length, pop_back, Outcome,
  ok, fault, bad_iterator, ◌>>=◌,
}

-- `*iter == entry`
abbrev pub ranked_eq : Ranked → Ranked → Bool
ranked_eq a b = (a.0 == b.0) && node_eq a.1 b.1

-- The two inner loops. The first puts the entry before one that is at least as far; the second goes
-- on from there, and where it meets an equal entry it erases the iterator that it then increments.
unfoldable pub insert_suggestion : Ranked → List Ranked → Outcome (List Ranked)
insert_suggestion e [] = ok []
insert_suggestion e (x ∷ l) =
    if leb e.0 x.0
    then (if any (λ y. ranked_eq y e) (x ∷ l) then fault bad_iterator else ok (e ∷ x ∷ l))
    else (insert_suggestion e l >>= λ m. ok (x ∷ m))

-- A queue that is too long loses its last node.
unfoldable pub cut_suggestions : ℕ → List Ranked → List Ranked
cut_suggestions max_size l = if ltb max_size (length l) then pop_back l else l

unfoldable pub suggest : ℕ → Ranked → List Ranked → Outcome (List Ranked)
unfolding insert_suggestion cut_suggestions
suggest max_size e [] = ok (e ∷ [])
suggest max_size e (x ∷ l) = insert_suggestion e (x ∷ l) >>= λ m. ok (cut_suggestions max_size m)

-- The loop over the nodes of one result.
unfoldable pub suggest_nodes : ℕ → Hash → List NodeRecord → List Ranked → Outcome (List Ranked)
suggest_nodes max_size key [] q = ok q
suggest_nodes max_size key (n ∷ l) q =
    suggest max_size (bit_distance key n.node_id, n) q >>= λ q'. suggest_nodes max_size key l q'

-- A file record goes to the end of the list for its key.
unfoldable pub add_result : FileInfo → List (Hash × List FileInfo) → List (Hash × List FileInfo)
add_result r [] = (r.key, r ∷ []) ∷ []
add_result r ((k, l) ∷ t) =
    if hash_eq k r.key then (k, l ++ r ∷ []) ∷ t else (k, l) ∷ add_result r t

unfoldable pub add_results :
    List FileInfo → List (Hash × List FileInfo) → List (Hash × List FileInfo)
unfolding add_result
add_results [] t = t
add_results (r ∷ l) t = add_results l (add_result r t)

-- One result of a batch.
unfoldable pub take_result : SearchType → SearchResult → SubSearch → Outcome SubSearch
unfolding suggest_nodes add_results
take_result type srm ss = do
  q ← suggest_nodes ss.next_nodes_queue_max_size ss.key srm.node_list ss.next_nodes_queue
  ok (record ss {
    next_nodes_queue = q;
    results = if is_key_search type then add_results srm.file_list ss.results else ss.results;
  })

unfoldable pub take_batch : SearchType → List SearchResult → SubSearch → Outcome SubSearch
unfolding take_result
take_batch type [] ss = ok ss
take_batch type (srm ∷ l) ss = take_result type srm ss >>= λ ss'. take_batch type l ss'
