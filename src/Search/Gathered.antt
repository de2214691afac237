-- ===== src/Search/Gathered.antt =====
-- The results of a sub-search by key, dht/protocol/search_manager.cpp, as the file records of an
-- answer are added to them.
use spatter.Dht.Records.{Keyed, IsTable}
use spatter.Dht.Table.{HashTable, find, lookup}
use spatter.Messages.Hash.{Hash, hash_eq, hash_eq_left, hash_eq_symm}
use spatter.Messages.File.{FileInfo}
use spatter.Messages.Search.{SearchResult, SearchType, is_key_search}
use spatter.NodeQueue.Buckets.{DistinctNodes}
use spatter.Search.Fresh.{suggest_nodes_distinct}
use spatter.Search.SubSearches.{take_responses}
use spatter.Search.Suggestions.{add_result, add_results, take_batch, take_result}
use spatter.State.{SubSearch}
use spatter.Prelude.{
  ℕ, ◌<◌, ◌≡◌, refl, ok, sym, ◌∙◌, true, List, [], ◌∷◌, ◌++◌, append-nil, append_assoc, ap,
  Bool-cases, inl, inr, arith,
}

-- A record joins the list of its key.
lookup-add_result :
    (h : Hash) (r : FileInfo) (t : HashTable)
    → hash_eq r.key h ≡ true
    → lookup h (add_result r t) ≡ lookup h t ++ r ∷ []
unfolding lookup find add_result
lookup-add_result h r [] e = rw e refl
lookup-add_result h r ((k, l) ∷ t) e = ground (
  arith,
  lookup-add_result h r t e,
  hash_eq_left k r.key h,
  hash_eq_left r.key h k,
  hash_eq_symm k r.key,
  hash_eq_symm h k,
)

-- The records of an answer for one key stand behind those that are there, in their order.
pub lookup-add_results :
    (h : Hash) (l : List FileInfo) (t : HashTable)
    → Keyed h l
    → lookup h (add_results l t) ≡ lookup h t ++ l
unfolding add_results
lookup-add_results h [] t k = sym (append-nil (lookup h t))
lookup-add_results h (r ∷ l) t k =
    lookup-add_results h l (add_result r t) k.1
    ∙ (ap (λ m. m ++ l) (lookup-add_result h r t k.0) ∙ append_assoc (lookup h t) (r ∷ []) l)

Keyed-same : (k h : Hash) (l : List FileInfo) → hash_eq k h ≡ true → Keyed k l → Keyed h l
Keyed-same k h [] e v = tt
Keyed-same k h (x ∷ l) e v = (hash_eq_left x.key k h v.0 ∙ e, Keyed-same k h l e v.1)

-- What a well-formed table answers are records of the key that was asked for.
pub lookup-Keyed : (h : Hash) (t : HashTable) → IsTable t → Keyed h (lookup h t)
unfolding lookup find
lookup-Keyed h [] v = tt
lookup-Keyed h ((k, l) ∷ t) v = elim (Bool-cases (hash_eq k h)) [
  | inl same ↦ rw same (Keyed-same k h l same v.0)
  | inr other ↦ rw other (lookup-Keyed h t v.2)
]

-- The only answer that waits is worked through, with an empty queue: its records of the sub-search's
-- key stand behind those that are there.
pub answer_worked :
    (now : ℕ) (type : SearchType) (srm : SearchResult) (ss : SubSearch)
    → is_key_search type ≡ true
    → ss.responses ≡ srm ∷ []
    → ss.next_nodes_queue ≡ []
    → 0 < ss.next_nodes_queue_max_size
    → DistinctNodes srm.node_list
    → Keyed ss.key srm.file_list
    → (after : SubSearch) × (take_batch type (take_responses now ss).0 (take_responses now ss).1
        ≡ ok after)
      × (lookup ss.key after.results ≡ lookup ss.key ss.results ++ srm.file_list)
unfolding take_batch take_result take_responses
answer_worked now type srm ss k waits empty pos d keyed =
    let (q, taken) =
      suggest_nodes_distinct ss.next_nodes_queue_max_size ss.key srm.node_list pos d in
    (
      record (take_responses now ss).1 {
        next_nodes_queue = q;
        results = add_results srm.file_list ss.results;
      },
      rw (waits, empty, taken, k) refl,
      lookup-add_results ss.key srm.file_list ss.results keyed,
    )
