-- ===== src/Program/Honest/Results.antt =====
-- What working through the answers of a batch makes of the records in a sub-search.
use spatter.Messages.Hash.{Hash}
use spatter.Messages.Search.{SearchResult, SearchType}
use spatter.Search.SubSearches.{take_responses}
use spatter.Search.Suggestions.{take_batch, take_result, suggest_nodes}
use spatter.State.{SubSearch}
use spatter.Prelude.{
  Bool, true, false, All, All-snoc, Bool-cases, inl, inr, OnOk, OnOk-known, OnOk-chain, ℕ, List, [],
  ◌∷◌, if◌then◌else◌,
}
use spatter.Program.Honest.{GoodTable, GoodSub}
use spatter.Search.Suggestions.{add_result, add_results}
use spatter.Messages.Search.{is_key_search}
use spatter.Messages.File.{FileInfo}
use spatter.Messages.Hash.{hash_eq}

module _ (P : FileInfo → Type 0) where
  add_result-GoodTable :
      (r : FileInfo) (t : List (Hash × List FileInfo))
      → P r
      → GoodTable P t
      → GoodTable P (add_result r t)
  unfolding add_result
  add_result-GoodTable r [] g v = ((g, tt), tt)
  add_result-GoodTable r ((k, l) ∷ t) g v = elim (Bool-cases (hash_eq k r.key)) [
    | inl same ↦ rw same (All-snoc P r l v.0 g, v.1)
    | inr other ↦ rw other (v.0, add_result-GoodTable r t g v.1)
  ]

  add_results-GoodTable :
      (l : List FileInfo) (t : List (Hash × List FileInfo))
      → All P l
      → GoodTable P t
      → GoodTable P (add_results l t)
  unfolding add_results
  add_results-GoodTable [] t g v = v
  add_results-GoodTable (r ∷ l) t g v =
      add_results-GoodTable l (add_result r t) g.1 (add_result-GoodTable r t g.0 v)

  kept_or_added :
      (b : Bool) (l : List FileInfo) (t : List (Hash × List FileInfo))
      → All P l
      → GoodTable P t
      → GoodTable P (if b then add_results l t else t)
  kept_or_added true l t g v = add_results-GoodTable l t g v
  kept_or_added false l t g v = v

  take_result-GoodSub :
      (type : SearchType) (i : ℕ) (srm : SearchResult) (ss : SubSearch)
      → All P srm.file_list
      → GoodSub P i ss
      → OnOk (GoodSub P i) (take_result type srm ss)
  unfolding take_result
  take_result-GoodSub type i srm ss g v =
      OnOk-known (GoodSub P i)
        (suggest_nodes ss.next_nodes_queue_max_size ss.key srm.node_list ss.next_nodes_queue) _
        (λ q e. (v.0, kept_or_added (is_key_search type) srm.file_list ss.results g v.1))

  pub take_batch-GoodSub :
      (type : SearchType) (i : ℕ) (l : List SearchResult) (ss : SubSearch)
      → All (λ (x : SearchResult). All P x.file_list) l
      → GoodSub P i ss
      → OnOk (GoodSub P i) (take_batch type l ss)
  unfolding take_batch
  take_batch-GoodSub type i [] ss g v = v
  take_batch-GoodSub type i (srm ∷ l) ss g v =
      OnOk-chain (GoodSub P i) (GoodSub P i) (take_result type srm ss) _
        (take_result-GoodSub type i srm ss g.0 v) (λ ss' v'. take_batch-GoodSub type i l ss' g.1 v')

  pub take_responses-GoodSub :
      (now i : ℕ) (ss : SubSearch)
      → GoodSub P i ss
      → All (λ (x : SearchResult). All P x.file_list) (take_responses now ss).0
        × GoodSub P i (take_responses now ss).1
  unfolding take_responses
  take_responses-GoodSub now i ss v = (v.0, (tt, v.1))
