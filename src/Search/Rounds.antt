-- ===== src/Search/Rounds.antt =====
-- The rounds of a sub-search and the results that come in for them,
-- dht/protocol/search_manager.cpp.
use spatter.Messages.Search.{SearchResult}
use spatter.Search.SubSearches.{advance, add_response}
use spatter.Search.Manager.{handle_search_result}
use spatter.State.{State, Search, SubSearch}
use spatter.Prelude.{
  ℕ, ◌+◌, ◌%◌, ◌^◌, ◌≡◌, refl, false, [], ◌∷◌, ◌++◌, none, some, ◌==◌, ==_refl, if◌then◌else◌,
  find_id, assign, erase_id, find_id-assign, find_id-erase_id, ok,
}

-- For a sub-search that is registered under its id, `advance` succeeds: it is registered under the next
-- id off the counter instead, with one more hop and nothing else changed. What the other ids lead to
-- stays, and the counter goes on, modulo 2 ^ 32.
pub advance_lem :
    {Text : Type 0} (id : ℕ) (sr : Search) (ss : SubSearch) (s : State Text) (i : ℕ)
    → find_id id sr.sub_searches ≡ some ss
    → (sr' : Search) × (s' : State Text) × (advance id sr s ≡ ok (sr', s.next_sub_search_id, s'))
      × (find_id i sr'.sub_searches ≡ (
          if s.next_sub_search_id == i
          then some (record ss { search_id = s.next_sub_search_id; hops = ss.hops + 1 })
          else (if id == i then none else find_id i sr.sub_searches)))
      × (s'.next_sub_search_id ≡ (s.next_sub_search_id + 1) % 2 ^ 32)
unfolding advance
advance_lem id sr ss s i e =
    let next : SubSearch = record ss { search_id = s.next_sub_search_id; hops = ss.hops + 1 } in
    (
      record sr { sub_searches = assign s.next_sub_search_id next (erase_id id sr.sub_searches) },
      record s { next_sub_search_id = (s.next_sub_search_id + 1) % 2 ^ 32 },
      rw (e, advance),
      rw (
        find_id-assign s.next_sub_search_id i next (erase_id id sr.sub_searches),
        find_id-erase_id id i sr.sub_searches,
      ),
      refl,
    )

add_response_alive :
    (srm : SearchResult) (ss : SubSearch)
    → ss.kill_search ≡ false
    → add_response srm ss
      ≡ record ss { responses = ss.responses ++ srm ∷ []; response_queue_empty = false }
unfolding add_response
add_response_alive srm ss alive = rw alive

-- A result for the round that is on joins the responses of its sub-search, behind those that wait,
-- unless the sub-search has been killed. The search's type stays.
pub result_delivered :
    {Text : Type 0} (sr : Search) (ss : SubSearch) (t : State Text) (srm : SearchResult)
    → find_id srm.search_id t.searches ≡ some sr
    → find_id srm.sub_search_id sr.sub_searches ≡ some ss
    → ss.kill_search ≡ false
    → (sr' : Search) × (find_id srm.search_id (handle_search_result srm t).searches ≡ some sr')
      × (sr'.type ≡ sr.type)
      × (find_id srm.sub_search_id sr'.sub_searches
          ≡ some (record ss { responses = ss.responses ++ srm ∷ []; response_queue_empty = false }))
unfolding handle_search_result
result_delivered sr ss t srm e f alive =
    let ss' : SubSearch = record ss {
      responses = ss.responses ++ srm ∷ [];
      response_queue_empty = false;
    } in
    let sr' : Search = record sr { sub_searches = assign srm.sub_search_id ss' sr.sub_searches } in
    (
      sr',
      rw (e, handle_search_result, f, add_response_alive srm ss alive)
          (rw (find_id-assign srm.search_id srm.search_id sr' t.searches, ==_refl srm.search_id)),
      refl,
      rw (
        find_id-assign srm.sub_search_id srm.sub_search_id ss' sr.sub_searches,
        ==_refl srm.sub_search_id,
      ),
    )
