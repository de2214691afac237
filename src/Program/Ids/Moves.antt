-- ===== src/Program/Ids/Moves.antt =====
-- What the starts of searches, the console's commands and the rounds of a sub-search make of the ids
-- of searches.
use spatter.Console.{Surroundings, query_separators, query_search, search_result, search_kill}
use spatter.Console.Share.{Moment, touch_results}
use spatter.Messages.Hash.{Hash, zero_hash}
use spatter.Messages.Search.{SearchResult, SearchType}
use spatter.Messages.Str.{Str}
use spatter.Program.Ids.{
  IsFiledSub, IsFiledSearch, AllFiled, IsFiled, assign-IsFiled, send_queries-IsFiled,
}
use spatter.Program.Ids.Sharing.{touch_results-AllFiled}
use spatter.Search.Manager.{
  find_search, remove_search, take_master_id, start_hash_search, start_tokens, start_query_search,
}
use spatter.Search.SubSearches.{advance, ask_next_nodes, send_queries, new_sub_search, first_nodes}
use spatter.Search.Suggestions.{take_batch, take_result, suggest_nodes}
use spatter.State.{State, Platform, Search, SubSearch}
use spatter.Prelude.{
  OnOk, OnOk-known, OnOk-chain, ℕ, ◌+◌, ◌%◌, ◌^◌, ◌<◌, refl, List, [], ◌∷◌, none, some, map, drop,
  find_id, assign, find_id-All, assign-All, erase_id-All, Option-cases, inl, inr, Outcome, ok,
  ◌>>=◌, arith,
}

wraps : (n : ℕ) → (n + 1) % 2 ^ 32 < 2 ^ 32
wraps n = omega arith

-- The next sub-search id is taken.
pub advance-IsFiled :
    {Text : Type 0} (k id : ℕ) (sr : Search) (s : State Text)
    → IsFiledSearch k sr
    → IsFiled s
    → OnOk (λ x. IsFiledSearch k x.0 × IsFiled x.2) (advance id sr s)
unfolding advance
advance-IsFiled k id sr s f v = elim (Option-cases (find_id id sr.sub_searches)) [
  | inl gone ↦ rw (advance, gone) tt
  | inr (ss, there) ↦
      rw (advance, there)
        (
          (
            f.0,
            f.1,
            assign-All IsFiledSub s.next_sub_search_id _ _ (refl, v.next_sub)
                (erase_id-All IsFiledSub id sr.sub_searches f.2),
          ),
          record {
            searches = v.searches;
            next_master = v.next_master;
            next_sub = wraps s.next_sub_search_id;
          },
        )
]

suggested-IsFiledSub :
    (type : SearchType) (i : ℕ) (srm : SearchResult) (ss : SubSearch)
    → IsFiledSub i ss
    → OnOk (IsFiledSub i) (take_result type srm ss)
unfolding take_result
suggested-IsFiledSub type i srm ss f =
    OnOk-known (IsFiledSub i)
      (suggest_nodes ss.next_nodes_queue_max_size ss.key srm.node_list ss.next_nodes_queue) _
      (λ q e. f)

pub take_batch-IsFiledSub :
    (type : SearchType) (i : ℕ) (l : List SearchResult) (ss : SubSearch)
    → IsFiledSub i ss
    → OnOk (IsFiledSub i) (take_batch type l ss)
unfolding take_batch
take_batch-IsFiledSub type i [] ss f = f
take_batch-IsFiledSub type i (srm ∷ l) ss f =
    OnOk-chain (IsFiledSub i) (IsFiledSub i) (take_result type srm ss) _
      (suggested-IsFiledSub type i srm ss f) (take_batch-IsFiledSub type i l)

pub ask_next_nodes-IsFiled :
    {Text : Type 0} (p : Platform Text) (sr : Search) (ss : SubSearch) (s : State Text) (i : ℕ)
    → IsFiledSub i ss
    → IsFiled s
    → OnOk (λ x. IsFiledSub i x.0 × IsFiled x.1) (ask_next_nodes p sr ss s)
unfolding ask_next_nodes
ask_next_nodes-IsFiled {Text} p sr ss s i f v =
    OnOk-chain IsFiled (λ (x : SubSearch × State Text). IsFiledSub i x.0 × IsFiled x.1)
      (send_queries p _ ss.next_nodes_queue s) _ (send_queries-IsFiled p _ ss.next_nodes_queue s v)
      (λ u w. (f, w))

module _ {Text : Type 0} (w : Surroundings Text) where
  new_sub_search-IsFiled :
      (now : ℕ) (token : Str) (h : Hash) (s : State Text)
      → IsFiled s
      → OnOk
          (λ x. IsFiledSub x.0.search_id x.0 × IsFiled x.1)
          (new_sub_search w.tiger w.sort now token h s)
  unfolding new_sub_search
  new_sub_search-IsFiled now token h s v =
      OnOk-known (λ (x : SubSearch × State Text). IsFiledSub x.0.search_id x.0 × IsFiled x.1)
        (first_nodes w.tiger w.sort s _) _
        (λ l e. (
          (refl, v.next_sub),
          record {
            searches = v.searches;
            next_master = v.next_master;
            next_sub = wraps s.next_sub_search_id;
          },
        ))

  take_master_id-IsFiled : (s : State Text) → IsFiled s → IsFiled (take_master_id s)
  take_master_id-IsFiled s v = record {
    searches = v.searches;
    next_master = wraps s.next_master_search_id;
    next_sub = v.next_sub;
  }

  pub start_hash_search-IsFiled :
      (now : ℕ) (h : Hash) (type : SearchType) (s : State Text)
      → IsFiled s
      → OnOk (λ x. IsFiled x.1) (start_hash_search w.tiger w.sort now h type s)
  unfolding start_hash_search
  start_hash_search-IsFiled now h type s v =
      OnOk-chain (λ (x : SubSearch × State Text). IsFiledSub x.0.search_id x.0 × IsFiled x.1)
        (λ (x : ℕ × State Text). IsFiled x.1) (new_sub_search w.tiger w.sort now [] h _) _
        (new_sub_search-IsFiled now [] h _ (take_master_id-IsFiled s v))
        (λ x f. assign-IsFiled s.next_master_search_id _ x.1 (refl, v.next_master, (f.0, tt)) f.1)

  start_tokens-AllFiled :
      (trim : Str → Str) (now : ℕ) (toks : List Str) (m : List (ℕ × SubSearch)) (s : State Text)
      → AllFiled m
      → IsFiled s
      → OnOk (λ x. AllFiled x.0 × IsFiled x.1) (start_tokens w.tiger w.sort trim now toks m s)
  unfolding start_tokens
  start_tokens-AllFiled trim now [] m s f v = (f, v)
  start_tokens-AllFiled trim now (tok ∷ toks) m s f v =
      elim (trim tok)
        as (λ x.
          OnOk (λ (y : List (ℕ × SubSearch) × State Text). AllFiled y.0 × IsFiled y.1)
            (elim x as (λ y. Outcome (List (ℕ × SubSearch) × State Text)) [
              | [] ↦ start_tokens w.tiger w.sort trim now toks m s
              | c ∷ token ↦
                  new_sub_search w.tiger w.sort now (c ∷ token) zero_hash s >>= λ (ss, s').
                  start_tokens w.tiger w.sort trim now toks (assign ss.search_id ss m) s'
            ])) [
              | [] ↦ start_tokens-AllFiled trim now toks m s f v
              | c ∷ token ↦
                  OnOk-chain
                    (λ (x : SubSearch × State Text). IsFiledSub x.0.search_id x.0 × IsFiled x.1)
                    (λ (x : List (ℕ × SubSearch) × State Text). AllFiled x.0 × IsFiled x.1)
                    (new_sub_search w.tiger w.sort now (c ∷ token) zero_hash s) _
                    (new_sub_search-IsFiled now (c ∷ token) zero_hash s v)
                    (λ x g.
                      start_tokens-AllFiled trim now toks _ x.1
                        (assign-All IsFiledSub x.0.search_id x.0 m g.0 f) g.1)
            ]

  start_query_search-IsFiled :
      (tokenize : Str → List Str) (trim : Str → Str) (now : ℕ) (text : Str) (s : State Text)
      → IsFiled s
      → OnOk (λ x. IsFiled x.1) (start_query_search w.tiger w.sort tokenize trim now text s)
  unfolding start_query_search
  start_query_search-IsFiled tokenize trim now text s v =
      OnOk-chain (λ (x : List (ℕ × SubSearch) × State Text). AllFiled x.0 × IsFiled x.1)
        (λ (x : ℕ × State Text). IsFiled x.1)
        (start_tokens w.tiger w.sort trim now (tokenize text) [] _) _
        (start_tokens-AllFiled trim now (tokenize text) [] (take_master_id s) tt
          (take_master_id-IsFiled s v))
        (λ x f. assign-IsFiled s.next_master_search_id _ x.1 (refl, v.next_master, f.0) f.1)

  pub query_search-IsFiled :
      (t : Moment Text) (command : Str) (s : State Text)
      → IsFiled s
      → OnOk IsFiled (query_search w t command s)
  unfolding query_search
  query_search-IsFiled t command s v =
      OnOk-chain (λ (x : ℕ × State Text). IsFiled x.1) IsFiled
        (start_query_search w.tiger w.sort (w.boost.tokenize query_separators) w.boost.trim
          (t.now 0) (drop 6 command) s)
        _
        (start_query_search-IsFiled (w.boost.tokenize query_separators) w.boost.trim (t.now 0)
          (drop 6 command) s v)
        (λ x f. f)

  -- A search that is found is shown.
  shown-IsFiled :
      (id : ℕ) (s : State Text)
      → IsFiled s
      → OnOk IsFiled (elim (find_search id s) [
        | none ↦ ok s
        | some sr ↦ ok (record s {
          searches =
              assign id
                (record sr {
                  sub_searches =
                      map (λ (e : ℕ × SubSearch). (e.0, touch_results e.1)) sr.sub_searches;
                })
                s.searches;
        })
      ])
  unfolding find_search
  shown-IsFiled id s v = elim (Option-cases (find_id id s.searches)) [
    | inl gone ↦ rw gone v
    | inr (sr, there) ↦
        let f = find_id-All IsFiledSearch id sr s.searches there v.searches in
        rw there (assign-IsFiled id _ s (f.0, f.1, touch_results-AllFiled sr.sub_searches f.2) v)
  ]

  pub search_result-IsFiled :
      (args : List Str) (s : State Text) → IsFiled s → OnOk IsFiled (search_result w args s)
  unfolding search_result
  search_result-IsFiled [] s v = tt
  search_result-IsFiled (arg ∷ args) s v = elim (Option-cases (w.boost.lexical_cast 32 arg)) [
    | inl bad ↦ rw (search_result, bad) tt
    | inr (id, read) ↦ rw (search_result, read) (shown-IsFiled id s v)
  ]

  pub search_kill-IsFiled :
      (args : List Str) (s : State Text) → IsFiled s → OnOk IsFiled (search_kill w args s)
  unfolding search_kill remove_search
  search_kill-IsFiled [] s v = tt
  search_kill-IsFiled (arg ∷ args) s v = elim (Option-cases (w.boost.lexical_cast 32 arg)) [
    | inl bad ↦ rw (search_kill, bad) tt
    | inr (id, read) ↦
        rw (search_kill, read)
          (record {
            searches = erase_id-All IsFiledSearch id s.searches v.searches;
            next_master = v.next_master;
            next_sub = v.next_sub;
          })
  ]
