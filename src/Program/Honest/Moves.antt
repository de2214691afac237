-- ===== src/Program/Honest/Moves.antt =====
-- What the starts of searches, the console's commands and the next id of a sub-search make of the
-- records in a node.
use spatter.Console.{Surroundings, query_separators, query_search, search_result, search_kill}
use spatter.Console.Share.{Moment, touch_results}
use spatter.Messages.Hash.{Hash, zero_hash}
use spatter.Messages.Search.{SearchType}
use spatter.Messages.Str.{Str}
use spatter.Search.Manager.{
  find_search, remove_search, take_master_id, start_hash_search, start_tokens, start_query_search,
}
use spatter.Search.SubSearches.{advance, new_sub_search, first_nodes, key_of}
use spatter.State.{State, Platform, Search, SubSearch}
use spatter.Prelude.{
  Option-cases, inl, inr, OnOk, OnOk-known, OnOk-chain, ℕ, refl, List, [], ◌∷◌, none, some, map,
  drop, find_id, assign, find_id-All, assign-All, erase_id-All, Outcome, ok, ◌>>=◌,
}
use spatter.Program.Honest.{GoodSub, GoodSubs, GoodSearch, IsHonest, lookup-All}
use spatter.Program.Honest.Messages.{IsHonest-same, assign-IsHonest}
use spatter.Program.Honest.Sharing.{touch_results-GoodSubs}
use spatter.Dht.{query}
use spatter.Messages.File.{FileInfo}

module _ (P : FileInfo → Type 0) where
  pub advance-IsHonest :
      {Text : Type 0} (p : Platform Text) (k id : ℕ) (sr : Search) (s : State Text)
      → GoodSearch P k sr
      → IsHonest p P s
      → OnOk (λ x. GoodSearch P k x.0 × IsHonest p P x.2) (advance id sr s)
  unfolding advance
  advance-IsHonest p k id sr s g v = elim (Option-cases (find_id id sr.sub_searches)) [
    | inl gone ↦ rw (advance, gone) tt
    | inr (ss, there) ↦
        rw (advance, there)
          (
            assign-All (GoodSub P) s.next_sub_search_id _ _
                (find_id-All (GoodSub P) id ss sr.sub_searches there g)
                (erase_id-All (GoodSub P) id sr.sub_searches g),
            IsHonest-same p P s _ refl refl refl v,
          )
  ]

module _ {Text : Type 0} (w : Surroundings Text) (P : FileInfo → Type 0) where
  new_sub_search-IsHonest :
      (now : ℕ) (token : Str) (h : Hash) (s : State Text)
      → IsHonest w.platform P s
      → OnOk
          (λ x. GoodSub P x.0.search_id x.0 × IsHonest w.platform P x.1)
          (new_sub_search w.tiger w.sort now token h s)
  unfolding new_sub_search query
  new_sub_search-IsHonest now token h s v =
      OnOk-known
        (λ (x : SubSearch × State Text). GoodSub P x.0.search_id x.0 × IsHonest w.platform P x.1)
        (first_nodes w.tiger w.sort s _) _
        (λ l e. (
          (tt, (lookup-All P (key_of w.tiger token h) s.hash_table v.table, tt)),
          IsHonest-same w.platform P s _ refl refl refl v,
        ))

  pub start_hash_search-IsHonest :
      (now : ℕ) (h : Hash) (type : SearchType) (s : State Text)
      → IsHonest w.platform P s
      → OnOk (λ x. IsHonest w.platform P x.1) (start_hash_search w.tiger w.sort now h type s)
  unfolding start_hash_search
  start_hash_search-IsHonest now h type s v =
      OnOk-chain
        (λ (x : SubSearch × State Text). GoodSub P x.0.search_id x.0 × IsHonest w.platform P x.1)
        (λ (x : ℕ × State Text). IsHonest w.platform P x.1)
        (new_sub_search w.tiger w.sort now [] h _) _
        (new_sub_search-IsHonest now [] h _ (IsHonest-same w.platform P s _ refl refl refl v))
        (λ x g. assign-IsHonest w.platform P s.next_master_search_id _ x.1 (g.0, tt) g.1)

  start_tokens-GoodSubs :
      (trim : Str → Str) (now : ℕ) (toks : List Str) (m : List (ℕ × SubSearch)) (s : State Text)
      → GoodSubs P m
      → IsHonest w.platform P s
      → OnOk
          (λ x. GoodSubs P x.0 × IsHonest w.platform P x.1)
          (start_tokens w.tiger w.sort trim now toks m s)
  unfolding start_tokens
  start_tokens-GoodSubs trim now [] m s g v = (g, v)
  start_tokens-GoodSubs trim now (tok ∷ toks) m s g v =
      elim (trim tok)
        as (λ x.
          OnOk
            (λ (y : List (ℕ × SubSearch) × State Text). GoodSubs P y.0 × IsHonest w.platform P y.1)
            (elim x as (λ y. Outcome (List (ℕ × SubSearch) × State Text)) [
              | [] ↦ start_tokens w.tiger w.sort trim now toks m s
              | c ∷ token ↦
                  new_sub_search w.tiger w.sort now (c ∷ token) zero_hash s >>= λ (ss, s').
                  start_tokens w.tiger w.sort trim now toks (assign ss.search_id ss m) s'
            ])) [
              | [] ↦ start_tokens-GoodSubs trim now toks m s g v
              | c ∷ token ↦
                  OnOk-chain
                    (λ (x : SubSearch × State Text).
                      GoodSub P x.0.search_id x.0 × IsHonest w.platform P x.1)
                    (λ (x : List (ℕ × SubSearch) × State Text).
                      GoodSubs P x.0 × IsHonest w.platform P x.1)
                    (new_sub_search w.tiger w.sort now (c ∷ token) zero_hash s) _
                    (new_sub_search-IsHonest now (c ∷ token) zero_hash s v)
                    (λ x f.
                      start_tokens-GoodSubs trim now toks _ x.1
                        (assign-All (GoodSub P) x.0.search_id x.0 m f.0 g) f.1)
            ]

  start_query_search-IsHonest :
      (tokenize : Str → List Str) (trim : Str → Str) (now : ℕ) (text : Str) (s : State Text)
      → IsHonest w.platform P s
      → OnOk
          (λ x. IsHonest w.platform P x.1)
          (start_query_search w.tiger w.sort tokenize trim now text s)
  unfolding start_query_search
  start_query_search-IsHonest tokenize trim now text s v =
      OnOk-chain
        (λ (x : List (ℕ × SubSearch) × State Text). GoodSubs P x.0 × IsHonest w.platform P x.1)
        (λ (x : ℕ × State Text). IsHonest w.platform P x.1)
        (start_tokens w.tiger w.sort trim now (tokenize text) [] _) _
        (start_tokens-GoodSubs trim now (tokenize text) [] (take_master_id s) tt
          (IsHonest-same w.platform P s _ refl refl refl v))
        (λ x g. assign-IsHonest w.platform P s.next_master_search_id _ x.1 g.0 g.1)

  pub query_search-IsHonest :
      (t : Moment Text) (command : Str) (s : State Text)
      → IsHonest w.platform P s
      → OnOk (IsHonest w.platform P) (query_search w t command s)
  unfolding query_search
  query_search-IsHonest t command s v =
      OnOk-chain (λ (x : ℕ × State Text). IsHonest w.platform P x.1) (IsHonest w.platform P)
        (start_query_search w.tiger w.sort (w.boost.tokenize query_separators) w.boost.trim
          (t.now 0) (drop 6 command) s)
        _
        (start_query_search-IsHonest (w.boost.tokenize query_separators) w.boost.trim (t.now 0)
          (drop 6 command) s v)
        (λ x g. g)

  -- A search that is found is shown.
  shown-IsHonest :
      (id : ℕ) (s : State Text)
      → IsHonest w.platform P s
      → OnOk (IsHonest w.platform P) (elim (find_search id s) [
        | none ↦ ok s
        | some sr ↦ ok (record s {
          searches =
              assign id
                (record sr {
                  sub_searches =
                      map (λ (e : ℕ × SubSearch). (e.0, touch_results e.1)) sr.sub_searches;
                })
                s.searches;
        })
      ])
  unfolding find_search
  shown-IsHonest id s v = elim (Option-cases (find_id id s.searches)) [
    | inl gone ↦ rw gone v
    | inr (sr, there) ↦
        let g = find_id-All (GoodSearch P) id sr s.searches there v.found in
        rw there
          (assign-IsHonest w.platform P id _ s (touch_results-GoodSubs P sr.sub_searches g) v)
  ]

  pub search_result-IsHonest :
      (args : List Str) (s : State Text)
      → IsHonest w.platform P s
      → OnOk (IsHonest w.platform P) (search_result w args s)
  unfolding search_result
  search_result-IsHonest [] s v = tt
  search_result-IsHonest (arg ∷ args) s v = elim (Option-cases (w.boost.lexical_cast 32 arg)) [
    | inl bad ↦ rw (search_result, bad) tt
    | inr (id, read) ↦ rw (search_result, read) (shown-IsHonest id s v)
  ]

  pub search_kill-IsHonest :
      (args : List Str) (s : State Text)
      → IsHonest w.platform P s
      → OnOk (IsHonest w.platform P) (search_kill w args s)
  unfolding search_kill remove_search
  search_kill-IsHonest [] s v = tt
  search_kill-IsHonest (arg ∷ args) s v = elim (Option-cases (w.boost.lexical_cast 32 arg)) [
    | inl bad ↦ rw (search_kill, bad) tt
    | inr (id, read) ↦
        rw (search_kill, read)
          (record {
            table = v.table;
            sent = v.sent;
            found = erase_id-All (GoodSearch P) id s.searches v.found;
          })
  ]
