-- ===== src/Console/Kill.antt =====
-- What `search_kill` of ui/console_ui.cpp leaves.
use spatter.Console.{Surroundings, search_kill}
use spatter.Messages.Search.{SearchResult}
use spatter.Messages.Str.{Str}
use spatter.Search.Manager.{find_search, remove_search, handle_search_result}
use spatter.State.{State}
use spatter.Prelude.{
  ℕ, ◌≡◌, ◌≢◌, refl, List, ◌∷◌, none, some, ok, erase_id, find_id, find_id-erase_id, ==_refl, ◌∙◌,
  arith,
}

not_found :
    {Text : Type 0} (srm : SearchResult) (s : State Text)
    → find_id srm.search_id s.searches ≡ none
    → handle_search_result srm s ≡ s
unfolding handle_search_result
not_found srm s h = rw (handle_search_result, h) refl

module _ {Text : Type 0} (w : Surroundings Text) where
  -- With an id for an argument `search_kill` succeeds, whether there is such a search or not: no
  -- search is found under the id, another id finds what it found before, and a result that comes
  -- in for the killed search changes nothing.
  pub search_kill_forgets :
      (arg : Str) (args : List Str) (id i : ℕ) (srm : SearchResult) (s : State Text)
      → w.boost.lexical_cast 32 arg ≡ some id
      → id ≢ i
      → srm.search_id ≡ id
      → (s' : State Text) × (search_kill w (arg ∷ args) s ≡ ok s')
        × (find_search id s' ≡ none)
        × (find_search i s' ≡ find_search i s)
        × (handle_search_result srm s' ≡ s')
  unfolding search_kill remove_search find_search
  search_kill_forgets arg args id i srm s cast other same =
      let s' : State Text = record s { searches = erase_id id s.searches } in
      let gone : find_id id (erase_id id s.searches) ≡ none =
        rw (find_id-erase_id id id s.searches, ==_refl id) refl in
      (
        s',
        rw (search_kill, cast) refl,
        gone,
        find_id-erase_id id i s.searches ∙ ground arith,
        not_found srm s' (rw same gone),
      )
