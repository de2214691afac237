-- ===== src/Search/Run.antt =====
-- `sub_search::run` of dht/protocol/search_manager.cpp as steps of its thread, with what other threads
-- do to it in between: responses that come in, a kill, and time that goes by. The sub-search is the
-- entry of its search's map under its id at the time.
pub mod Bounds
pub mod Rounds
pub mod Unkilled
use spatter.Messages.Search.{SearchResult}
use spatter.Search.SubSearches.{
  advance, ask_next_nodes, take_responses, give_up_search, add_response,
}
use spatter.Search.Suggestions.{take_batch}
use spatter.State.{State, Platform, Search, SubSearch, terminated}
use spatter.Prelude.{
  ℕ, ◌+◌, ◌≡◌, Bool, true, false, ◌&&◌, ◌||◌, not, List, Option, some, ltb, find_id, assign,
  Outcome, ok,
}

-- At the outer loop's test, at the inner loop's test, in the wait, with a batch taken, and at the end.
pub data Phase : Type 0 where
  outer inner waiting : Phase
  taken : List SearchResult → Phase
  finished : Phase

pub record Run (Text : Type 0) : Type 0 where
  pub phase : Phase
  pub id : ℕ
  pub search : Search
  pub state : State Text
  pub now : ℕ

-- `sub_search::start`: the thread begins at the first test of `run`.
abbrev pub start : {Text : Type 0} → ℕ → ℕ → Search → State Text → Run Text
start now id sr s = record { phase = outer; id = id; search = sr; state = s; now = now }

abbrev pub current : {Text : Type 0} → Run Text → Option SubSearch
current r = find_id r.id r.search.sub_searches

-- The object behind the pointer changes.
abbrev pub update : {Text : Type 0} → SubSearch → Run Text → Run Text
update ss r = record r {
  search = record r.search { sub_searches = assign r.id ss r.search.sub_searches };
}

module _ {Text : Type 0} (p : Platform Text) where
  pub data Step (r u : Run Text) : Type 0 where
    -- the outer loop ends
    stop :
        (ss : SubSearch)
        → r.phase ≡ outer
        → current r ≡ some ss
        → give_up_search ss || ss.kill_search ≡ true
        → u ≡ record (update (record ss { status = terminated }) r) { phase = finished }
        → Step r u
    -- a round starts
    round :
        (ss mid asked : SubSearch) (sr : Search) (id : ℕ) (s s' : State Text)
        → r.phase ≡ outer
        → current r ≡ some ss
        → give_up_search ss || ss.kill_search ≡ false
        → advance r.id r.search r.state ≡ ok (sr, id, s)
        → find_id id sr.sub_searches ≡ some mid
        → ask_next_nodes p sr mid s ≡ ok (asked, s')
        → u ≡ update asked (record r { phase = inner; id = id; search = sr; state = s' })
        → Step r u
    -- the inner loop ends
    leave :
        (ss : SubSearch)
        → r.phase ≡ inner
        → current r ≡ some ss
        → ltb r.now ss.next_deadline && not ss.kill_search ≡ false
        → u ≡ record r { phase = outer }
        → Step r u
    -- the inner loop goes on, to the wait
    wait :
        (ss : SubSearch)
        → r.phase ≡ inner
        → current r ≡ some ss
        → ltb r.now ss.next_deadline && not ss.kill_search ≡ true
        → u ≡ record r { phase = waiting }
        → Step r u
    -- the wait ends with no response
    time_out :
        (ss : SubSearch)
        → r.phase ≡ waiting
        → current r ≡ some ss
        → ss.response_queue_empty ≡ true
        → u ≡ record r { phase = inner }
        → Step r u
    -- the responses are taken
    take_all :
        (ss left : SubSearch) (batch : List SearchResult)
        → r.phase ≡ waiting
        → current r ≡ some ss
        → ss.response_queue_empty ≡ false
        → take_responses r.now ss ≡ (batch, left)
        → u ≡ record (update left r) { phase = taken batch }
        → Step r u
    -- a kill since then drops them
    break_off :
        (ss : SubSearch) (batch : List SearchResult)
        → r.phase ≡ taken batch
        → current r ≡ some ss
        → ss.kill_search ≡ true
        → u ≡ record r { phase = outer }
        → Step r u
    -- else they are worked through
    work :
        (ss after : SubSearch) (batch : List SearchResult)
        → r.phase ≡ taken batch
        → current r ≡ some ss
        → ss.kill_search ≡ false
        → take_batch r.search.type batch ss ≡ ok after
        → u ≡ record (update after r) { phase = inner }
        → Step r u
    -- other threads
    respond :
        (ss : SubSearch) (srm : SearchResult)
        → current r ≡ some ss
        → u ≡ update (add_response srm ss) r
        → Step r u
    kill :
        (ss : SubSearch)
        → current r ≡ some ss
        → u ≡ update (record ss { kill_search = true }) r
        → Step r u
    tick : u ≡ record r { now = r.now + 1 } → Step r u

  pub data Reach (r : Run Text) : Run Text → Type 0 where
    here : Reach r r
    next : {t u : Run Text} → Reach r t → Step t u → Reach r u
