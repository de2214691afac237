-- ===== src/Program.antt =====
-- The whole program after its start: the threads that receive, the threads of the sub-searches and the
-- console's thread take turns on one state. Each step is one operation of a thread that ends well; a wait
-- of `share` is the time between two of its rounds. A search that `search_kill` takes out of the map
-- stays with its threads, which go on.
pub mod Invariant
pub mod Exchange
pub mod Honest
pub mod Network
pub mod Loose
pub mod Killed
pub mod Ids
pub mod Session
use spatter.Boost.{Boost}
use spatter.Console.{Surroundings, query_search, search_result, search_kill}
use spatter.Console.Share.{Moment, share_round}
use spatter.Control.Handle.{handle_receive_from}
use spatter.Main.{Host}
use spatter.Messages.Archive.{Packet}
use spatter.Messages.File.{FileInfo}
use spatter.Messages.Hash.{Hash}
use spatter.Messages.Node.{NodeRecord}
use spatter.Messages.Search.{node_search, SearchResult}
use spatter.Messages.Str.{Str}
use spatter.NodeQueue.{ping_all}
use spatter.Search.Manager.{start_hash_search, find_search, register}
use spatter.Search.SubSearches.{advance, ask_next_nodes, take_responses}
use spatter.Search.Suggestions.{take_batch}
use spatter.State.{State, Search, SubSearch, Ranked, terminated}
use spatter.Prelude.{
  ◌∷◌, none, length, ℕ, ◌≡◌, Bool, List, Option, some, find_id, assign, Outcome, ok,
}

abbrev pub surroundings :
    {Text : Type 0} → Host Text → (List NodeRecord → List NodeRecord) → Surroundings Text
surroundings h sort = record {
  boost = h.boost;
  platform = h.platform;
  tiger = h.tiger;
  sort = sort;
}

-- The object behind a sub-search's pointer changes.
abbrev pub put : {Text : Type 0} → ℕ → SubSearch → Search → State Text → State Text
put id ss sr s = register (record sr { sub_searches = assign id ss sr.sub_searches }) s

-- A node's state, with the searches that have gone from the map `searches` and that the threads of
-- their sub-searches still hold by `master_search`, under numbers.
pub record World (Text : Type 0) : Type 0 where
  pub node : State Text
  pub loose : List (ℕ × Search)

-- Where the search of a thread is.
pub data Place : Type 0 where
  registered : ℕ → Place
  removed : ℕ → Place

abbrev pub held : {Text : Type 0} → Place → World Text → Option Search
held (registered id) x = find_search id x.node
held (removed k) x = find_id k x.loose

abbrev pub put_at : {Text : Type 0} → Place → ℕ → SubSearch → Search → World Text → World Text
put_at (registered master) id ss sr x = record x { node = put id ss sr x.node }
put_at (removed k) id ss sr x = record x {
  loose = assign k (record sr { sub_searches = assign id ss sr.sub_searches }) x.loose;
}

abbrev pub one_more : Option Search → List (ℕ × Search) → List (ℕ × Search)
one_more none loose = loose
one_more (some sr) loose = (length loose, sr) ∷ loose

-- The searches out of the map, once another search or none is under the id.
abbrev pub left_over : {Text : Type 0} → ℕ → World Text → List (ℕ × Search)
left_over id x = one_more (find_search id x.node) x.loose

module _ {Text : Type 0} (w : Surroundings Text) where
  pub data Step (x y : World Text) : Type 0 where
    -- a receive has completed
    receive :
        (now : ℕ) (error : Bool) (received : Option (Packet Text))
        → handle_receive_from w.platform now error received x.node ≡ ok y.node
        → y.loose ≡ x.loose
        → Step x y
    -- `ping_all`
    greet : (now : ℕ) → ping_all w.platform now x.node ≡ ok y.node → y.loose ≡ x.loose → Step x y
    -- the console: `share` starts a search for a token, or goes round its loop
    look :
        (now id : ℕ) (tok : Str)
        → start_hash_search w.tiger w.sort now (w.tiger tok) node_search x.node ≡ ok (id, y.node)
        → y.loose ≡ left_over x.node.next_master_search_id x
        → Step x y
    publish :
        (id : ℕ) (info : FileInfo) (done : Bool)
        → share_round w.platform id info (λ x. x) x.node ≡ ok (done, y.node)
        → y.loose ≡ x.loose
        → Step x y
    -- the console's other commands
    ask :
        (t : Moment Text) (command : Str)
        → query_search w t command x.node ≡ ok y.node
        → y.loose ≡ left_over x.node.next_master_search_id x
        → Step x y
    show :
        (args : List Str) → search_result w args x.node ≡ ok y.node → y.loose ≡ x.loose → Step x y
    forget :
        (id : ℕ) (arg : Str) (args : List Str)
        → w.boost.lexical_cast 32 arg ≡ some id
        → search_kill w (arg ∷ args) x.node ≡ ok y.node
        → y.loose ≡ left_over id x
        → Step x y
    -- the thread of a sub-search, whether its search is in the map or not: a round starts
    round :
        (at : Place) (id id' : ℕ) (sr sr' : Search) (ss asked : SubSearch) (s1 s2 : State Text)
        → held at x ≡ some sr
        → advance id sr x.node ≡ ok (sr', id', s1)
        → find_id id' sr'.sub_searches ≡ some ss
        → ask_next_nodes w.platform sr' ss s1 ≡ ok (asked, s2)
        → y ≡ put_at at id' asked sr' (record x { node = s2 })
        → Step x y
    -- the responses are taken and worked through
    digest :
        (at : Place) (id now : ℕ) (sr : Search) (ss left after : SubSearch)
        (batch : List SearchResult)
        → held at x ≡ some sr
        → find_id id sr.sub_searches ≡ some ss
        → take_responses now ss ≡ (batch, left)
        → take_batch sr.type batch left ≡ ok after
        → y ≡ put_at at id after sr x
        → Step x y
    -- it ends
    stop :
        (at : Place) (id : ℕ) (sr : Search) (ss : SubSearch)
        → held at x ≡ some sr
        → find_id id sr.sub_searches ≡ some ss
        → y ≡ put_at at id (record ss { status = terminated }) sr x
        → Step x y

  pub data Reach (x : World Text) : World Text → Type 0 where
    here : Reach x x
    next : {y z : World Text} → Reach x y → Step y z → Reach x z
