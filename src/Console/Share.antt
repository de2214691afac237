-- ===== src/Console/Share.antt =====
-- The command `share` of ui/console_ui.cpp. The file's record has two fields that its constructor
-- does not set: what they hold is an argument.
pub mod Kept
use spatter.Messages.Hash.{Hash, hash_eq}
use spatter.Messages.Str.{Str}
use spatter.Messages.File.{FileInfo, file, PublishMessage}
use spatter.Messages.Node.{NodeRecord}
use spatter.Messages.Search.{node_search}
use spatter.Messages.Archive.{Message, serialize_message}
use spatter.Dht.{insert_file_info_record}
use spatter.Search.SubSearches.{send_queries, max_hops}
use spatter.Search.Manager.{start_hash_search, find_search}
use spatter.State.{State, Platform, Search, SubSearch, Ranked}
use spatter.Prelude.{
  ℕ, ◌+◌, Bool, true, false, ◌&&◌, ◌||◌, List, [], ◌∷◌, ◌++◌, map, any, none, some, ltb, leb,
  length, take, if◌then◌else◌, assign, Outcome, ok, fault, endless, ◌>>=◌,
}

abbrev pub publish_redundancy : ℕ
publish_redundancy = 1

-- `operator<` of pairs in namespace `std`.
unfoldable pub ranked_lt : Ranked → Ranked → Bool
ranked_lt a b = ltb a.0 b.0

-- `pq.sort()`, which keeps the order of those that are equal.
unfoldable pub insert_ranked : Ranked → List Ranked → List Ranked
unfolding ranked_lt
insert_ranked e [] = e ∷ []
insert_ranked e (x ∷ l) = if ranked_lt x e then x ∷ insert_ranked e l else e ∷ x ∷ l

unfoldable pub sort_ranked : List Ranked → List Ranked
unfolding insert_ranked
sort_ranked [] = []
sort_ranked (e ∷ l) = insert_ranked e (sort_ranked l)

-- `results[key]`, which puts an empty list there if there is none.
unfoldable pub touch_results : SubSearch → SubSearch
touch_results ss =
    if any (λ e. hash_eq e.0 ss.key) ss.results
    then ss
    else record ss { results = ss.results ++ (ss.key, []) ∷ [] }

-- The loop over the sub-searches: are all queues empty, and `done` from what it was.
unfoldable pub queues_empty : List (ℕ × SubSearch) → Bool
queues_empty [] = true
queues_empty ((i, ss) ∷ m) = leb (length ss.next_nodes_queue) 0 && queues_empty m

unfoldable pub hops_done : Bool → List (ℕ × SubSearch) → Bool
hops_done done [] = done
hops_done done ((i, ss) ∷ m) = hops_done (done && leb max_hops ss.hops) m

abbrev pub shared_file_info : Hash → NodeRecord → Str → ℕ → ℕ → FileInfo
shared_file_info key node path owner_publish_ts valid_till = record {
  key = key;
  node = node;
  path = path;
  size = 4;
  type = file;
  mod_ts = 0;
  owner_publish_ts = owner_publish_ts;
  valid_till = valid_till;
}

-- What a command takes from outside while it runs, the first three for each token of a path: the time,
-- the fields of the file's record that are not set, what the other threads do in each second that
-- `share` sleeps, and what they do while the next line is read.
pub record Moment (Text : Type 0) : Type 0 where
  pub now : ℕ → ℕ
  pub owner_publish_ts : ℕ → ℕ
  pub valid_till : ℕ → ℕ
  pub others : ℕ → List (State Text → State Text)
  pub meanwhile : State Text → State Text

module _ {Text : Type 0} (p : Platform Text) where
  -- The message goes to the first nodes of each sub-search's sorted `pq`.
  unfoldable pub publish_to :
      PublishMessage
      → List (ℕ × SubSearch)
      → State Text
      → Outcome (List (ℕ × SubSearch) × State Text)
  unfolding send_queries sort_ranked
  publish_to pm [] s = ok ([], s)
  publish_to pm ((i, ss) ∷ m) s = do
    let sorted = sort_ranked ss.pq
    s' ←
        send_queries p (serialize_message p.archive (Message.publish pm))
          (take publish_redundancy sorted) s
    (m', s'') ← publish_to pm m s'
    ok ((i, record ss { pq = sorted }) ∷ m', s'')

  -- What is done with a search that has been found; the result says whether the loop ends.
  unfoldable pub share_found : ℕ → FileInfo → Search → State Text → Outcome (Bool × State Text)
  unfolding publish_to queues_empty hops_done touch_results
  share_found id info sr s =
      let subs = map (λ (e : ℕ × SubSearch). (e.0, touch_results e.1)) sr.sub_searches in
      let done = hops_done false subs in
      if done || queues_empty subs
      then (do
        (subs', s') ← publish_to (record { file_info = info }) subs s
        let sr' : Search = record sr { sub_searches = subs' }
        ok (
          true,
          record s' {
            searches = assign id sr' s'.searches;
            dht = insert_file_info_record s'.dht info;
          },
        ))
      else ok
          (false, record s { searches = assign id (record sr { sub_searches = subs }) s.searches })

  -- One round of the loop: `break` where the search is gone, and else the sleep at its end.
  unfoldable pub share_round :
      ℕ → FileInfo → (State Text → State Text) → State Text → Outcome (Bool × State Text)
  unfolding share_found
  share_round id info others s = elim (find_search id s) [
    | none ↦ ok (true, s)
    | some sr ↦ share_found id info sr s >>= λ (done, s'). ok (done, others s')
  ]

  -- The loop, for as many rounds as there are seconds given.
  unfoldable pub share_loop :
      ℕ → FileInfo → List (State Text → State Text) → State Text → Outcome (State Text)
  unfolding share_round
  share_loop id info [] s = fault endless
  share_loop id info (others ∷ later) s = share_round id info others s >>= λ (done, s'). elim done [
    | true ↦ ok s'
    | false ↦ share_loop id info later s'
  ]

  module _ (tiger : Str → Hash) (sort : List NodeRecord → List NodeRecord) where
    -- The loop over the tokens of the path, from the `i`-th on.
    unfoldable pub share_tokens :
        Str → Moment Text → ℕ → List Str → State Text → Outcome (State Text)
    unfolding share_loop
    share_tokens path w i [] s = ok s
    share_tokens path w i ([] ∷ toks) s = share_tokens path w (i + 1) toks s
    share_tokens path w i ((c ∷ t) ∷ toks) s = do
      let tok = c ∷ t
      (id, s') ← start_hash_search tiger sort (w.now i) (tiger tok) node_search s
      let info =
          shared_file_info (tiger tok) s'.this_node path (w.owner_publish_ts i) (w.valid_till i)
      s'' ← share_loop id info (w.others i) s'
      share_tokens path w (i + 1) toks s''
