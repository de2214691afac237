-- ===== src/Program/Ids/Reaching.antt =====
-- The ids of searches at every point of the whole program.
use spatter.Config.{Config, is_comment}
use spatter.Config.Friends.{blanks, friend_node, load_friends}
use spatter.Console.{Surroundings}
use spatter.Control.Send.{create}
use spatter.Main.{Host, open_control, start_up}
use spatter.Main.Startup.{after_start}
use spatter.Messages.Hash.{hash_bytes}
use spatter.Messages.Str.{Str}
use spatter.NodeQueue.{mark_seen}
use spatter.Program.{
  World, Place, registered, removed, held, put_at, left_over, Step, receive, greet, look, publish,
  ask, show, forget, round, digest, stop, Reach, here, next,
}
use spatter.Program.Ids.{
  IsFiledSub, IsFiledSearch, AllFiled, IsFiled, IsFiled-same, assign-IsFiled, mark_seen-IsFiled,
  ping_all-IsFiled,
}
use spatter.Program.Loose.{left_over-All}
use spatter.Program.Ids.Messages.{handle_receive_from-IsFiled}
use spatter.Program.Ids.Moves.{
  advance-IsFiled, take_batch-IsFiledSub, ask_next_nodes-IsFiled, start_hash_search-IsFiled,
  query_search-IsFiled, search_result-IsFiled, search_kill-IsFiled,
}
use spatter.Program.Ids.Sharing.{share_round-IsFiled}
use spatter.Search.Manager.{find_search}
use spatter.Search.SubSearches.{take_responses}
use spatter.State.{State, Search, SubSearch}
use spatter.Prelude.{
  some, All, ◌<◌, ◌^◌, OnOk, OnOk-if, OnOk-known, OnOk-ok, OnOk-chain, ℕ, ◌+◌, ◌≡◌, refl, ap, List,
  [], ◌∷◌, assign, find_id-All, assign-All, ok, arith,
}

module _ {Text : Type 0} (h : Host Text) where
  load_friends-IsFiled :
      (i : ℕ) (lines : List Str) (s : State Text)
      → IsFiled s
      → OnOk IsFiled (load_friends h.boost h.platform h.now h.rand i lines s)
  unfolding load_friends
  load_friends-IsFiled i [] s v = v
  load_friends-IsFiled i (text ∷ lines) s v =
      OnOk-if IsFiled (is_comment (h.boost.trim text)) _ _ (load_friends-IsFiled i lines s v) (
        OnOk-known IsFiled
          (friend_node h.boost h.platform h.now h.rand i (h.boost.split blanks (h.boost.trim text)))
          _
          (λ n e.
            OnOk-chain IsFiled IsFiled (mark_seen h.platform h.now n s) _
              (mark_seen-IsFiled h.platform h.now n s v)
              (load_friends-IsFiled (i + hash_bytes) lines)))

  open_control_searches :
      (c : Config) (s : State Text)
      → ((open_control h c s).1.searches ≡ s.searches)
        × ((open_control h c s).1.next_master_search_id ≡ s.next_master_search_id)
        × ((open_control h c s).1.next_sub_search_id ≡ s.next_sub_search_id)
  unfolding open_control create
  open_control_searches c s = ground arith

  -- A start has no searches yet, and its counters at 0.
  start_up-IsFiled : (c c' : Config) (s : State Text) → start_up h c ≡ ok (c', s) → IsFiled s
  start_up-IsFiled c c' s e =
      OnOk-ok (λ x. IsFiled x.1) (start_up h c) (c', s) e
        (after_start h IsFiled IsFiled c
          (λ ip port. record { searches = tt; next_master = omega arith; next_sub = omega arith })
          (λ i lines u v. load_friends-IsFiled i lines u v)
          (λ c2 u u' v pinged.
            let (a, m, n) = open_control_searches c2 u in
            OnOk-ok IsFiled _ u' pinged (
              ping_all-IsFiled h.platform h.now (open_control h c2 u).1
                (IsFiled-same u _ a m n v))))

module _ {Text : Type 0} (w : Surroundings Text) where
  -- The searches that have gone from the map have ids within 32 bits, and their sub-searches stand
  -- under theirs.
  abbrev pub IsLoose : Search → Type 0
  IsLoose sr = (sr.master_search_id < 2 ^ 32) × AllFiled sr.sub_searches

  pub record IsFiledWorld (x : World Text) : Type 0 where
    pub node : IsFiled x.node
    pub loose : All (λ (e : ℕ × Search). IsLoose e.1) x.loose

  loosened : (k : ℕ) (sr : Search) → IsFiledSearch k sr → IsLoose sr
  loosened k sr f = (rw f.0 f.1, f.2)

  held-IsLoose :
      (at : Place) (sr : Search) (x : World Text)
      → held at x ≡ some sr
      → IsFiledWorld x
      → IsLoose sr
  unfolding find_search
  held-IsLoose (registered id) sr x f v =
      loosened id sr (find_id-All IsFiledSearch id sr x.node.searches f v.node.searches)
  held-IsLoose (removed k) sr x f v = find_id-All (λ i t. IsLoose t) k sr x.loose f v.loose

  put_at-IsFiled :
      (at : Place) (i : ℕ) (ss : SubSearch) (sr : Search) (x : World Text)
      → IsLoose sr
      → IsFiledSub i ss
      → IsFiledWorld x
      → IsFiledWorld (put_at at i ss sr x)
  put_at-IsFiled (registered master) i ss sr x f g v =
      let changed : Search = record sr { sub_searches = assign i ss sr.sub_searches } in
      record {
        node =
            assign-IsFiled sr.master_search_id changed x.node
              (refl, f.0, assign-All IsFiledSub i ss sr.sub_searches g f.1) v.node;
        loose = v.loose;
      }
  put_at-IsFiled (removed k) i ss sr x f g v =
      let changed : Search = record sr { sub_searches = assign i ss sr.sub_searches } in
      record {
        node = v.node;
        loose =
            assign-All (λ j t. IsLoose t) k changed x.loose
              (f.0, assign-All IsFiledSub i ss sr.sub_searches g f.1) v.loose;
      }

  same_loose :
      (x y : World Text) → IsFiledWorld x → y.loose ≡ x.loose → IsFiled y.node → IsFiledWorld y
  same_loose x y v l n = record { node = n; loose = rw l v.loose }

  one_more_loose :
      (id : ℕ) (x y : World Text)
      → IsFiledWorld x
      → y.loose ≡ left_over id x
      → IsFiled y.node
      → IsFiledWorld y
  one_more_loose id x y v l n = record {
    node = n;
    loose = rw l (left_over-All IsFiledSearch IsLoose id x loosened v.node.searches v.loose);
  }

  Step-IsFiled : (x y : World Text) → Step w x y → IsFiledWorld x → IsFiledWorld y
  Step-IsFiled x y (receive now error received e l) v = same_loose x y v l (
      OnOk-ok IsFiled _ y.node e
        (handle_receive_from-IsFiled w.platform now error received x.node v.node))
  Step-IsFiled x y (greet now e l) v =
      same_loose x y v l
        (OnOk-ok IsFiled _ y.node e (ping_all-IsFiled w.platform now x.node v.node))
  Step-IsFiled x y (look now id tok e l) v = one_more_loose _ x y v l (
      OnOk-ok (λ z. IsFiled z.1) _ (id, y.node) e
        (start_hash_search-IsFiled w now _ _ x.node v.node))
  Step-IsFiled x y (publish id info done e l) v = same_loose x y v l (
      OnOk-ok (λ z. IsFiled z.1) _ (done, y.node) e
        (share_round-IsFiled w.platform id info x.node v.node))
  Step-IsFiled x y (ask t command e l) v =
      one_more_loose _ x y v l
        (OnOk-ok IsFiled _ y.node e (query_search-IsFiled w t command x.node v.node))
  Step-IsFiled x y (show args e l) v =
      same_loose x y v l (OnOk-ok IsFiled _ y.node e (search_result-IsFiled w args x.node v.node))
  Step-IsFiled x y (forget id arg args read e l) v =
      one_more_loose id x y v l
        (OnOk-ok IsFiled _ y.node e (search_kill-IsFiled w (arg ∷ args) x.node v.node))
  Step-IsFiled x y (round at id id' sr sr' ss asked s1 s2 f moved g sent e) v =
      let found = held-IsLoose at sr x f v in
      let (filed, v1) =
        OnOk-ok (λ z. IsFiledSearch sr.master_search_id z.0 × IsFiled z.2) _ (sr', id', s1) moved
          (advance-IsFiled sr.master_search_id id sr x.node (refl, found.0, found.1) v.node) in
      let (after, v2) =
        OnOk-ok (λ z. IsFiledSub id' z.0 × IsFiled z.1) _ (asked, s2) sent
          (ask_next_nodes-IsFiled w.platform sr' ss s1 id'
            (find_id-All IsFiledSub id' ss sr'.sub_searches g filed.2) v1) in
      rw e (
        put_at-IsFiled at id' asked sr' (record x { node = s2 })
          (loosened sr.master_search_id sr' filed) after (record { node = v2; loose = v.loose }))
  Step-IsFiled x y (digest at id now sr ss left after batch f g t k e) v =
      let found = held-IsLoose at sr x f v in
      let before = find_id-All IsFiledSub id ss sr.sub_searches g found.1 in
      let taken : IsFiledSub id (take_responses now ss).1 = unfold take_responses in before in
      let worked =
        OnOk-ok (IsFiledSub id) _ after k
          (take_batch-IsFiledSub sr.type id batch left (rw (ap (λ z. z.1) t) at taken)) in
      rw e (put_at-IsFiled at id after sr x found worked v)
  Step-IsFiled x y (stop at id sr ss f g e) v =
      let found = held-IsLoose at sr x f v in
      rw e (
        put_at-IsFiled at id _ sr x found (find_id-All IsFiledSub id ss sr.sub_searches g found.1)
          v)

  -- Let each search stand in `searches` under its own id, and each sub-search in its search's map
  -- under its own id, with all these ids, and the two counters that the next ones are taken from, below
  -- 2^32; and let the searches that are no longer in `searches` be like that too. Then it is so at every
  -- point of every run, whatever comes in, whatever is typed and however the operations of the threads
  -- take turns, those of killed searches among them: also where a round has moved a sub-search to
  -- another id, and where a counter has wrapped round.
  pub Reach-IsFiled : (x y : World Text) → IsFiledWorld x → Reach w x y → IsFiledWorld y
  Reach-IsFiled x y v here = v
  Reach-IsFiled x y v (next {y = t} run step) = Step-IsFiled t y step (Reach-IsFiled x t v run)
