-- ===== src/Search/Run/Bounds.antt =====
-- What holds of a sub-search at every point of its run.
use spatter.Messages.Hash.{Hash}
use spatter.Messages.Node.{NodeRecord}
use spatter.Messages.Search.{SearchResult, SearchType}
use spatter.Util.Distance.{bit_distance}
use spatter.Search.SubSearches.{
  advance, ask_next_nodes, send_queries, take_responses, give_up_search, add_response, max_hops,
}
use spatter.Search.Suggestions.{suggest, suggest_nodes, take_result, take_batch}
use spatter.Search.Queue.{suggest-IsRanked}
use spatter.Search.Rounds.{advance_lem}
use spatter.Search.Run.{
  Run, Phase, outer, inner, waiting, taken, finished, current, update, Step, stop, round, leave,
  wait, time_out, take_all, break_off, work, respond, kill, tick, Reach, here, next,
}
use spatter.NodeQueue.Queue.{IsRanked}
use spatter.State.{State, Platform, Search, SubSearch, Ranked, terminated}
use spatter.Prelude.{
  OnOk-ok, ℕ, ◌+◌, ◌≤◌, ◌<◌, ◌≡◌, refl, sym, ◌∙◌, ap, subst, true, false, ◌||◌, List, [], ◌∷◌, some,
  length, find_id, find_id-assign, ==_refl, ok, >>=-eq-ok, arith,
}

-- Hops within one of the limit, and a queue that is sorted and within its size.
pub record IsBounded (ss : SubSearch) : Type 0 where
  pub hops : ss.hops ≤ max_hops + 1
  pub size : 0 < ss.next_nodes_queue_max_size
  pub sorted : IsRanked ss.next_nodes_queue
  pub short : length ss.next_nodes_queue ≤ ss.next_nodes_queue_max_size

suggest_nodes-IsRanked :
    (size : ℕ) (key : Hash) (l : List NodeRecord) (q q' : List Ranked)
    → 0 < size
    → IsRanked q
    → length q ≤ size
    → suggest_nodes size key l q ≡ ok q'
    → IsRanked q' × (length q' ≤ size)
unfolding suggest_nodes
suggest_nodes-IsRanked size key [] q q' pos r n e =
    OnOk-ok (λ m. IsRanked m × (length m ≤ size)) (ok q) q' e (r, n)
suggest_nodes-IsRanked size key (x ∷ l) q q' pos r n e =
    let (m, one, rest) = >>=-eq-ok (suggest size (bit_distance key x.node_id, x) q) _ e in
    let (sorted, short) = suggest-IsRanked size (bit_distance key x.node_id, x) q m pos r n one in
    suggest_nodes-IsRanked size key l m q' pos sorted short rest

take_result-IsBounded :
    (type : SearchType) (srm : SearchResult) (ss ss' : SubSearch)
    → IsBounded ss
    → take_result type srm ss ≡ ok ss'
    → IsBounded ss'
unfolding take_result
take_result-IsBounded type srm ss ss' v e =
    let (q, done, rest) =
      >>=-eq-ok
        (suggest_nodes ss.next_nodes_queue_max_size ss.key srm.node_list ss.next_nodes_queue) _ e in
    let (sorted, short) =
      suggest_nodes-IsRanked ss.next_nodes_queue_max_size ss.key srm.node_list ss.next_nodes_queue q
        v.size v.sorted v.short done in
    OnOk-ok IsBounded _ ss' rest
      (record { hops = v.hops; size = v.size; sorted = sorted; short = short })

take_batch-IsBounded :
    (type : SearchType) (l : List SearchResult) (ss ss' : SubSearch)
    → IsBounded ss
    → take_batch type l ss ≡ ok ss'
    → IsBounded ss'
unfolding take_batch
take_batch-IsBounded type [] ss ss' v e = OnOk-ok IsBounded (ok ss) ss' e v
take_batch-IsBounded type (srm ∷ l) ss ss' v e =
    let (mid, one, rest) = >>=-eq-ok (take_result type srm ss) _ e in
    take_batch-IsBounded type l mid ss' (take_result-IsBounded type srm ss mid v one) rest

-- A round has just asked the nodes of the queue, and cleared it.
ask_next_nodes-IsBounded :
    {Text : Type 0} (p : Platform Text) (sr : Search) (ss asked : SubSearch) (s s' : State Text)
    → ss.hops ≤ max_hops + 1
    → 0 < ss.next_nodes_queue_max_size
    → ask_next_nodes p sr ss s ≡ ok (asked, s')
    → IsBounded asked
unfolding ask_next_nodes
ask_next_nodes-IsBounded p sr ss asked s s' h k e =
    let (t, sent, rest) = >>=-eq-ok (send_queries p _ ss.next_nodes_queue s) _ e in
    OnOk-ok (λ x. IsBounded x.0) _ (asked, s') rest
      (record { hops = h; size = k; sorted = tt; short = omega arith })

pub some_injective : (a b : SubSearch) → some a ≡ some b → a ≡ b
some_injective a b e = cc

-- The sub-search of the round is the one before with one hop more.
pub advance_current :
    {Text : Type 0} (id id' : ℕ) (sr sr' : Search) (ss mid : SubSearch) (s s' : State Text)
    → find_id id sr.sub_searches ≡ some ss
    → advance id sr s ≡ ok (sr', id', s')
    → find_id id' sr'.sub_searches ≡ some mid
    → (mid.hops ≡ ss.hops + 1)
      × (mid.next_nodes_queue_max_size ≡ ss.next_nodes_queue_max_size)
      × (mid.kill_search ≡ ss.kill_search)
advance_current {Text} id id' sr sr' ss mid s s' f e g =
    let n = s.next_sub_search_id in
    let (sr1, s1, done, after, _) = advance_lem id sr ss s n f in
    let moved : SubSearch = record ss { search_id = n; hops = ss.hops + 1 } in
    let registered : find_id n sr1.sub_searches ≡ some moved = ground (arith, after) in
    OnOk-ok
      (λ (x : Search × ℕ × State Text).
        find_id x.1 x.0.sub_searches ≡ some mid
        → (mid.hops ≡ ss.hops + 1)
          × (mid.next_nodes_queue_max_size ≡ ss.next_nodes_queue_max_size)
          × (mid.kill_search ≡ ss.kill_search))
      (ok (sr1, n, s1)) (sr', id', s') (sym done ∙ e)
      (λ h.
        let same = some_injective moved mid (sym registered ∙ h) in
        (
          sym (ap (λ (x : SubSearch). x.hops) same),
          sym (ap (λ (x : SubSearch). x.next_nodes_queue_max_size) same),
          sym (ap (λ (x : SubSearch). x.kill_search) same),
        ))
      g

-- What holds at a point of the thread.
abbrev Holds : Phase → SubSearch → Type 0
Holds outer ss = (ss.hops ≤ max_hops + 1) × (0 < ss.next_nodes_queue_max_size)
Holds inner ss = IsBounded ss
Holds waiting ss = IsBounded ss
Holds (taken batch) ss = IsBounded ss
Holds finished ss = (ss.hops ≤ max_hops + 1) × (0 < ss.next_nodes_queue_max_size)

Holds-cong :
    (ph : Phase) (ss other : SubSearch)
    → other.hops ≡ ss.hops
    → other.next_nodes_queue_max_size ≡ ss.next_nodes_queue_max_size
    → other.next_nodes_queue ≡ ss.next_nodes_queue
    → Holds ph ss
    → Holds ph other
Holds-cong outer ss other a b c h = rw (a, b) h
Holds-cong finished ss other a b c h = rw (a, b) h
Holds-cong inner ss other a b c h = record {
  hops = rw a h.hops;
  size = rw b h.size;
  sorted = rw c h.sorted;
  short = rw (b, c) h.short;
}
Holds-cong waiting ss other a b c h = record {
  hops = rw a h.hops;
  size = rw b h.size;
  sorted = rw c h.sorted;
  short = rw (b, c) h.short;
}
Holds-cong (taken l) ss other a b c h = record {
  hops = rw a h.hops;
  size = rw b h.size;
  sorted = rw c h.sorted;
  short = rw (b, c) h.short;
}

abbrev Inv : {Text : Type 0} → Run Text → Type 0
Inv r = (ss : SubSearch) → current r ≡ some ss → Holds r.phase ss

pub current-update :
    {Text : Type 0} (r : Run Text) (ss : SubSearch) → current (update ss r) ≡ some ss
current-update r ss = rw (find_id-assign r.id r.id ss r.search.sub_searches, ==_refl r.id)

Inv-update : {Text : Type 0} (r : Run Text) (ss : SubSearch) → Holds r.phase ss → Inv (update ss r)
Inv-update r ss h ss' e =
    subst (Holds r.phase) (some_injective ss ss' (sym (current-update r ss) ∙ e)) h

add_response_same :
    (srm : SearchResult) (ss : SubSearch)
    → ((add_response srm ss).hops ≡ ss.hops)
      × ((add_response srm ss).next_nodes_queue_max_size ≡ ss.next_nodes_queue_max_size)
      × ((add_response srm ss).next_nodes_queue ≡ ss.next_nodes_queue)
unfolding add_response
add_response_same srm ss = ground arith

pub give_up_false :
    (ss : SubSearch) → give_up_search ss || ss.kill_search ≡ false → ss.hops ≤ max_hops
unfolding give_up_search
give_up_false ss h = ground arith

Holds-weak :
    (ph : Phase) (ss : SubSearch)
    → Holds ph ss
    → (ss.hops ≤ max_hops + 1) × (0 < ss.next_nodes_queue_max_size)
Holds-weak outer ss h = h
Holds-weak finished ss h = h
Holds-weak inner ss h = (h.hops, h.size)
Holds-weak waiting ss h = (h.hops, h.size)
Holds-weak (taken l) ss h = (h.hops, h.size)

module _ {Text : Type 0} (p : Platform Text) where
  Step-Inv : (r u : Run Text) → Step p r u → Inv r → Inv u
  unfolding take_responses
  Step-Inv r u (stop ss at f g e) v =
      let h = Holds-weak r.phase ss (v ss f) in
      rw e (Inv-update (record r { phase = finished }) (record ss { status = terminated }) h)
  Step-Inv r u (round ss mid asked sr id s s' at f g moved m done e) v =
      let h = Holds-weak r.phase ss (v ss f) in
      let (hops, size, _) = advance_current r.id id r.search sr ss mid r.state s f moved m in
      rw e (
        Inv-update (record r { phase = inner; id = id; search = sr; state = s' }) asked
          (ask_next_nodes-IsBounded p sr mid asked s s' (omega (arith, give_up_false ss g))
            (omega arith) done))
  Step-Inv r u (leave ss at f g e) v = rw e (λ ss' e'. Holds-weak r.phase ss' (v ss' e'))
  Step-Inv r u (wait ss at f g e) v =
      rw e (λ ss' e'. subst (λ (ph : Phase). Holds ph ss') at (v ss' e'))
  Step-Inv r u (time_out ss at f g e) v =
      rw e (λ ss' e'. subst (λ (ph : Phase). Holds ph ss') at (v ss' e'))
  Step-Inv r u (take_all ss left batch at f g t e) v =
      let b : Holds waiting ss = rw at at (v ss f) in
      let same = ap (λ (x : List SearchResult × SubSearch). x.1) t in
      rw e (
        Inv-update (record r { phase = taken batch }) left
          (subst IsBounded same
            (record { hops = b.hops; size = b.size; sorted = b.sorted; short = b.short })))
  Step-Inv r u (break_off ss batch at f g e) v = rw e (λ ss' e'. Holds-weak r.phase ss' (v ss' e'))
  Step-Inv r u (work ss after batch at f g t e) v =
      let b : Holds (taken batch) ss = rw at at (v ss f) in
      rw e (
        Inv-update (record r { phase = inner }) after
          (take_batch-IsBounded r.search.type batch ss after b t))
  Step-Inv r u (respond ss srm f e) v =
      let (a, b, c) = add_response_same srm ss in
      rw e (
        Inv-update r (add_response srm ss)
          (Holds-cong r.phase ss (add_response srm ss) a b c (v ss f)))
  Step-Inv r u (kill ss f e) v = rw e (
      Inv-update r (record ss { kill_search = true })
        (Holds-cong r.phase ss (record ss { kill_search = true }) refl refl refl (v ss f)))
  Step-Inv r u (tick e) v = rw e v

  Reach-Inv : {r u : Run Text} → Inv r → Reach p r u → Inv u
  Reach-Inv v here = v
  Reach-Inv v (next {t} {u} run step) = Step-Inv t u step (Reach-Inv v run)

  -- A sub-search whose thread starts with at most 8 hops and a queue size above 0 has at most 8 hops, one
  -- more than `max_hops`, at every point of every run, whatever comes in and whenever it is killed. In
  -- the inner loop its queue is sorted by distance and within its size.
  pub Reach-IsBounded :
      (r u : Run Text) (ss : SubSearch)
      → r.phase ≡ outer
      → ((x : SubSearch)
          → current r ≡ some x
          → (x.hops ≤ max_hops + 1) × (0 < x.next_nodes_queue_max_size))
      → Reach p r u
      → current u ≡ some ss
      → (ss.hops ≤ max_hops + 1) × (u.phase ≡ inner → IsBounded ss)
  Reach-IsBounded r u ss at start run f =
      let h = Reach-Inv (λ x e. subst (λ (ph : Phase). Holds ph x) (sym at) (start x e)) run ss f in
      (
        (Holds-weak u.phase ss h).0,
        λ (e : u.phase ≡ inner). subst (λ (ph : Phase). Holds ph ss) e h,
      )
