-- ===== src/Console/Publish.antt =====
-- When and where `share` of ui/console_ui.cpp publishes.
use spatter.Console.Share.{
  publish_redundancy, sort_ranked, insert_ranked, ranked_lt, publish_to, share_found, queues_empty,
  hops_done, touch_results,
}
use spatter.Dht.{insert_file_info_record, query}
use spatter.Dht.Queries.{inserted_found}
use spatter.Messages.Archive.{Packet, Message, serialize_message}
use spatter.Messages.File.{FileInfo, PublishMessage, file_eq}
use spatter.Messages.Hash.{hash_eq_refl}
use spatter.Messages.Node.{NodeRecord, node_eq}
use spatter.Search.Asking.{addressed, with_sent, send_queries_sent}
use spatter.State.{State, Platform, Search, SubSearch, Ranked, ControlProtocol}
use spatter.Prelude.{
  ℕ, ◌≡◌, refl, sym, ◌∙◌, ap, assign, true, false, List, [], ◌∷◌, ◌++◌, append-nil, append_assoc,
  map, any, take, ltb, some, if◌then◌else◌, ok, All, All-append, arith,
}

-- `done` starts as false, and is never set by the hops.
hops_done_never : (m : List (ℕ × SubSearch)) → hops_done false m ≡ false
unfolding hops_done
hops_done_never [] = refl
hops_done_never ((i, ss) ∷ m) = hops_done_never m

abbrev touched_all : List (ℕ × SubSearch) → List (ℕ × SubSearch)
touched_all = map (λ e. (e.0, touch_results e.1))

queues_empty-touched_all :
    (m : List (ℕ × SubSearch)) → queues_empty (touched_all m) ≡ queues_empty m
unfolding queues_empty touch_results
queues_empty-touched_all [] = refl
queues_empty-touched_all ((i, ss) ∷ m) = ground (arith, queues_empty-touched_all m)

-- Of the nodes with the smallest distance the first, if there are nodes.
abbrev nearer : Ranked → List Ranked → Ranked
nearer e [] = e
nearer e (x ∷ l) = if ltb x.0 e.0 then x else e

unfoldable pub nearest : List Ranked → List Ranked
nearest [] = []
nearest (e ∷ l) = nearer e (nearest l) ∷ []

nearest-insert_ranked :
    (e : Ranked) (l : List Ranked) → take 1 (insert_ranked e l) ≡ nearer e (take 1 l) ∷ []
unfolding insert_ranked ranked_lt
nearest-insert_ranked e [] = refl
nearest-insert_ranked e (x ∷ l) = ground arith

nearest-sort_ranked : (l : List Ranked) → take publish_redundancy (sort_ranked l) ≡ nearest l
unfolding sort_ranked nearest
nearest-sort_ranked [] = refl
nearest-sort_ranked (e ∷ l) =
    nearest-insert_ranked e (sort_ranked l) ∙ ap (λ m. nearer e m ∷ []) (nearest-sort_ranked l)

-- The nodes that a file is published to.
unfoldable pub targets : List (ℕ × SubSearch) → List Ranked
unfolding nearest
targets [] = []
targets ((i, ss) ∷ m) = nearest ss.pq ++ targets m

pq-touch_results : (ss : SubSearch) → (touch_results ss).pq ≡ ss.pq
unfolding touch_results
pq-touch_results ss = ground arith

targets-touched_all : (m : List (ℕ × SubSearch)) → targets (touched_all m) ≡ targets m
unfolding targets touch_results
targets-touched_all [] = refl
targets-touched_all ((i, ss) ∷ m) = rw (pq-touch_results ss, targets-touched_all m) refl

addressed-append :
    {Text : Type 0} (this : NodeRecord) (msg : Packet Text) (l k : List Ranked)
    → addressed this msg (l ++ k) ≡ addressed this msg l ++ addressed this msg k
unfolding addressed
addressed-append this msg [] k = refl
addressed-append this msg (e ∷ l) k =
    let first = if node_eq e.1 this then [] else (msg, e.1) ∷ [] in
    ap (◌++◌ first) (addressed-append this msg l k)
    ∙ sym (append_assoc first (addressed this msg l) (addressed this msg k))

module _ {Text : Type 0} (p : Platform Text) where
  publish_to_sent :
      (pm : PublishMessage) (m : List (ℕ × SubSearch)) (s : State Text) (c : ControlProtocol)
      → s.control ≡ some c
      → All (λ e. p.resolves e.1 ≡ true) (targets m)
      → (m' : List (ℕ × SubSearch)) × (publish_to p pm m s
          ≡ ok (
            m',
            with_sent p s (
                addressed s.this_node
                  (serialize_message p.archive (Message.publish pm))
                  (targets m)),
          ))
  unfolding publish_to targets addressed
  publish_to_sent pm [] s c h r =
      ([], ap (λ l. ok ([], record s { sent = l })) (sym (append-nil s.sent)))
  publish_to_sent pm ((i, ss) ∷ m) s c h r =
      let msg = serialize_message p.archive (Message.publish pm) in
      let sorted = sort_ranked ss.pq in
      let first = nearest ss.pq in
      let (here, later) = All-append (λ e. p.resolves e.1 ≡ true) first (targets m) r in
      let t = with_sent p s (addressed s.this_node msg first) in
      let (m', done) = publish_to_sent pm m t c h later in
      let both = addressed-append s.this_node msg first (targets m) in
      (
        (i, record ss { pq = sorted }) ∷ m',
        rw (nearest-sort_ranked ss.pq, send_queries_sent p msg first s c h here, done)
            (ap (λ l. ok ((i, record ss { pq = sorted }) ∷ m', record s { sent = l }))
              (append_assoc s.sent _ _ ∙ ap (◌++◌ s.sent) (sym both))),
      )

  -- While some queue of the search has nodes, nothing is published, however many hops the search has
  -- gone: the loop goes on, with nothing sent and the table as it was.
  pub share_found_waits :
      (id : ℕ) (info : FileInfo) (sr : Search) (s : State Text)
      → queues_empty sr.sub_searches ≡ false
      → (s' : State Text) × (share_found p id info sr s ≡ ok (false, s'))
        × (s'.sent ≡ s.sent)
        × (s'.dht ≡ s.dht)
  unfolding share_found
  share_found_waits id info sr s h =
      let subs = touched_all sr.sub_searches in
      let busy = queues_empty-touched_all sr.sub_searches ∙ h in
      (
        record s { searches = assign id (record sr { sub_searches = subs }) s.searches },
        rw (hops_done_never subs, busy) refl,
        refl,
        refl,
      )

  -- Once all queues are empty, with the socket open and the targets resolvable, the round publishes: the
  -- message goes to the nearest node in the `pq` of each sub-search, unless that is this node, the loop
  -- ends, and right after the round a query for the file's key at this node finds the file, whatever its
  -- `valid_till`.
  pub share_found_publishes :
      (id : ℕ) (info : FileInfo) (sr : Search) (s : State Text) (c : ControlProtocol)
      → queues_empty sr.sub_searches ≡ true
      → s.control ≡ some c
      → All (λ e. p.resolves e.1 ≡ true) (targets sr.sub_searches)
      → (s' : State Text) × (share_found p id info sr s ≡ ok (true, s'))
        × (s'.sent
            ≡ s.sent
              ++ addressed s.this_node
                  (serialize_message p.archive (Message.publish (record { file_info = info })))
                  (targets sr.sub_searches))
        × (any (λ x. file_eq x info) (query s'.dht info.key) ≡ true)
  unfolding share_found
  share_found_publishes id info sr s c q h r =
      let subs = touched_all sr.sub_searches in
      let idle = queues_empty-touched_all sr.sub_searches ∙ q in
      let same = targets-touched_all sr.sub_searches in
      let msg = serialize_message p.archive (Message.publish (record { file_info = info })) in
      let (m', sent) = publish_to_sent (record { file_info = info }) subs s c h (rw same r) in
      (
        record (with_sent p s (addressed s.this_node msg (targets subs))) {
          searches = assign id (record sr { sub_searches = m' }) s.searches;
          dht = insert_file_info_record s.dht info;
        },
        rw (hops_done_never subs, idle, sent) refl,
        ap (λ l. s.sent ++ addressed s.this_node msg l) same,
        inserted_found s.dht info info.key (hash_eq_refl info.key),
      )
