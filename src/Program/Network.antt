-- ===== src/Program/Network.antt =====
-- Several nodes that send one another their packets, each with all its threads: what there is in the
-- whole network of the records that `share` gives, dht/protocol/control_protocol.cpp, dht/DHT.cpp,
-- dht/protocol/search_manager.cpp and ui/console_ui.cpp together. A packet can arrive late, more than
-- once, not at all, and at another node than it was sent to.
use spatter.Console.{Surroundings}
use spatter.Control.Handle.{handle_receive_from}
use spatter.Messages.Archive.{Packet, ReadsBack, serialize_message}
use spatter.Messages.File.{FileInfo}
use spatter.Messages.Node.{NodeRecord}
use spatter.Program.{
  World, Place, registered, removed, held, put_at, left_over, Step, receive, greet, look, publish,
  ask, show, forget, round, digest, stop,
}
use spatter.Program.Honest.{IsHonest, GoodSub, GoodSubs, GoodSearch, GoodPacket, ping_all-IsHonest}
use spatter.Program.Loose.{left_over-All}
use spatter.Program.Honest.Moves.{
  start_hash_search-IsHonest, query_search-IsHonest, search_result-IsHonest, search_kill-IsHonest,
  advance-IsHonest,
}
use spatter.Program.Honest.Results.{take_batch-GoodSub, take_responses-GoodSub}
use spatter.Program.Honest.Sharing.{ask_next_nodes-IsHonest, share_round-IsHonest}
use spatter.Program.Honest.Messages.{assign-IsHonest, GoodArrival, handle_receive_from-IsHonest}
use spatter.Search.Manager.{find_search}
use spatter.State.{Search, SubSearch}
use spatter.Prelude.{
  All, OnOk-ok, ℕ, Bool, Option, ◌++◌, All-middle, Bool-cases, inl, inr, ◌≡◌, ap, ◌∙◌, List, ◌∷◌,
  none, some, if◌then◌else◌, ok, ◌==◌, ==_iff, assign, assign-All, find_id-All,
}

-- The nodes, by a number.
abbrev pub Network : Type 0 → Type 0
Network Text = ℕ → World Text

abbrev pub set_node : {Text : Type 0} → ℕ → World Text → Network Text → Network Text
set_node i s net j = if i == j then s else net j

-- Some node has sent the packet.
abbrev IsSent : {Text : Type 0} → Packet Text → Network Text → Type 0
IsSent {Text} m net =
    (i : ℕ) × (to : NodeRecord) × (before after : List (Packet Text × NodeRecord)) × ((net
        i).node.sent
      ≡ before ++ (m, to) ∷ after)

-- What has arrived, if anything has, has been sent.
abbrev Comes : {Text : Type 0} → Network Text → Option (Packet Text) → Type 0
Comes net none = Unit
Comes net (some m) = IsSent m net

module _ {Text : Type 0} (P : FileInfo → Type 0) where
  -- A packet that a step receives has been sent in the network, and a record that it publishes is of
  -- the kind.
  abbrev Fair : {w : Surroundings Text} {x y : World Text} → Network Text → Step w x y → Type 0
  Fair net (receive now error none e l) = Unit
  Fair net (receive now error (some m) e l) = IsSent m net
  Fair net (greet now e l) = Unit
  Fair net (look now id tok e l) = Unit
  Fair net (publish id info done e l) = P info
  Fair net (ask t command e l) = Unit
  Fair net (show args e l) = Unit
  Fair net (forget id arg args read e l) = Unit
  Fair net (round at id id' sr sr' ss asked s1 s2 f moved g sent e) = Unit
  Fair net (digest at id now sr ss left after batch f g t k e) = Unit
  Fair net (stop at id sr ss f g e) = Unit

  -- The steps of the nodes, one after another.
  pub data Runs (w : ℕ → Surroundings Text) (net : Network Text) : Network Text → Type 0 where
    begin : Runs w net net
    turn :
        {net' : Network Text}
        → Runs w net net'
        → (i : ℕ) (u : World Text) (step : Step (w i) (net' i) u) → Fair net' step
        → Runs w net (set_node i u net')

  -- What a node stores, has sent and has found is of the kind, also by the searches that have gone
  -- from the map.
  pub record IsHonestWorld (w : Surroundings Text) (x : World Text) : Type 0 where
    pub node : IsHonest w.platform P x.node
    pub loose : All (λ (e : ℕ × Search). GoodSubs P e.1.sub_searches) x.loose

  -- So it is at every node.
  abbrev pub AllHonest : (ℕ → Surroundings Text) → Network Text → Type 0
  AllHonest w net = (i : ℕ) → IsHonestWorld (w i) (net i)

  module _ (w : ℕ → Surroundings Text)
      (same : (i j : ℕ) → (w i).platform.archive ≡ (w j).platform.archive)
      (reads : (i : ℕ) → ReadsBack (w i).platform.archive) where
    -- A packet of one node's is as good at another.
    carried :
        (i j : ℕ) (m : Packet Text) → GoodPacket (w i).platform P m → GoodPacket (w j).platform P m
    carried i j m (msg, wrote, good) =
        (msg, wrote ∙ ap (λ a. serialize_message a msg) (same i j), good)

    arrived :
        (j : ℕ) (received : Option (Packet Text)) (net : Network Text)
        → AllHonest w net
        → Comes net received
        → GoodArrival (w j).platform P received
    arrived j none net v comes = tt
    arrived j (some m) net v (i, to, before, after, there) = carried i j m (
        All-middle (λ (x : Packet Text × NodeRecord). GoodPacket (w i).platform P x.0) (m, to)
          before after (rw there at (v i).node.sent))

    comes :
        (j : ℕ) (x y : World Text) (now : ℕ) (error : Bool) (received : Option (Packet Text))
        (net : Network Text)
        (e : handle_receive_from (w j).platform now error received x.node ≡ ok y.node)
        (l : y.loose ≡ x.loose)
        → Fair {w = w j} {x = x} {y = y} net (receive now error received e l)
        → Comes net received
    comes j x y now error none net e l fair = tt
    comes j x y now error (some m) net e l fair = fair

    held-GoodSubs :
        (j : ℕ) (at : Place) (sr : Search) (x : World Text)
        → held at x ≡ some sr
        → IsHonestWorld (w j) x
        → GoodSubs P sr.sub_searches
    unfolding find_search
    held-GoodSubs j (registered id) sr x f v =
        find_id-All (GoodSearch P) id sr x.node.searches f v.node.found
    held-GoodSubs j (removed k) sr x f v =
        find_id-All (λ i t. GoodSubs P t.sub_searches) k sr x.loose f v.loose

    put_at-IsHonest :
        (j : ℕ) (at : Place) (id : ℕ) (ss : SubSearch) (sr : Search) (x : World Text)
        → GoodSubs P sr.sub_searches
        → GoodSub P id ss
        → IsHonestWorld (w j) x
        → IsHonestWorld (w j) (put_at at id ss sr x)
    put_at-IsHonest j (registered master) id ss sr x g h v =
        let changed : Search = record sr { sub_searches = assign id ss sr.sub_searches } in
        record {
          node =
              assign-IsHonest (w j).platform P sr.master_search_id changed x.node
                (assign-All (GoodSub P) id ss sr.sub_searches h g) v.node;
          loose = v.loose;
        }
    put_at-IsHonest j (removed k) id ss sr x g h v =
        let changed : Search = record sr { sub_searches = assign id ss sr.sub_searches } in
        record {
          node = v.node;
          loose =
              assign-All (λ i t. GoodSubs P t.sub_searches) k changed x.loose
                (assign-All (GoodSub P) id ss sr.sub_searches h g) v.loose;
        }

    -- The searches out of the map are as they were, or one more is out of it.
    same_loose :
        (j : ℕ) (x y : World Text)
        → IsHonestWorld (w j) x
        → y.loose ≡ x.loose
        → IsHonest (w j).platform P y.node
        → IsHonestWorld (w j) y
    same_loose j x y v l n = record { node = n; loose = rw l v.loose }

    one_more_loose :
        (j id : ℕ) (x y : World Text)
        → IsHonestWorld (w j) x
        → y.loose ≡ left_over id x
        → IsHonest (w j).platform P y.node
        → IsHonestWorld (w j) y
    one_more_loose j id x y v l n = record {
      node = n;
      loose = rw l (
          left_over-All (GoodSearch P) (λ sr. GoodSubs P sr.sub_searches) id x (λ k sr g. g)
            v.node.found v.loose);
    }

    Step-IsHonest :
        (net : Network Text) (i : ℕ) (x y : World Text) (step : Step (w i) x y)
        → Fair net step
        → AllHonest w net
        → IsHonestWorld (w i) x
        → IsHonestWorld (w i) y
    Step-IsHonest net i x y (receive now error received e l) fair all v = same_loose i x y v l (
        OnOk-ok (IsHonest (w i).platform P) _ y.node e (
          handle_receive_from-IsHonest (w i).platform P (reads i) now error received x.node
            (arrived i received net all (comes i x y now error received net e l fair)) v.node))
    Step-IsHonest net i x y (greet now e l) fair all v = same_loose i x y v l (
        OnOk-ok (IsHonest (w i).platform P) _ y.node e
          (ping_all-IsHonest (w i).platform P now x.node v.node))
    Step-IsHonest net i x y (look now id tok e l) fair all v = one_more_loose i _ x y v l (
        OnOk-ok (λ z. IsHonest (w i).platform P z.1) _ (id, y.node) e
          (start_hash_search-IsHonest (w i) P now _ _ x.node v.node))
    Step-IsHonest net i x y (publish id info done e l) fair all v = same_loose i x y v l (
        OnOk-ok (λ z. IsHonest (w i).platform P z.1) _ (done, y.node) e
          (share_round-IsHonest (w i).platform P id info x.node fair v.node))
    Step-IsHonest net i x y (ask t command e l) fair all v = one_more_loose i _ x y v l (
        OnOk-ok (IsHonest (w i).platform P) _ y.node e
          (query_search-IsHonest (w i) P t command x.node v.node))
    Step-IsHonest net i x y (show args e l) fair all v = same_loose i x y v l (
        OnOk-ok (IsHonest (w i).platform P) _ y.node e
          (search_result-IsHonest (w i) P args x.node v.node))
    Step-IsHonest net i x y (forget id arg args read e l) fair all v = one_more_loose i id x y v l (
        OnOk-ok (IsHonest (w i).platform P) _ y.node e
          (search_kill-IsHonest (w i) P (arg ∷ args) x.node v.node))
    Step-IsHonest net i x y (round at id id' sr sr' ss asked s1 s2 f moved g sent e) fair all v =
        let found = held-GoodSubs i at sr x f v in
        let (subs, v1) =
          OnOk-ok (λ z. GoodSearch P 0 z.0 × IsHonest (w i).platform P z.2) _ (sr', id', s1) moved
            (advance-IsHonest P (w i).platform 0 id sr x.node found v.node) in
        let (after, v2) =
          OnOk-ok (λ z. GoodSub P ss.search_id z.0 × IsHonest (w i).platform P z.1) _ (asked, s2)
            sent
            (ask_next_nodes-IsHonest (w i).platform P sr' ss s1
              (find_id-All (GoodSub P) id' ss sr'.sub_searches g subs) v1) in
        rw e (
          put_at-IsHonest i at id' asked sr' (record x { node = s2 }) subs after
            (record { node = v2; loose = v.loose }))
    Step-IsHonest net i x y (digest at id now sr ss left after batch f g t k e) fair all v =
        let found = held-GoodSubs i at sr x f v in
        let (batched, rest) =
          take_responses-GoodSub P now id ss
            (find_id-All (GoodSub P) id ss sr.sub_searches g found) in
        let worked = OnOk-ok (GoodSub P id) _ after k (
          take_batch-GoodSub P sr.type id batch left (rw (ap (λ z. z.0) t) at batched)
            (rw (ap (λ z. z.1) t) at rest)) in
        rw e (put_at-IsHonest i at id after sr x found worked v)
    Step-IsHonest net i x y (stop at id sr ss f g e) fair all v =
        let found = held-GoodSubs i at sr x f v in
        rw e (
          put_at-IsHonest i at id _ sr x found
            (find_id-All (GoodSub P) id ss sr.sub_searches g found) v)

    set_node-AllHonest :
        (net : Network Text) (i : ℕ) (u : World Text)
        → AllHonest w net
        → IsHonestWorld (w i) u
        → AllHonest w (set_node i u net)
    set_node-AllHonest net i u all v j = elim (Bool-cases (i == j)) [
      | inl at_node ↦ let there : i ≡ j = (==_iff i j).0 at_node in rw at_node (rw there at v)
      | inr other ↦ rw other (all j)
    ]

    -- Let every record that a node's `share` publishes have some property P, and every packet that
    -- arrives be one that some node of the network has sent, to whomever and however long ago, all
    -- nodes having one archive, which reads back what it writes. Then every run of the nodes, with the
    -- threads of each in any order, goes from a network in which there are records with P only to one
    -- in which it is still so: in the tables, in all packets that have been sent, and in the answers
    -- and the results of all searches, the killed ones included, whose threads go on.
    pub Runs-AllHonest :
        (net net' : Network Text) → AllHonest w net → Runs w net net' → AllHonest w net'
    Runs-AllHonest net net' all begin = all
    Runs-AllHonest net net' all (turn {net' = between} runs k u step fair) =
        let earlier = Runs-AllHonest net between all runs in
        set_node-AllHonest between k u earlier
          (Step-IsHonest between k (between k) u step fair earlier (earlier k))
