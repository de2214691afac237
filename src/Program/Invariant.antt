-- ===== src/Program/Invariant.antt =====
-- What holds at every point of the whole program.
use spatter.Config.{Config}
use spatter.Console.Invariant.{query_search_keeps, search_result_keeps, search_kill_keeps}
use spatter.Console.Share.Kept.{share_round_keeps}
use spatter.Search.Kept.{start_hash_search_keeps, send_queries_keeps}
use spatter.Control.Handle.{handle_receive_from, handle_message}
use spatter.Control.Invariant.{IsNode, IsNode-same, handle_message-IsNode}
use spatter.Main.{Host, start_up}
use spatter.Main.Startup.{start_up-IsNode}
use spatter.Messages.Archive.{Packet}
use spatter.Messages.Node.{NodeRecord}
use spatter.Program.{
  World, Place, registered, removed, put_at, surroundings, put, Step, receive, greet, look, publish,
  ask, show, forget, round, digest, stop, Reach, here, next,
}
use spatter.Console.{Surroundings}
use spatter.NodeQueue.Receiving.{ping_all-OneReceive}
use spatter.NodeQueue.PingKeeps.{ping_all_keeps}
use spatter.Search.SubSearches.{advance, ask_next_nodes, send_queries}
use spatter.State.{State, Platform, Search, SubSearch}
use spatter.Prelude.{
  [], ◌∷◌, OnOk, OnOk-rule, OnOk-known, OnOk-ok, ℕ, ◌+◌, ◌-◌, ◌≡◌, refl, Bool, true, false, List,
  Option, none, some, if◌then◌else◌, Option-cases, inl, inr, ok, arith,
}

-- The completed receive is gone, and the next one is posted.
one_again : (n : ℕ) → n ≡ 1 → n - 1 + 1 ≡ 1
one_again n h = omega arith

module _ {Text : Type 0} (p : Platform Text) where
  received_keeps :
      (now : ℕ) (error : Bool) (received : Option (Packet Text)) (s u : State Text)
      → IsNode s
      → (if error then ok s else elim received [ none ↦ ok s | some m ↦ handle_message p now m s ])
        ≡ ok u
      → IsNode u
  received_keeps now true received s u v e = OnOk-ok IsNode (ok s) u e v
  received_keeps now false none s u v e = OnOk-ok IsNode (ok s) u e v
  received_keeps now false (some m) s u v e = handle_message-IsNode p now m s u v e

  receive_keeps :
      (now : ℕ) (error : Bool) (received : Option (Packet Text)) (s u : State Text)
      → IsNode s
      → handle_receive_from p now error received s ≡ ok u
      → IsNode u
  unfolding handle_receive_from
  receive_keeps now error received s u v e = elim (Option-cases s.control) [
    | inl closed ↦ absurd (ground arith)
    | inr (c, is_open) ↦
        let t : State Text = record s {
          control = some (record c { receives = c.receives - 1 + 1 });
        } in
        received_keeps now error received t u
          (record {
            buckets = v.buckets;
            placed = v.placed;
            table = v.table;
            receiving = one_again c.receives (rw is_open at v.receiving);
          })
          (rw is_open at e)
  ]

  advance_keeps :
      (id : ℕ) (sr : Search) (s : State Text) → IsNode s → OnOk (λ x. IsNode x.2) (advance id sr s)
  unfolding advance
  advance_keeps id sr s v =
      OnOk-rule (λ x. IsNode x.2) (advance id sr s)
        (λ x e. IsNode-same s x.2 (ground arith) (ground arith) (ground arith) v)

  ask_next_nodes_keeps :
      (sr : Search) (ss : SubSearch) (s : State Text)
      → IsNode s
      → OnOk (λ x. IsNode x.1) (ask_next_nodes p sr ss s)
  unfolding ask_next_nodes
  ask_next_nodes_keeps sr ss s v =
      OnOk-known (λ (x : SubSearch × State Text). IsNode x.1)
        (send_queries p _ ss.next_nodes_queue s) _
        (λ s' e. OnOk-ok IsNode _ s' e (send_queries_keeps p _ ss.next_nodes_queue s v))

module _ {Text : Type 0} (w : Surroundings Text) where
  put_at-IsNode :
      (at : Place) (id : ℕ) (ss : SubSearch) (sr : Search) (x : World Text)
      → IsNode x.node
      → IsNode (put_at at id ss sr x).node
  put_at-IsNode (registered master) id ss sr x v =
      IsNode-same x.node (put id ss sr x.node) refl refl refl v
  put_at-IsNode (removed k) id ss sr x v = v

  Step-IsNode : (x y : World Text) → Step w x y → IsNode x.node → IsNode y.node
  Step-IsNode x y (receive now error received e l) v =
      receive_keeps w.platform now error received x.node y.node v e
  Step-IsNode x y (greet now e l) v =
      let (d, b) = ping_all_keeps w.platform now x.node y.node e in
      record {
        buckets = rw b v.buckets;
        placed = rw (d, b) v.placed;
        table = rw d v.table;
        receiving = ping_all-OneReceive w.platform now x.node y.node e v.receiving;
      }
  Step-IsNode x y (look now id tok e l) v =
      OnOk-ok (λ z. IsNode z.1) _ (id, y.node) e
        (start_hash_search_keeps w.tiger w.sort now _ _ x.node v)
  Step-IsNode x y (publish id info done e l) v =
      OnOk-ok (λ z. IsNode z.1) _ (done, y.node) e
        (share_round_keeps w.platform id info (λ z. z) x.node (λ z k. k) v)
  Step-IsNode x y (ask t command e l) v =
      OnOk-ok IsNode _ y.node e (query_search_keeps w t command x.node v)
  Step-IsNode x y (show args e l) v =
      OnOk-ok IsNode _ y.node e (search_result_keeps w args x.node v)
  Step-IsNode x y (forget id arg args read e l) v =
      OnOk-ok IsNode _ y.node e (search_kill_keeps w (arg ∷ args) x.node v)
  Step-IsNode x y (round at id id' sr sr' ss asked s1 s2 f moved g sent e) v =
      let v1 =
        OnOk-ok (λ z. IsNode z.2) _ (sr', id', s1) moved
          (advance_keeps w.platform id sr x.node v) in
      let v2 =
        OnOk-ok (λ z. IsNode z.1) _ (asked, s2) sent
          (ask_next_nodes_keeps w.platform sr' ss s1 v1) in
      rw e (put_at-IsNode at id' asked sr' (record x { node = s2 }) v2)
  Step-IsNode x y (digest at id now sr ss left after batch f g t k e) v =
      rw e (put_at-IsNode at id after sr x v)
  Step-IsNode x y (stop at id sr ss f g e) v = rw e (put_at-IsNode at id _ sr x v)

  Reach-keeps : {x y : World Text} → IsNode x.node → Reach w x y → IsNode y.node
  Reach-keeps v here = v
  Reach-keeps v (next {y} {z} run step) = Step-IsNode y z step (Reach-keeps v run)

-- After a start that succeeds, whatever the configuration files held, whatever comes in, whatever
-- is typed and however the operations of the threads take turns, those of killed searches among
-- them, the state is well-formed: fewer
-- than 32 nodes to a bucket, all at its distance from this node, no address and port twice in one,
-- in each entry of the table only records of its key, no two equal, and exactly one receive posted
-- on the socket, if there is one.
pub Reach-IsNode :
    {Text : Type 0} (h : Host Text) (sort : List NodeRecord → List NodeRecord) (c c' : Config)
    (s : State Text) (u : World Text)
    → start_up h c ≡ ok (c', s)
    → Reach (surroundings h sort) (record { node = s; loose = [] }) u
    → IsNode u.node
Reach-IsNode h sort c c' s u started run =
    Reach-keeps (surroundings h sort) (start_up-IsNode h c c' s started) run
