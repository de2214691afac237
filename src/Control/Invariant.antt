-- ===== src/Control/Invariant.antt =====
-- What every message keeps: the well-formedness of the buckets and of the table, whatever the sender
-- has put in it.
use spatter.Messages.Node.{NodeRecord}
use spatter.Messages.File.{PublishMessage}
use spatter.Messages.Ping.{PingMessage}
use spatter.Messages.Search.{SearchMessage, SearchResult}
use spatter.Messages.Archive.{Packet}
use spatter.Dht.{insert_file_info_record}
use spatter.Dht.Records.{IsTable, insert_file_info_record-IsTable}
use spatter.Control.Send.{udp_send}
use spatter.Control.Frame.{udp_send-SendsOnly}
use spatter.Control.Handle
use spatter.NodeQueue.{mark_seen}
use spatter.NodeQueue.Buckets.{IsBuckets}
use spatter.NodeQueue.Placed.{IsPlaced, mark_seen-IsPlaced}
use spatter.NodeQueue.Receiving.{OneReceive, udp_send-OneReceive, mark_seen-OneReceive}
use spatter.NodeQueue.Seen.{mark_seen-IsBuckets, mark_seen-Marked}
use spatter.Search.Manager.{handle_search, handle_search_result}
use spatter.State.{State, Platform}
use spatter.Prelude.{
  ℕ, ◌≡◌, refl, Bool, true, false, Option, none, some, if◌then◌else◌, Outcome, ok, fault, ◌>>=◌,
  Option-cases, Bool-cases, inl, inr, ◌==◌, arith,
}

-- Each bucket is short, has no address twice, and has nodes of its distance only; each entry of the
-- table has records of its key only, and none twice; and exactly one receive is posted on the socket,
-- if there is one.
pub record IsNode {Text : Type 0} (s : State Text) : Type 0 where
  pub buckets : IsBuckets s.buckets
  pub placed : IsPlaced s.this_node s.buckets
  pub table : IsTable s.dht.hash_table
  pub receiving : OneReceive s.control

-- It is about the table, the buckets and the socket only.
pub IsNode-same :
    {Text : Type 0} (s s' : State Text)
    → s'.dht ≡ s.dht
    → s'.buckets ≡ s.buckets
    → s'.control ≡ s.control
    → IsNode s
    → IsNode s'
IsNode-same s s' d b c v = record {
  buckets = rw b v.buckets;
  placed = rw (d, b) v.placed;
  table = rw d v.table;
  receiving = rw c v.receiving;
}

-- An outcome that, if it is a state, is well-formed.
abbrev pub Keeps : {Text : Type 0} → Outcome (State Text) → Type 0
Keeps (ok s) = IsNode s
Keeps (fault e) = Unit {0}

pub Keeps-bind :
    {Text : Type 0} (m : Outcome (State Text)) (f : State Text → Outcome (State Text))
    → Keeps m
    → ((s : State Text) → IsNode s → Keeps (f s))
    → Keeps (m >>= f)
Keeps-bind (ok s) f k g = g s k
Keeps-bind (fault e) f k g = tt

Keeps-rule :
    {Text : Type 0} (m : Outcome (State Text)) → ((s : State Text) → m ≡ ok s → IsNode s) → Keeps m
Keeps-rule (ok s) f = f s refl
Keeps-rule (fault e) f = tt

module _ {Text : Type 0} (p : Platform Text) (now : ℕ) where
  pub mark_seen-Keeps : (n : NodeRecord) (s : State Text) → IsNode s → Keeps (mark_seen p now n s)
  mark_seen-Keeps n s v = Keeps-rule (mark_seen p now n s) (λ s' e. record {
    buckets = mark_seen-IsBuckets p now n s s' v.buckets e;
    placed = mark_seen-IsPlaced p now n s s' v.placed e;
    table = rw (mark_seen-Marked p now n s s' e).dht v.table;
    receiving = mark_seen-OneReceive p now n s s' e v.receiving;
  })

  udp_send-Keeps :
      (msg : Packet Text) (to : NodeRecord) (s : State Text)
      → IsNode s
      → Keeps (udp_send p msg to s)
  udp_send-Keeps msg to s v = Keeps-rule (udp_send p msg to s) (λ s' e.
      let f = udp_send-SendsOnly p msg to s s' e in
      record {
        buckets = rw f.buckets v.buckets;
        placed = rw (f.dht, f.buckets) v.placed;
        table = rw f.dht v.table;
        receiving = udp_send-OneReceive p msg to s s' e v.receiving;
      })

  handle_search_result_same :
      (srm : SearchResult) (s : State Text)
      → ((handle_search_result srm s).dht ≡ s.dht)
        × ((handle_search_result srm s).buckets ≡ s.buckets)
        × ((handle_search_result srm s).control ≡ s.control)
  unfolding handle_search_result
  handle_search_result_same srm s = ground arith

  handle_search_result-IsNode :
      (srm : SearchResult) (s : State Text) → IsNode s → IsNode (handle_search_result srm s)
  handle_search_result-IsNode srm s v =
      let (d, b, c) = handle_search_result_same srm s in IsNode-same s _ d b c v

  handle_publish-Keeps :
      (pm : PublishMessage) (s : State Text) → IsNode s → Keeps (Handle.handle_publish p now pm s)
  unfolding Handle.handle_publish
  handle_publish-Keeps pm s v = mark_seen-Keeps pm.file_info.node _ (record {
    buckets = v.buckets;
    placed = unfold insert_file_info_record in v.placed;
    table = insert_file_info_record-IsTable s.dht pm.file_info v.table;
    receiving = v.receiving;
  })

  handle_search-Keeps :
      (sm : SearchMessage) (s : State Text)
      → IsNode s
      → Keeps (Handle.handle_search_message p now sm s)
  unfolding Handle.handle_search_message handle_search
  handle_search-Keeps sm s v =
      Keeps-bind (handle_search p sm s) (mark_seen p now sm.sender_node)
        (udp_send-Keeps _ sm.sender_node s v) (mark_seen-Keeps sm.sender_node)

  handle_ping-Keeps :
      (pm : PingMessage) (s : State Text) → IsNode s → Keeps (Handle.handle_ping p now pm s)
  unfolding Handle.handle_ping
  handle_ping-Keeps pm s v = elim (Bool-cases (pm.is_reply == 0)) [
    | inl request ↦ rw request (
        Keeps-bind (udp_send p _ pm.sender_node s) (mark_seen p now s.this_node)
          (udp_send-Keeps _ pm.sender_node s v) (mark_seen-Keeps s.this_node))
    | inr reply ↦ rw reply (elim (Option-cases s.control) [
      | inl closed ↦ rw closed tt
      | inr (c, connected) ↦ rw connected (
          mark_seen-Keeps pm.sender_node _ (record {
            buckets = v.buckets;
            placed = v.placed;
            table = v.table;
            receiving = rw connected at v.receiving;
          }))
    ])
  ]

  or_throw-Keeps :
      {A : Type 0} (o : Option A) (f : A → Outcome (State Text))
      → ((a : A) → Keeps (f a))
      → Keeps (Handle.or_throw o f)
  or_throw-Keeps none f k = tt
  or_throw-Keeps (some a) f k = k a

  pub if-Keeps :
      (b : Bool) (m k : Outcome (State Text)) → Keeps m → Keeps k → Keeps (if b then m else k)
  if-Keeps true m k u v = u
  if-Keeps false m k u v = v

  dispatch-Keeps :
      (type : ℕ) (text : Text) (s : State Text)
      → IsNode s
      → Keeps (Handle.dispatch p now type text s)
  unfolding Handle.dispatch
  dispatch-Keeps type text s v =
      if-Keeps (type == 1) _ _
        (or_throw-Keeps (p.read_publish text) _ (λ pm. handle_publish-Keeps pm s v))
        (if-Keeps (type == 2) _ _
          (or_throw-Keeps (p.read_search text) _ (λ sm. handle_search-Keeps sm s v))
          (if-Keeps (type == 3) _ _
            (or_throw-Keeps (p.read_search_result text) _
              (λ srm. mark_seen-Keeps srm.sender_node _ (handle_search_result-IsNode srm s v)))
            (if-Keeps (type == 4) _ _
              (or_throw-Keeps (p.read_ping text) _ (λ pm. handle_ping-Keeps pm s v)) v)))

  pub Keeps-ok : (m : Outcome (State Text)) (s : State Text) → m ≡ ok s → Keeps m → IsNode s
  Keeps-ok m s e k = rw e at k

  -- Every packet that `handle_message` gets through in a well-formed state, whatever its type and
  -- contents, leaves the state well-formed: fewer than 32 nodes to a bucket, all at its distance, no
  -- address and port twice in one, in each entry of the table only records of its key, no two equal,
  -- and exactly one receive posted on the socket, if there is one.
  pub handle_message-IsNode :
      (m : Packet Text) (s s' : State Text)
      → IsNode s
      → Handle.handle_message p now m s ≡ ok s'
      → IsNode s'
  unfolding Handle.handle_message
  handle_message-IsNode m s s' v e =
      Keeps-ok _ s' e (if-Keeps (p.opens m.body) _ _ (dispatch-Keeps m.type m.body s v) tt)
