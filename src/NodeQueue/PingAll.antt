-- ===== src/NodeQueue/PingAll.antt =====
-- `ping_all` of dht/NodeQueue.cpp.
use spatter.Messages.Node.{NodeRecord, node_eq}
use spatter.Messages.Archive.{Packet, Message, serialize_message}
use spatter.Control.Frame.{pinged, ping-pinged, ping_self}
use spatter.NodeQueue.{send_ping, ping_bucket, ping_buckets, ping_all, bucket_count}
use spatter.NodeQueue.Dropped.{walk}
use spatter.State.{State, Platform, ControlProtocol}
use spatter.Prelude.{
  ℕ, zero, suc, ◌+◌, ◌%◌, ◌^◌, ◌≡◌, refl, ap, sym, ◌∙◌, true, List, [], ◌∷◌, ◌++◌, some,
  if◌then◌else◌, All, All-append, append_assoc, append-nil, ok, Bool-cases, inl, inr,
}

-- The id after `id`.
abbrev pub next_id : ℕ → ℕ
next_id id = (id + 1) % 2 ^ 32

after_ids : ℕ → List NodeRecord → ℕ
after_ids id [] = id
after_ids id (n ∷ l) = after_ids (next_id id) l

module _ {Text : Type 0} (p : Platform Text) where
  -- The request from this node to `n`, as it is sent.
  abbrev pub request : NodeRecord → NodeRecord → ℕ → Packet Text × NodeRecord
  request this n id = (
    serialize_message p.archive (
        Message.ping
          (record { sender_node = this; receiver_node = n; is_reply = 0; message_id = id })),
    n,
  )

  -- The requests for a list of nodes, in order, with consecutive ids; this node is passed over, but
  -- uses up an id.
  unfoldable pub requests : NodeRecord → ℕ → List NodeRecord → List (Packet Text × NodeRecord)
  requests this id [] = []
  requests this id (n ∷ l) =
      (if node_eq n this then [] else request this n id ∷ []) ++ requests this (next_id id) l

  -- What the loops have done after the nodes of `l`.
  record Pinged (l : List NodeRecord) (s s' : State Text) : Type 0 where
    dht : s'.dht ≡ s.dht
    buckets : s'.buckets ≡ s.buckets
    sent : s'.sent ≡ s.sent ++ requests s.this_node s.next_message_id l
    next_message_id : s'.next_message_id ≡ after_ids s.next_message_id l
    open_socket : (c : ControlProtocol) × (s'.control ≡ some c)

  send_ping-Pinged :
      (now : ℕ) (n : NodeRecord) (s : State Text) (c : ControlProtocol)
      → s.control ≡ some c
      → p.resolves n ≡ true
      → (s' : State Text) × (send_ping p now n s ≡ ok s') × Pinged (n ∷ []) s s'
  unfolding send_ping requests after_ids
  send_ping-Pinged now n s c h r = elim (Bool-cases (node_eq n s.this_node)) [
    | inl self ↦ (
      record s { next_message_id = next_id s.next_message_id },
      ping_self p now _ _ c h self,
      record {
        dht = refl;
        buckets = refl;
        sent = rw self (sym (append-nil s.sent));
        next_message_id = refl;
        open_socket = (c, h);
      },
    )
    | inr other ↦ (
      pinged p now
          (record {
            sender_node = s.this_node;
            receiver_node = n;
            is_reply = 0;
            message_id = s.next_message_id;
          })
          c (record s { next_message_id = next_id s.next_message_id }),
      ping-pinged p now _ _ c h other r,
      record {
        dht = refl;
        buckets = refl;
        sent = rw other refl;
        next_message_id = refl;
        open_socket = (_, refl);
      },
    )
  ]

  after_ids-append :
      (id : ℕ) (l m : List NodeRecord) → after_ids id (l ++ m) ≡ after_ids (after_ids id l) m
  unfolding after_ids
  after_ids-append id [] m = refl
  after_ids-append id (n ∷ l) m = after_ids-append (next_id id) l m

  requests-append :
      (this : NodeRecord) (id : ℕ) (l m : List NodeRecord)
      → requests this id (l ++ m) ≡ requests this id l ++ requests this (after_ids id l) m
  unfolding requests after_ids
  requests-append this id [] m = refl
  requests-append this id (n ∷ l) m =
      rw (requests-append this (next_id id) l m)
        (sym (append_assoc (if node_eq n this then [] else request this n id ∷ []) _ _))

  Pinged-nil : (s : State Text) (c : ControlProtocol) → s.control ≡ some c → Pinged [] s s
  unfolding requests after_ids
  Pinged-nil s c h = record {
    dht = refl;
    buckets = refl;
    sent = sym (append-nil s.sent);
    next_message_id = refl;
    open_socket = (c, h);
  }

  Pinged-append :
      (l m : List NodeRecord) (s t u : State Text)
      → Pinged l s t
      → Pinged m t u
      → Pinged (l ++ m) s u
  Pinged-append l m s t u a b = record {
    dht = b.dht ∙ a.dht;
    buckets = b.buckets ∙ a.buckets;
    sent =
        rw
          (
            b.sent,
            a.sent,
            a.next_message_id,
            a.dht,
            requests-append s.this_node s.next_message_id l m,
          )
          (append_assoc s.sent _ _);
    next_message_id =
        rw (b.next_message_id, a.next_message_id) (sym (after_ids-append s.next_message_id l m));
    open_socket = b.open_socket;
  }

  abbrev AllResolve : List NodeRecord → Type 0
  AllResolve = All (λ n. p.resolves n ≡ true)

  ping_bucket-Pinged :
      (now : ℕ) (l : List NodeRecord) (s : State Text) (c : ControlProtocol)
      → s.control ≡ some c
      → AllResolve l
      → (s' : State Text) × (ping_bucket p now l s ≡ ok s') × Pinged l s s'
  unfolding ping_bucket
  ping_bucket-Pinged now [] s c h r = (s, refl, Pinged-nil s c h)
  ping_bucket-Pinged now (n ∷ l) s c h r =
      let (t, sent, first) = send_ping-Pinged now n s c h r.0 in
      let (c', h') = first.open_socket in
      let (u, done, rest) = ping_bucket-Pinged now l t c' h' r.1 in
      (u, rw sent done, Pinged-append (n ∷ []) l s t u first rest)

  ping_buckets-Pinged :
      (now k i : ℕ) (s : State Text) (c : ControlProtocol)
      → s.control ≡ some c
      → AllResolve (walk s.buckets k i)
      → (s' : State Text) × (ping_buckets p now k i s ≡ ok s') × Pinged (walk s.buckets k i) s s'
  unfolding ping_buckets
  ping_buckets-Pinged now zero i s c h r = (s, refl, Pinged-nil s c h)
  ping_buckets-Pinged now (suc k) i s c h r =
      let (here, later) = All-append (λ n. p.resolves n ≡ true) (s.buckets i) _ r in
      let (t, sent, first) = ping_bucket-Pinged now (s.buckets i) s c h here in
      let (c', h') = first.open_socket in
      let same = ap (λ (b : ℕ → List NodeRecord). walk b k (i + 1)) first.buckets in
      let (u, done, rest) = ping_buckets-Pinged now k (i + 1) t c' h' (rw same later) in
      (
        u,
        rw sent done,
        Pinged-append (s.buckets i) (walk s.buckets k (i + 1)) s t u first (rw same at rest),
      )

  -- With the socket open and all known addresses resolvable, `ping_all` succeeds. It sends one
  -- request to each known node but this one, bucket by bucket and with consecutive message ids, and
  -- the buckets and the table stay.
  pub ping_all-requests :
      (now : ℕ) (s : State Text) (c : ControlProtocol)
      → s.control ≡ some c
      → AllResolve (walk s.buckets bucket_count 0)
      → (s' : State Text) × (ping_all p now s ≡ ok s')
        × (s'.sent
            ≡ s.sent ++ requests s.this_node s.next_message_id (walk s.buckets bucket_count 0))
        × (s'.buckets ≡ s.buckets)
        × (s'.dht ≡ s.dht)
  unfolding ping_all
  ping_all-requests now s c h r =
      let (s', done, f) = ping_buckets-Pinged now bucket_count 0 s c h r in
      (s', done, f.sent, f.buckets, f.dht)
