-- ===== src/Main/Joined.antt =====
-- A start of main.cpp with a complete configuration joins the network.
use spatter.Boost.{codes}
use spatter.Config.{Config, line_separators, find_prop, load_config}
use spatter.Config.Settled.{get_param_present}
use spatter.Config.Files.{read_file}
use spatter.Config.Friends.{load_friends_file, load_friends_list}
use spatter.Config.Friends.Known.{load_friends_succeeds, AllFriends}
use spatter.Control.Send.{create}
use spatter.Dht.{Dht, new_dht}
use spatter.Main.{Host, new_state, open_control, start_up}
use spatter.Messages.Node.{NodeRecord}
use spatter.Messages.Str.{Str}
use spatter.NodeQueue.{ping_all, bucket_count, bucket_size}
use spatter.NodeQueue.Dropped.{walk}
use spatter.NodeQueue.PingAll.{requests, ping_all-requests}
use spatter.State.{State, ControlProtocol}
use spatter.Prelude.{
  ℕ, ◌<◌, ◌≡◌, refl, sym, ◌∙◌, ap, Bool, true, List, [], ◌∷◌, ◌++◌, length, ltb, none, some, ok,
  All, arith,
}

is_long : (s : Str) → 0 < length s → ltb 0 (length s) ≡ true
is_long s h = ground arith

-- The parameters that `main` asks for.
pub record Complete (c : Config) (ip port friends threads : Str) : Type 0 where
  pub has_ip : find_prop (codes "network.ip") c.props ≡ some ip
  pub has_port : find_prop (codes "network.port") c.props ≡ some port
  pub has_friends : find_prop (codes "dht.friendlist") c.props ≡ some friends
  pub has_threads : find_prop (codes "network.thread_pool_size") c.props ≡ some threads

module _ {Text : Type 0} (h : Host Text) where
  each_resolves :
      ((n : NodeRecord) → h.platform.resolves n ≡ true)
      → (l : List NodeRecord) → All (λ n. h.platform.resolves n ≡ true) l
  each_resolves r [] = tt
  each_resolves r (n ∷ l) = (r n, each_resolves r l)

  friends_taken :
      (c : Config) (this : NodeRecord) (dht : Dht) (ip port friends threads text : Str)
      → Complete c ip port friends threads
      → dht.this_node ≡ this
      → 0 < length friends
      → read_file (c.files friends) ≡ ok text
      → AllFriends h.boost h.platform h.now h.rand this 0 (h.boost.tokenize line_separators text)
      → length (h.boost.tokenize line_separators text) < bucket_size
      → (s : State Text) × (load_friends_list h.boost h.platform h.now h.rand c (new_state dht)
          ≡ ok (true, c, s))
        × (s.dht ≡ dht)
        × (s.control ≡ none)
        × (s.sent ≡ [])
        × (s.next_message_id ≡ 0)
  unfolding load_friends_list load_friends_file
  friends_taken c this dht ip port friends threads text k t n r f l =
      let (s, done, d, control, sent, id) =
        load_friends_succeeds h.boost h.platform h.now h.rand this 0
          (h.boost.tokenize line_separators text) f 0 (new_state dht) t (λ j. omega arith)
          (omega arith) in
      (
        s,
        rw (get_param_present (codes "dht.friendlist") friends c k.has_friends)
            (rw (is_long friends n, r, done) refl),
        d,
        control,
        sent,
        id,
      )

  opened :
      (c : Config) (s : State Text) (ip text friends threads : Str) (port : ℕ)
      → Complete c ip text friends threads
      → h.boost.lexical_cast 16 text ≡ some port
      → h.binds port ≡ true
      → open_control h c s ≡ (c, create port s)
  unfolding open_control
  opened c s ip text friends threads port k cast bound =
      rw (get_param_present (codes "network.port") text c k.has_port) (rw (cast, bound) refl)

  -- The start with all parameters set, by its parts.
  pub started :
      (c0 c : Config) (ip port_text friends threads : Str) (port size : ℕ) (b listed : Bool)
      (known s : State Text)
      → load_config h.boost (codes "spatter.conf") c0 ≡ ok (b, c)
      → Complete c ip port_text friends threads
      → h.boost.lexical_cast 16 port_text ≡ some port
      → h.boost.lexical_cast 64 threads ≡ some size
      → load_friends_list h.boost h.platform h.now h.rand c
          (new_state (new_dht h.tiger h.to_str ip port h.random))
        ≡ ok (listed, c, known)
      → (open_control h c known).0 ≡ c
      → ping_all h.platform h.now (open_control h c known).1 ≡ ok s
      → start_up h c0 ≡ ok (c, s)
  unfolding start_up
  started c0 c ip port_text friends threads port size b listed known s loaded k cast cast2 found
        same pinged =
      rw loaded (
        rw (get_param_present (codes "network.ip") ip c k.has_ip) (
          rw (get_param_present (codes "network.port") port_text c k.has_port) (
            rw (cast, found)
              (rw (get_param_present (codes "network.thread_pool_size") threads c k.has_threads)
                (rw (cast2, pinged, same) refl)))))

  -- What has been sent by a start that has gone well: a request to each known node.
  unfoldable pub Joined : State Text → Type 0
  Joined s = s.sent ≡ requests h.platform s.this_node 0 (walk s.buckets bucket_count 0)

  created :
      (port : ℕ) (s : State Text)
      → s.control ≡ none
      → create port s ≡ record s {
        control = some (record { port = port; unacknowledged_pings = []; receives = 1 });
      }
  unfolding create
  created port s e = rw e refl

  Joined-sent :
      (s t : State Text)
      → s.sent ≡ []
      → s.next_message_id ≡ 0
      → t.sent
        ≡ s.sent
          ++ requests h.platform s.this_node s.next_message_id (walk s.buckets bucket_count 0)
      → t.buckets ≡ s.buckets
      → t.dht ≡ s.dht
      → Joined t
  unfolding Joined
  Joined-sent s t nothing zero_id sent b d =
      let from_start : t.sent ≡ requests h.platform s.this_node 0 (walk s.buckets bucket_count 0) =
        rw (nothing, zero_id) at sent in
      from_start
      ∙ sym (
          ap
            (λ (l : ℕ → List NodeRecord). requests h.platform t.this_node 0 (walk l bucket_count 0))
            b
          ∙ ap (λ (x : Dht). requests h.platform x.this_node 0 (walk s.buckets bucket_count 0)) d)

  pings_sent :
      (port : ℕ) (s : State Text)
      → s.control ≡ none
      → s.sent ≡ []
      → s.next_message_id ≡ 0
      → ((n : NodeRecord) → h.platform.resolves n ≡ true)
      → (t : State Text) × (ping_all h.platform h.now (create port s) ≡ ok t)
        × (t.dht ≡ s.dht)
        × Joined t
  pings_sent port s none_yet nothing zero_id r =
      let fresh : ControlProtocol = record {
        port = port;
        unacknowledged_pings = [];
        receives = 1;
      } in
      let u : State Text = record s { control = some fresh } in
      let (t, done, sent, b, d) =
        ping_all-requests h.platform h.now u fresh refl
          (each_resolves r (walk s.buckets bucket_count 0)) in
      (
        t,
        ap (ping_all h.platform h.now) (created port s none_yet) ∙ done,
        d,
        Joined-sent s t nothing zero_id sent b d,
      )

  -- A start succeeds with all parameters set and the numbers among them well-formed, with a file
  -- of friends of fewer than 32 lines, each a comment or a node that has a port and is at a
  -- distance below 192, with a port that can be bound and addresses that resolve. It leaves the
  -- configuration as read, a new table, and one request sent to each known node but this one.
  pub start_up_succeeds :
      (c0 c : Config) (ip port_text friends threads text : Str) (port size : ℕ) (b : Bool)
      → load_config h.boost (codes "spatter.conf") c0 ≡ ok (b, c)
      → Complete c ip port_text friends threads
      → h.boost.lexical_cast 16 port_text ≡ some port
      → h.boost.lexical_cast 64 threads ≡ some size
      → h.binds port ≡ true
      → ((n : NodeRecord) → h.platform.resolves n ≡ true)
      → 0 < length friends
      → read_file (c.files friends) ≡ ok text
      → AllFriends h.boost h.platform h.now h.rand
          (new_dht h.tiger h.to_str ip port h.random).this_node
          0
          (h.boost.tokenize line_separators text)
      → length (h.boost.tokenize line_separators text) < bucket_size
      → (s : State Text) × (start_up h c0 ≡ ok (c, s))
        × (s.dht ≡ new_dht h.tiger h.to_str ip port h.random)
        × Joined s
  start_up_succeeds c0 c ip port_text friends threads text port size b loaded k cast cast2 bound r n
        read f l =
      let dht = new_dht h.tiger h.to_str ip port h.random in
      let (known, listed, d, control, sent, id) =
        friends_taken c dht.this_node dht ip port_text friends threads text k refl n read f l in
      let opens = opened c known ip port_text friends threads port k cast bound in
      let (s, pinged, d', joined) = pings_sent port known control sent id r in
      (
        s,
        started c0 c ip port_text friends threads port size b true known s loaded k cast cast2
            listed (ap (λ x. x.0) opens) (ap (λ x. ping_all h.platform h.now x.1) opens ∙ pinged),
        d' ∙ d,
        joined,
      )
