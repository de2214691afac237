-- ===== src/Main/Startup.antt =====
-- What the start of main.cpp leaves behind.
use spatter.Boost.{codes}
use spatter.Config.{Config, line_separators, load_config, get_param}
use spatter.Config.Files.{read_file}
use spatter.Config.Friends.{load_friends, load_friends_file, load_friends_list}
use spatter.Config.Friends.Known.{load_friends-Keeps}
use spatter.Control.Invariant.{IsNode, Keeps-ok}
use spatter.Control.Send.{create}
use spatter.Dht.{Dht, new_dht}
use spatter.Main.{Host, new_state, cast_or_throw, open_control, start_up}
use spatter.Messages.Str.{Str}
use spatter.NodeQueue.{ping_all}
use spatter.NodeQueue.Receiving.{OneReceive, ping_all-OneReceive}
use spatter.NodeQueue.PingKeeps.{ping_all_keeps}
use spatter.State.{State}
use spatter.Prelude.{
  Option-cases, Bool-cases, inl, inr, OnOk, OnOk-bind, OnOk-rule, OnOk-known, OnOk-ok, ℕ, ◌≡◌, refl,
  ◌∙◌, true, false, List, [], length, ltb, none, some, if◌then◌else◌, ok, arith,
}

module _ {Text : Type 0} (h : Host Text) where
  -- What `open_control` keeps.
  open_control_keeps :
      (c : Config) (s : State Text)
      → ((open_control h c s).1.dht ≡ s.dht) × ((open_control h c s).1.buckets ≡ s.buckets)
  unfolding open_control create
  open_control_keeps c s = ground arith

  create-OneReceive :
      (port : ℕ) (s : State Text) → OneReceive s.control → OneReceive (create port s).control
  unfolding create
  create-OneReceive port s o = elim (Option-cases s.control) [
    | inl closed ↦ rw closed refl
    | inr (c, is_open) ↦ rw is_open (rw is_open at o)
  ]

  open_control_receives :
      (c : Config) (s : State Text)
      → OneReceive s.control
      → OneReceive (open_control h c s).1.control
  unfolding open_control
  open_control_receives c s o =
      elim (h.boost.lexical_cast 16 (get_param (codes "network.port") c).0)
        as (λ x.
          OneReceive
            (elim x as (λ y. State Text) [
              | none ↦ s
              | some port ↦ if h.binds port then create port s else s
            ]).control) [
              | none ↦ o
              | some port ↦ elim (Bool-cases (h.binds port)) [
                | inl bound ↦ rw bound (create-OneReceive port s o)
                | inr unbound ↦ rw unbound o
              ]
            ]

  new_state-IsNode : (dht : Dht) → dht.hash_table ≡ [] → IsNode (new_state {Text = Text} dht)
  new_state-IsNode dht e = record {
    buckets = λ i. record { short = omega arith; distinct = tt };
    placed = λ i. tt;
    table = rw e tt;
    receiving = tt;
  }

  -- A property of states that the loop over the friends has holds behind `load_friends_list`.
  pub after_friends :
      (Q : State Text → Type 0) (c : Config) (s : State Text)
      → Q s
      → ((i : ℕ) (lines : List Str)
          → OnOk Q (load_friends h.boost h.platform h.now h.rand i lines s))
      → OnOk (λ x. Q x.2) (load_friends_list h.boost h.platform h.now h.rand c s)
  unfolding load_friends_list load_friends_file
  after_friends Q c s q f =
      let (file, c') = get_param (codes "dht.friendlist") c in
      elim (ltb 0 (length file))
        as (λ b.
          OnOk (λ x. Q x.2)
            (if b
              then load_friends_file h.boost h.platform h.now h.rand file c' s
              else ok (false, c', s))) [
                | true ↦
                    OnOk-known (λ x. Q x.2) (read_file (c'.files file)) _
                      (λ text e.
                        OnOk-bind Q (λ x. Q x.2) (λ s'. (true, c', s'))
                          (load_friends h.boost h.platform h.now h.rand 0
                            (h.boost.tokenize line_separators text) s)
                          (λ s' v. v) (f 0 (h.boost.tokenize line_separators text)))
                | false ↦ q
              ]

  -- The start in general: a property that the friends have and that the socket and the pings carry on.
  pub after_start :
      (Q R : State Text → Type 0) (c : Config)
      → ((ip : Str) (port : ℕ) → Q (new_state (new_dht h.tiger h.to_str ip port h.random)))
      → ((i : ℕ) (lines : List Str) (s : State Text)
          → Q s
          → OnOk Q (load_friends h.boost h.platform h.now h.rand i lines s))
      → ((c' : Config) (s s' : State Text)
          → Q s
          → ping_all h.platform h.now (open_control h c' s).1 ≡ ok s'
          → R s')
      → OnOk (λ x. R x.1) (start_up h c)
  unfolding start_up
  after_start Q R c new known pinged =
      OnOk-known (λ x. R x.1) (load_config h.boost (codes "spatter.conf") c) _
        (λ x1 e1.
          let (ip, c2) = get_param (codes "network.ip") x1.1 in
          let (text, c3) = get_param (codes "network.port") c2 in
          OnOk-known (λ x. R x.1) (cast_or_throw (h.boost.lexical_cast 16 text)) _
            (λ port e2.
              let fresh = new_state (new_dht h.tiger h.to_str ip port h.random) in
              let listed =
                after_friends Q c3 fresh (new ip port)
                  (λ i lines. known i lines fresh (new ip port)) in
              OnOk-known (λ x. R x.1) (load_friends_list h.boost h.platform h.now h.rand c3 fresh) _
                (λ x2 e3.
                  let (size_text, c5) = get_param (codes "network.thread_pool_size") x2.1 in
                  OnOk-known (λ x. R x.1) (cast_or_throw (h.boost.lexical_cast 64 size_text)) _
                    (λ size e4.
                      OnOk-known (λ x. R x.1) (ping_all h.platform h.now (open_control h c5 x2.2).1)
                        _ (λ s3 e5. pinged c5 x2.2 s3 (OnOk-ok (λ x. Q x.2) _ x2 e3 listed) e5)))))

  pings_keep :
      (c : Config) (s s' : State Text)
      → IsNode s
      → ping_all h.platform h.now (open_control h c s).1 ≡ ok s'
      → IsNode s'
  pings_keep c s s' v e =
      let (d, b) = open_control_keeps c s in
      let (d', b') = ping_all_keeps h.platform h.now (open_control h c s).1 s' e in
      record {
        buckets = rw (b' ∙ b) v.buckets;
        placed = rw (d' ∙ d, b' ∙ b) v.placed;
        table = rw (d' ∙ d) v.table;
        receiving =
            ping_all-OneReceive h.platform h.now _ s' e (open_control_receives c s v.receiving);
      }

  -- The start leaves well-formed buckets and a well-formed table, whatever the files hold, and one
  -- receive posted on the socket, if there is one.
  pub start_up-IsNode : (c c' : Config) (s : State Text) → start_up h c ≡ ok (c', s) → IsNode s
  start_up-IsNode c c' s e =
      OnOk-ok (λ x. IsNode x.1) (start_up h c) (c', s) e
        (after_start IsNode IsNode c
          (λ ip port.
            new_state-IsNode (new_dht h.tiger h.to_str ip port h.random) (unfold new_dht in refl))
          (λ i lines s v. OnOk-rule IsNode _ (λ s' done.
            Keeps-ok h.platform h.now _ s' done
              (load_friends-Keeps h.boost h.platform h.now h.rand i lines s v)))
          (λ c' s s' v pinged. pings_keep c' s s' v pinged))
