-- ===== src/Main/Repeats.antt =====
-- What a start of main.cpp depends on: a start from the same parameters goes the same way.
use spatter.Boost.{codes}
use spatter.Config.{Config, find_prop, load_config, get_param, line_separators}
use spatter.Config.Files.{read_file}
use spatter.Config.Friends.{load_friends, load_friends_file, load_friends_list}
use spatter.Config.RoundTrip.{DistinctNames}
use spatter.Config.Settled.{
  Settled, Settled-trans, get_param-Settled, get_param_present, get_param-DistinctNames,
  load_config-Loaded,
}
use spatter.Dht.{new_dht}
use spatter.Main.{Host, new_state, cast_or_throw, open_control, start_up}
use spatter.Main.Joined.{started}
use spatter.Messages.Str.{Str}
use spatter.NodeQueue.{ping_all}
use spatter.State.{State}
use spatter.Prelude.{
  ℕ, ◌≡◌, refl, sym, ◌∙◌, ap, Bool, true, false, Option, none, some, subst, if◌then◌else◌, length,
  ltb, Outcome, ok, >>=-eq-ok,
}

cast_some : {A : Type 0} (o : Option A) (a : A) → cast_or_throw o ≡ ok a → o ≡ some a
cast_some none a e = cc
cast_some (some b) a e = cc

ok-pair :
    {A B : Type 0} {a a' : A} {b b' : B}
    → ◌≡◌ {A = Outcome (A × B)} (ok (a, b)) (ok (a', b'))
    → (a ≡ a') × (b ≡ b')
ok-pair e = (cc, cc)

abbrev after : Str → Config → Config
after key c = (get_param key c).1

module _ {Text : Type 0} (h : Host Text) where
  open_control_again :
      (c d : Config) (s : State Text)
      → find_prop (codes "network.port") d.props ≡ some (get_param (codes "network.port") c).0
      → open_control h d s ≡ (d, (open_control h c s).1)
  unfolding open_control
  open_control_again c d s e = rw (get_param_present (codes "network.port") _ d e) refl

  friends_by :
      (b found : Bool) (file : Str) (c d c' : Config) (s known : State Text)
      → d.files file ≡ c.files file
      → (if b then load_friends_file h.boost h.platform h.now h.rand file c s else ok (false, c, s))
        ≡ ok (found, c', known)
      → (c' ≡ c)
        × ((if b
              then load_friends_file h.boost h.platform h.now h.rand file d s
              else ok (false, d, s))
            ≡ ok (found, d, known))
  unfolding load_friends_file
  friends_by true found file c d c' s known f e =
      let (text, r, e1) = >>=-eq-ok (read_file (c.files file)) _ e in
      let (s', l, e2) =
        >>=-eq-ok
          (load_friends h.boost h.platform h.now h.rand 0 (h.boost.tokenize line_separators text) s)
          _ e1 in
      (cc, rw (f, r, l) cc)
  friends_by false found file c d c' s known f e = (cc, cc)

  friends_left :
      (found : Bool) (c c' : Config) (s known : State Text)
      → load_friends_list h.boost h.platform h.now h.rand c s ≡ ok (found, c', known)
      → c' ≡ after (codes "dht.friendlist") c
  unfolding load_friends_list
  friends_left found c c' s known k =
      (friends_by (ltb 0 (length (get_param (codes "dht.friendlist") c).0)) found _ _
        (after (codes "dht.friendlist") c) c' s known refl k).0

  -- The same list of friends is read.
  friends_again :
      (found : Bool) (c d c' : Config) (s known : State Text)
      → let file = (get_param (codes "dht.friendlist") c).0 in
        find_prop (codes "dht.friendlist") d.props ≡ some file
        → d.files file ≡ (get_param (codes "dht.friendlist") c).1.files file
        → load_friends_list h.boost h.platform h.now h.rand c s ≡ ok (found, c', known)
        → (c' ≡ (get_param (codes "dht.friendlist") c).1)
          × (load_friends_list h.boost h.platform h.now h.rand d s ≡ ok (found, d, known))
  unfolding load_friends_list
  friends_again found c d c' s known e f k =
      let (same, again) =
        friends_by (ltb 0 (length (get_param (codes "dht.friendlist") c).0)) found _ _ d c' s known
          f k in
      (same, rw (get_param_present (codes "dht.friendlist") _ d e) again)

  -- A start that has gone well left every parameter that it asked for; a start from a configuration with
  -- those parameters and the same file of friends goes the same way.
  pub record Repeats (c : Config) (s : State Text) : Type 0 where
    pub config_file : c.config_file ≡ codes "spatter.conf"
    pub distinct : DistinctNames c.props
    pub again :
        (d0 d : Config) (b : Bool)
        → load_config h.boost (codes "spatter.conf") d0 ≡ ok (b, d)
        → ((key value : Str)
            → find_prop key c.props ≡ some value
            → find_prop key d.props ≡ some value)
        → d.files (get_param (codes "dht.friendlist") c).0
          ≡ c.files (get_param (codes "dht.friendlist") c).0
        → start_up h d0 ≡ ok (d, s)

  replays_parts :
      (c0 c1 c4 c : Config) (b found : Bool) (port size : ℕ) (known s : State Text)
      → DistinctNames c0.props
      → load_config h.boost (codes "spatter.conf") c0 ≡ ok (b, c1)
      → let c3 = after (codes "network.port") (after (codes "network.ip") c1) in
        h.boost.lexical_cast 16 (get_param (codes "network.port") (after (codes "network.ip") c1)).0
          ≡ some port
        → load_friends_list h.boost h.platform h.now h.rand c3 (
            new_state
              (new_dht h.tiger h.to_str (get_param (codes "network.ip") c1).0 port h.random))
          ≡ ok (found, c4, known)
        → h.boost.lexical_cast 64 (get_param (codes "network.thread_pool_size") c4).0 ≡ some size
        → let c5 = after (codes "network.thread_pool_size") c4 in
          ping_all h.platform h.now (open_control h c5 known).1 ≡ ok s
          → (open_control h c5 known).0 ≡ c
          → Repeats c s
  unfolding open_control
  replays_parts c0 c1 c4 c b found port size known s v l cast f cast2 pinged same =
      let loaded = load_config-Loaded h.boost (codes "spatter.conf") c0 c1 b v l in
      let c2 = after (codes "network.ip") c1 in
      let c3 = after (codes "network.port") c2 in
      let c5 = after (codes "network.thread_pool_size") c4 in
      let fresh =
        new_state (new_dht h.tiger h.to_str (get_param (codes "network.ip") c1).0 port h.random) in
      let listed = friends_left found c3 c4 fresh known f in
      let (ip_set, u1) = get_param-Settled (codes "network.ip") c1 in
      let (port_set, u2) = get_param-Settled (codes "network.port") c2 in
      let (friends_set, u3) = get_param-Settled (codes "dht.friendlist") c3 in
      let (threads_set, u4) = get_param-Settled (codes "network.thread_pool_size") c4 in
      let (port_again, u5) = get_param-Settled (codes "network.port") c5 in
      let v5 : Settled c5 c = subst (Settled c5) same u5 in
      let v4 : Settled c4 c = Settled-trans c4 c5 c u4 v5 in
      let v3 : Settled c3 c = Settled-trans c3 c4 c (subst (Settled c3) (sym listed) u3) v4 in
      let v2 : Settled c2 c = Settled-trans c2 c3 c u2 v3 in
      let v1 : Settled c1 c = Settled-trans c1 c2 c u1 v2 in
      let friends_kept = v4.props _ _ (
        subst
          (λ (x : Config).
            find_prop (codes "dht.friendlist") x.props
            ≡ some (get_param (codes "dht.friendlist") c3).0)
          (sym listed) friends_set) in
      let port_kept =
        subst
          (λ (x : Config).
            find_prop (codes "network.port") x.props ≡ some (get_param (codes "network.port") c5).0)
          same port_again in
      record {
        config_file = v1.config_file ∙ loaded.config_file;
        distinct =
            subst (λ (x : Config). DistinctNames x.props) same
              (get_param-DistinctNames (codes "network.port") c5 (
                get_param-DistinctNames (codes "network.thread_pool_size") c4 (
                  subst (λ (x : Config). DistinctNames x.props) (sym listed)
                    (get_param-DistinctNames (codes "dht.friendlist") c3 (
                      get_param-DistinctNames (codes "network.port") c2
                        (get_param-DistinctNames (codes "network.ip") c1 loaded.distinct))))));
        again = λ d0 d b' l' props files.
            let file = (get_param (codes "dht.friendlist") c3).0 in
            let there = get_param_present (codes "dht.friendlist") file c friends_kept in
            let same_file =
              subst (λ (x : Str). d.files x ≡ c.files x) (ap (λ x. x.0) there) files
              ∙ ap (λ (g : Str → Str). g file) (v4.files ∙ ap (λ (x : Config). x.files) listed) in
            let (_, read_again) =
              friends_again found c3 d c4 fresh known (props _ _ friends_kept) same_file f in
            let opens = open_control_again c5 d known (props _ _ port_kept) in
            started h d0 d _ _ _ _ port size b' found known s l'
              (record {
                has_ip = props _ _ (v2.props _ _ ip_set);
                has_port = props _ _ (v3.props _ _ port_set);
                has_friends = props _ _ friends_kept;
                has_threads = props _ _ (v5.props _ _ threads_set);
              })
              cast cast2 read_again (ap (λ x. x.0) opens)
              (ap (λ x. ping_all h.platform h.now x.1) opens ∙ pinged);
      }

  pub start_up-Repeats :
      (c0 c : Config) (s : State Text)
      → DistinctNames c0.props
      → start_up h c0 ≡ ok (c, s)
      → Repeats c s
  unfolding start_up
  start_up-Repeats c0 c s v e =
      let ((b, c1), l, e1) = >>=-eq-ok (load_config h.boost (codes "spatter.conf") c0) _ e in
      let loaded = load_config-Loaded h.boost (codes "spatter.conf") c0 c1 b v l in
      let c2 = (get_param (codes "network.ip") c1).1 in
      let c3 = (get_param (codes "network.port") c2).1 in
      let (port, p, e2) =
        >>=-eq-ok (cast_or_throw (h.boost.lexical_cast 16 (get_param (codes "network.port") c2).0))
          _ e1 in
      let fresh =
        new_state (new_dht h.tiger h.to_str (get_param (codes "network.ip") c1).0 port h.random) in
      let ((found, c4, known), f, e3) =
        >>=-eq-ok (load_friends_list h.boost h.platform h.now h.rand c3 fresh) _ e2 in
      let (size, t, e4) =
        >>=-eq-ok
          (cast_or_throw
            (h.boost.lexical_cast 64 (get_param (codes "network.thread_pool_size") c4).0))
          _ e3 in
      let c5 = (get_param (codes "network.thread_pool_size") c4).1 in
      let (s', pinged, e5) =
        >>=-eq-ok (ping_all h.platform h.now (open_control h c5 known).1) _ e4 in
      let (same, last) = ok-pair e5 in
      replays_parts c0 c1 c4 c b found port size known s v l (cast_some _ port p) f
        (cast_some _ size t)
        (subst (λ x. ping_all h.platform h.now (open_control h c5 known).1 ≡ ok x) last pinged) same
