-- ===== src/Main/Unbound.antt =====
-- The start of main.cpp where no socket can be opened.
use spatter.Boost.{codes}
use spatter.Config.{Config, load_config, get_param}
use spatter.Config.Friends.{load_friends_list}
use spatter.Config.Friends.Known.{load_friends_unconnected}
use spatter.Control.Send.{create}
use spatter.Dht.{new_dht}
use spatter.Main.{Host, new_state, open_control, start_up}
use spatter.Main.Startup.{after_friends}
use spatter.Messages.Node.{NodeRecord}
use spatter.NodeQueue.{ping_all, bucket_count}
use spatter.NodeQueue.Dropped.{walk}
use spatter.NodeQueue.PingKeeps.{unconnected, ping_all-unconnected}
use spatter.State.{State}
use spatter.Prelude.{
  OnOk-rule, OnOk-ok, ℕ, ◌≡◌, refl, ◌∙◌, ap, Bool, false, none, some, if◌then◌else◌, Outcome, ok,
  ◌>>=◌, List, [], ◌∷◌,
}

module _ {Text : Type 0} (h : Host Text) where
  -- The exception of the cast or of the socket is caught: the state is as it was.
  open_control-caught :
      (c : Config) (s : State Text)
      → ((q : ℕ) → h.binds q ≡ false)
      → open_control h c s ≡ ((get_param (codes "network.port") c).1, s)
  unfolding open_control
  open_control-caught c s u =
      let (text, c') = get_param (codes "network.port") c in
      elim (h.boost.lexical_cast 16 text)
        as (λ o.
          ◌≡◌ {A = Config × State Text}
            (
              c',
              elim o as (λ x. State Text) [
                | none ↦ s
                | some port ↦ if h.binds port then create port s else s
              ],
            )
            (c', s)) [ none ↦ refl | some port ↦ rw (u port) refl ]

  known_unconnected :
      (c c' : Config) (s s' : State Text) (b : Bool)
      → s.control ≡ none
      → load_friends_list h.boost h.platform h.now h.rand c s ≡ ok (b, c', s')
      → s'.control ≡ none
  known_unconnected c c' s s' b n e =
      OnOk-ok (λ x. x.2.control ≡ none) _ (b, c', s') e
        (after_friends h (λ t. t.control ≡ none) c s n
          (λ i lines.
            OnOk-rule (λ t. t.control ≡ none) _
              (λ t done.
                load_friends_unconnected h.boost h.platform h.now h.rand i lines s t n done)))

  with_config : Config → State Text → Outcome (Config × State Text)
  with_config c t = ok (c, t)

  then_ok :
      (l : List NodeRecord) (s : State Text) (c : Config)
      → (unconnected l s >>= with_config c) ≡ unconnected l (c, s)
  unfolding with_config
  then_ok [] s c = refl
  then_ok (n ∷ l) s c = refl

  -- `ping_all` and the end, behind the block that catches the exception.
  pings_unbound :
      (c : Config) (s : State Text)
      → ((q : ℕ) → h.binds q ≡ false)
      → s.control ≡ none
      → (ping_all h.platform h.now (open_control h c s).1 >>= with_config (open_control h c s).0)
        ≡ unconnected (walk s.buckets bucket_count 0) ((get_param (codes "network.port") c).1, s)
  pings_unbound c s u n = rw (open_control-caught c s u) (
      ap (λ o. o >>= with_config (get_param (codes "network.port") c).1)
        (ping_all-unconnected h.platform h.now s n)
      ∙ then_ok (walk s.buckets bucket_count 0) s (get_param (codes "network.port") c).1)

  -- If no port can be bound, the exception is caught, and a start that has read its files and numbers
  -- goes on to the pings all the same: it succeeds, without a socket and with the state as the list of
  -- friends has left it, if no node is known, and ends in a call through the null pointer if any is.
  pub start_up_unbound :
      (c0 c1 c4 : Config) (loaded listed : Bool) (port size : ℕ) (s : State Text)
      → ((q : ℕ) → h.binds q ≡ false)
      → load_config h.boost (codes "spatter.conf") c0 ≡ ok (loaded, c1)
      → let (ip, c2) = get_param (codes "network.ip") c1 in
        let (port_text, c3) = get_param (codes "network.port") c2 in
        let (size_text, c5) = get_param (codes "network.thread_pool_size") c4 in
        h.boost.lexical_cast 16 port_text ≡ some port
        → load_friends_list h.boost h.platform h.now h.rand c3
            (new_state (new_dht h.tiger h.to_str ip port h.random))
          ≡ ok (listed, c4, s)
        → h.boost.lexical_cast 64 size_text ≡ some size
        → start_up h c0
          ≡ unconnected (walk s.buckets bucket_count 0) ((get_param (codes "network.port") c5).1, s)
  unfolding start_up with_config
  start_up_unbound c0 c1 c4 loaded listed port size s u e1 e2 e3 e4 =
      let c3 = (get_param (codes "network.port") (get_param (codes "network.ip") c1).1).1 in
      let c5 = (get_param (codes "network.thread_pool_size") c4).1 in
      rw (e1, e2, e3, e4) (pings_unbound c5 s u (known_unconnected c3 c4 _ s listed refl e3))
