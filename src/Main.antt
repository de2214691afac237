-- ===== src/Main.antt =====
-- main.cpp: what is done before the console is left to the user, in its order, and the end.
pub mod Startup
pub mod Unbound
pub mod Joined
pub mod Repeats
pub mod Restart
use spatter.Boost.{Boost, codes}
use spatter.Config.{Config, Props, load_config, get_param, save_config}
use spatter.Config.Friends.{load_friends_list}
use spatter.Control.Send.{create}
use spatter.Dht.{Dht, new_dht}
use spatter.Messages.Hash.{Hash}
use spatter.Messages.Node.{NodeRecord}
use spatter.Messages.Str.{Str}
use spatter.NodeQueue.{ping_all}
use spatter.State.{State, Platform}
use spatter.Prelude.{
  ℕ, Bool, true, false, List, [], Option, none, some, if◌then◌else◌, Outcome, ok, fault, thrown,
  ◌>>=◌,
}

-- The globals as the program starts with them, and the table that `make_dht` has just made.
abbrev pub new_state : {Text : Type 0} → Dht → State Text
new_state dht = record {
  dht = dht;
  buckets = λ i. [];
  next_message_id = 0;
  control = none;
  sent = [];
  searches = [];
  next_master_search_id = 0;
  next_sub_search_id = 0;
}

abbrev pub cast_or_throw : {A : Type 0} → Option A → Outcome A
cast_or_throw none = fault thrown
cast_or_throw (some a) = ok a

-- What `main` takes from outside: boost, the archive and resolver, the hash function, the results of
-- `lexical_cast` to a string, of `random`, of the calls of `rand` and of `time`, and whether a socket
-- can be bound to a port or a file written, and the order in which a map gives its entries.
pub record Host (Text : Type 0) : Type 0 where
  pub boost : Boost
  pub platform : Platform Text
  pub tiger : Str → Hash
  pub to_str : ℕ → Str
  pub random : ℕ
  pub rand : ℕ → ℕ
  pub now : ℕ
  pub binds : ℕ → Bool
  pub opens : Str → Bool
  pub order : Props → Props

module _ {Text : Type 0} (h : Host Text) where
  -- The `try` block: an exception of the cast or of the socket's constructor ends it. The threads that
  -- it starts run the handlers.
  unfoldable pub open_control : Config → State Text → Config × State Text
  open_control c s =
      let (text, c') = get_param (codes "network.port") c in
      (
        c',
        elim (h.boost.lexical_cast 16 text) [
          | none ↦ s
          | some port ↦ if h.binds port then create port s else s
        ],
      )

  unfoldable pub start_up : Config → Outcome (Config × State Text)
  start_up c0 = do
    (loaded, c1) ← load_config h.boost (codes "spatter.conf") c0
    let (ip, c2) = get_param (codes "network.ip") c1
    let (port_text, c3) = get_param (codes "network.port") c2
    port ← cast_or_throw (h.boost.lexical_cast 16 port_text)
    (friends, c4, s1) ←
        load_friends_list h.boost h.platform h.now h.rand c3
          (new_state (new_dht h.tiger h.to_str ip port h.random))
    let (size_text, c5) = get_param (codes "network.thread_pool_size") c4
    size ← cast_or_throw (h.boost.lexical_cast 64 size_text)
    let (c6, s2) = open_control c5 s1
    s3 ← ping_all h.platform h.now s2
    ok (c6, s3)

  -- After the console has ended.
  unfoldable pub shut_down : Config → Config
  shut_down c = (save_config h.order h.opens c).1
