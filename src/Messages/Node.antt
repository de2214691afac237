-- ===== src/Messages/Node.antt =====
-- `node_record` of dht/protocol/messages.hpp.
use spatter.Messages.Hash.{Hash}
use spatter.Messages.Str.{Str, str_eq, str_lt, str_eq_iff, str_lt_irrefl, str_lt_trans}
use spatter.Prelude.{ℕ, ◌<◌, ◌≤◌, ◌≡◌, refl, ◌↔◌, Bool, true, false, ◌&&◌, ltb, ◌==◌, arith}

pub record NodeRecord : Type 0 where
  pub node_id : Hash
  pub ip : Str
  pub port : ℕ

-- `operator==`: the ids are not compared.
unfoldable pub node_eq : NodeRecord → NodeRecord → Bool
node_eq n1 n2 = str_eq n1.ip n2.ip && (n1.port == n2.port)

-- `operator<`
unfoldable pub node_lt : NodeRecord → NodeRecord → Bool
node_lt n1 n2 = str_lt n1.ip n2.ip && ltb n1.port n2.port

-- Records are equal for `operator==` exactly when the addresses and the ports are.
pub node_eq_iff : (a b : NodeRecord) → (node_eq a b ≡ true) ↔ ((a.ip ≡ b.ip) × (a.port ≡ b.port))
unfolding node_eq
node_eq_iff a b = ground (arith, str_eq_iff a.ip b.ip)

pub node_eq_refl : (a : NodeRecord) → node_eq a a ≡ true
node_eq_refl a = (node_eq_iff a a).1 (refl, refl)

pub node_eq_symm : (a b : NodeRecord) → node_eq a b ≡ node_eq b a
node_eq_symm a b = ground (arith, node_eq_iff a b, node_eq_iff b a)

pub node_eq_left : (a b c : NodeRecord) → node_eq a b ≡ true → node_eq a c ≡ node_eq b c
node_eq_left a b c h = ground (arith, node_eq_iff a b, node_eq_iff a c, node_eq_iff b c)

-- `operator<` asks for both fields to grow: it is a strict partial order, transitive and never true
-- of equal records.
node_lt_strict :
    (a b c : NodeRecord)
    → node_lt a b ≡ true
    → node_lt b c ≡ true
    → (node_lt a c ≡ true) × (node_eq a b ≡ false) × (node_lt b a ≡ false)
unfolding node_lt node_eq
node_lt_strict a b c h k = ground (arith, str_lt_trans a.ip b.ip c.ip, str_eq_iff a.ip b.ip)

-- The order of node records is no strict weak order, which `std::list::sort` asks for: where `b`
-- has the least address of three and no lesser port than `c`, `a` is below `c`, though `b` is
-- comparable to neither.
node_lt_not_weak :
    (a b c : NodeRecord)
    → str_lt b.ip a.ip ≡ true
    → str_lt a.ip c.ip ≡ true
    → a.port < c.port
    → c.port ≤ b.port
    → (node_lt a c ≡ true)
      × (node_lt a b ≡ false)
      × (node_lt b a ≡ false)
      × (node_lt b c ≡ false)
      × (node_lt c b ≡ false)
unfolding node_lt
node_lt_not_weak a b c h k p q = ground (
  arith,
  str_lt_trans b.ip a.ip c.ip,
  str_lt_trans a.ip b.ip a.ip,
  str_lt_trans a.ip c.ip b.ip,
  str_lt_trans a.ip b.ip a.ip,
  str_lt_irrefl a.ip,
)
