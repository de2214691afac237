-- ===== src/Messages/File.antt =====
-- `file_info_record` and `publish_message` of dht/protocol/messages.hpp.
use spatter.Messages.Hash.{Hash, hash_eq, hash_eq_refl}
use spatter.Messages.Str.{Str, str_eq, str_eq_refl}
use spatter.Messages.Node.{NodeRecord, node_eq, node_eq_refl}
use spatter.Prelude.{ℕ, ◌≡◌, refl, Bool, true, false, ◌&&◌, ◌==◌, arith}

pub data FileType : Type 0 where
  file dir : FileType

pub record FileInfo : Type 0 where
  pub key : Hash
  pub node : NodeRecord
  pub path : Str
  pub size : ℕ
  pub type : FileType
  pub mod_ts : ℕ
  pub owner_publish_ts : ℕ
  pub valid_till : ℕ

pub record PublishMessage : Type 0 where
  pub file_info : FileInfo

abbrev pub type_eq : FileType → FileType → Bool
type_eq file file = true
type_eq file dir = false
type_eq dir file = false
type_eq dir dir = true

-- `operator==`: all fields but `valid_till`, the nodes by their own `operator==`.
unfoldable pub file_eq : FileInfo → FileInfo → Bool
file_eq a b =
    hash_eq a.key b.key
    && (node_eq a.node b.node
        && (str_eq a.path b.path
            && ((a.size == b.size)
                && (type_eq a.type b.type
                    && ((a.mod_ts == b.mod_ts) && (a.owner_publish_ts == b.owner_publish_ts))))))

type_eq_refl : (t : FileType) → type_eq t t ≡ true
type_eq_refl file = refl
type_eq_refl dir = refl

pub file_eq_refl : (a : FileInfo) → file_eq a a ≡ true
unfolding file_eq
file_eq_refl a =
    ground (arith, hash_eq_refl a.key, node_eq_refl a.node, str_eq_refl a.path, type_eq_refl a.type)

pub file_eq-key : (a b : FileInfo) → file_eq a b ≡ true → hash_eq a.key b.key ≡ true
unfolding file_eq
file_eq-key a b h = ground arith
