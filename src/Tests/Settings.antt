-- ===== src/Tests/Settings.antt =====
-- Examples for the configuration file and the list of friends.
use spatter.Boost.{codes, starts_bare, ends_bare}
use spatter.Config.{
  Config, Props, find_prop, load_config, save_config, saved_text, assign_prop, load_lines,
  load_line, split_equals,
}
use spatter.Config.Files.{read_file, read_rounds, until_nul, read_file_ends}
use spatter.Config.RoundTrip.{load_config-save_config_any}
use spatter.Config.Lines.{load_config_throws}
use spatter.Config.Friends.{load_friends, friend_node}
use spatter.Config.Friends.Known.{load_friends_full}
use spatter.Messages.Archive.{Message}
use spatter.Messages.Hash.{randomize}
use spatter.Messages.Node.{NodeRecord, node_eq}
use spatter.Messages.Str.{Str, str_eq, str_eq_iff}
use spatter.NodeQueue.{erase_node}
use spatter.NodeQueue.Buckets.{touched}
use spatter.State.{State}
use spatter.Tests.{alice, alice_to_carol, platform, started, id_of}
use spatter.Tests.Strings.{
  string_boost, string_boost-IsDocumented, tokens_from, split_from, trim_start, trim_end,
  number_from,
}
use spatter.Prelude.{
  ℕ, zero, suc, ◌≡◌, refl, ap, subst, Bool-cases, inl, inr, true, false, List, [], ◌∷◌, none,
  length, ok, fault, thrown, null_pointer, arith,
}

abbrev two_params : Config
two_params = record {
  config_file = codes "spatter.conf";
  props = (codes "network.ip", codes "10.0.0.1") ∷ (codes "network.port", codes "8080") ∷ [];
  files = λ f. [];
}

-- Another order of its entries.
abbrev turned : Props
turned = (codes "network.port", codes "8080") ∷ (codes "network.ip", codes "10.0.0.1") ∷ []

turned_same : (k : Str) → find_prop k turned ≡ find_prop k two_params.props
unfolding find_prop
turned_same k = elim (Bool-cases (str_eq (codes "network.ip") k)) [
  | inl ip ↦
      let port : str_eq (codes "network.port") k ≡ false =
        subst (λ x. str_eq (codes "network.port") x ≡ false) ((str_eq_iff _ k).0 ip)
          (unfold str_eq in refl) in
      rw (ip, port)
  | inr other ↦ rw other
]

load_config-save_config_any_example :
    let saved = (save_config (λ m. turned) (λ f. true) two_params).1 in
    (c' : Config) × (load_config string_boost (codes "spatter.conf") (record saved { props = [] })
      ≡ ok (true, c'))
    × ((k : Str) → find_prop k c'.props ≡ find_prop k two_params.props)
unfolding saved_text str_eq starts_bare ends_bare
load_config-save_config_any_example =
    load_config-save_config_any string_boost string_boost-IsDocumented (λ m. turned) (λ f. true)
      two_params refl (refl, (refl, tt))
      (record { distinct = λ u. (refl, (refl, tt)); same = turned_same })
      (
        record {
          named = λ e. cc;
          no_equals = refl;
          no_comment = refl;
          plain_name = refl;
          plain_value = refl;
          bare_name = (refl, refl);
          bare_value = (refl, refl);
        },
        (
          record {
            named = λ e. cc;
            no_equals = refl;
            no_comment = refl;
            plain_name = refl;
            plain_value = refl;
            bare_name = (refl, refl);
            bare_value = (refl, refl);
          },
          tt,
        ),
      )
      (omega arith)

read_file_ends_example : read_file (codes "A\0B") ≡ ok (codes "A")
unfolding until_nul
read_file_ends_example = read_file_ends (codes "A\0B")

abbrev half_line : Config
half_line = record two_params { props = []; files = λ f. codes "a=1\nb\n" }

load_config_throws_example : load_config string_boost (codes "x") half_line ≡ fault thrown
unfolding read_file read_rounds until_nul tokens_from trim_start trim_end load_lines load_line
    split_equals assign_prop
load_config_throws_example =
    load_config_throws string_boost (codes "x") half_line (codes "a=1\nb\n") (codes "b")
      (codes "a=1" ∷ []) [] ((codes "a", codes "1") ∷ []) refl refl refl refl refl

-- A bucket with 31 nodes, and a friend for it.
abbrev crowd : ℕ → List NodeRecord
crowd zero = []
crowd (suc n) = record { node_id = id_of 3; ip = codes "d"; port = suc n } ∷ crowd n

abbrev crowded : State Message
crowded = record (started alice (λ i. crowd 31)) { control = none }

abbrev friend : NodeRecord
friend = record { node_id = id_of 3; ip = codes "c"; port = 82 }

abbrev first_is_three : ℕ → ℕ
first_is_three zero = 3
first_is_three (suc i) = 0

crowd_stays : touched friend (crowd 31) ≡ friend ∷ crowd 31
unfolding erase_node node_eq str_eq
crowd_stays = refl

load_friends_full_example :
    load_friends string_boost platform 0 first_is_three 0 (codes "c 82" ∷ []) crowded
    ≡ fault null_pointer
unfolding trim_start trim_end split_from number_from friend_node randomize
load_friends_full_example =
    load_friends_full string_boost platform 0 first_is_three 0 (codes "c 82") [] friend crowded refl
      refl refl (omega arith) (omega (arith, alice_to_carol))
      (omega (arith, ap (λ (l : List NodeRecord). length l) crowd_stays))
