-- ===== src/Config/Friends.antt =====
-- `load_friends_list` of Config.cpp. `rand` gives the results of the successive calls of `rand()`.
pub mod Known
use spatter.Boost.{Boost, codes}
use spatter.Config.{Config, get_param, is_comment, line_separators}
use spatter.Config.Files.{read_file}
use spatter.Messages.Hash.{randomize, hash_bytes}
use spatter.Messages.Node.{NodeRecord}
use spatter.Messages.Str.{Str}
use spatter.NodeQueue.{mark_seen}
use spatter.State.{State, Platform}
use spatter.Prelude.{
  ℕ, ◌+◌, Bool, true, false, List, [], ◌∷◌, Option, none, some, if◌then◌else◌, ltb, length, Outcome,
  ok, fault, thrown, out_of_bounds, ◌>>=◌,
}

abbrev pub blanks : Str
blanks = b' ' ∷ b'\t' ∷ []

module _ (b : Boost) {Text : Type 0} (p : Platform Text) (now : ℕ) (rand : ℕ → ℕ) where
  -- The node of one line, with `v` for its parts; `i` calls of `rand` have been made.
  unfoldable pub friend_node : ℕ → List Str → Outcome NodeRecord
  friend_node i [] = fault out_of_bounds
  friend_node i (ip ∷ []) = fault out_of_bounds
  friend_node i (ip ∷ text ∷ v) = elim (b.lexical_cast 16 text) [
    | none ↦ fault thrown
    | some port ↦ ok (record { node_id = randomize (λ k. rand (i + k)); ip = ip; port = port })
  ]

  unfoldable pub load_friends : ℕ → List Str → State Text → Outcome (State Text)
  unfolding friend_node
  load_friends i [] s = ok s
  load_friends i (text ∷ lines) s =
      let line = b.trim text in
      let comment = load_friends i lines s in
      let friend = (do
        n ← friend_node i (b.split blanks line)
        s' ← mark_seen p now n s
        load_friends (i + hash_bytes) lines s') in
      if is_comment line then comment else friend

  unfoldable pub load_friends_file :
      Str → Config → State Text → Outcome (Bool × Config × State Text)
  unfolding load_friends read_file
  load_friends_file file c s = do
    text ← read_file (c.files file)
    s' ← load_friends 0 (b.tokenize line_separators text) s
    ok (true, c, s')

  unfoldable pub load_friends_list : Config → State Text → Outcome (Bool × Config × State Text)
  unfolding load_friends_file get_param
  load_friends_list c s =
      let (file, c') = get_param (codes "dht.friendlist") c in
      if ltb 0 (length file) then load_friends_file file c' s else ok (false, c', s)
