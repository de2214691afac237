-- ===== src/Search/Start.antt =====
-- Starting a search, dht/protocol/search_manager.cpp.
use spatter.Messages.Hash.{Hash, zero_hash}
use spatter.Messages.Str.{Str}
use spatter.Messages.Node.{NodeRecord, node_eq}
use spatter.Messages.Search.{SearchType}
use spatter.NodeQueue.{get_better_nodes}
use spatter.NodeQueue.Better.{get_better_nodes_sound}
use spatter.Search.SubSearches.{unique, drop_equal, keep_first, first_nodes, new_sub_search, key_of}
use spatter.Search.Manager.{start_hash_search, start_tokens, start_query_search, take_master_id}
use spatter.State.{State, SubSearch}
use spatter.Prelude.{
  ℕ, ◌≤◌, ◌≡◌, Bool, true, false, List, [], ◌∷◌, length, fault, bad_iterator, arith,
}

length-drop_equal-le :
    {A : Type 0} (eq : A → A → Bool) (x : A) (l : List A) → length (drop_equal eq x l) ≤ length l
unfolding drop_equal
length-drop_equal-le eq x [] = omega arith
length-drop_equal-le eq x (y ∷ l) =
    ground (arith, length-drop_equal-le eq x l, length-drop_equal-le eq y l)

length-unique-le : {A : Type 0} (eq : A → A → Bool) (l : List A) → length (unique eq l) ≤ length l
unfolding unique
length-unique-le eq [] = omega arith
length-unique-le eq (x ∷ l) = omega (arith, length-drop_equal-le eq x l)

module _ (tiger : Str → Hash) (sort : List NodeRecord → List NodeRecord)
    (same_length : (l : List NodeRecord) → length (sort l) ≡ length l) {Text : Type 0} where
  first_nodes_bad :
      (s : State Text) (key : Hash) → first_nodes tiger sort s key ≡ fault bad_iterator
  unfolding first_nodes keep_first
  first_nodes_bad s key =
      let near = get_better_nodes_sound s key false in
      let all = get_better_nodes_sound s key true in
      ground (
        arith,
        near.0,
        all.0,
        length-unique-le node_eq (get_better_nodes s key false),
        length-unique-le node_eq (get_better_nodes s key true),
        same_length (unique node_eq (get_better_nodes s key false)),
        same_length (unique node_eq (get_better_nodes s key true)),
      )

  -- With `alpha` at 5, `get_better_nodes` gives at most four nodes, so the constructor moves its
  -- iterator past the end of the list, for every token and key and whatever nodes are known.
  pub new_sub_search_bad :
      (now : ℕ) (token : Str) (h : Hash) (s : State Text)
      → new_sub_search tiger sort now token h s ≡ fault bad_iterator
  unfolding new_sub_search
  new_sub_search_bad now token h s = rw (first_nodes_bad s (key_of tiger token h))

  start_tokens_bad :
      (trim : Str → Str) (now : ℕ) (tok : Str) (toks : List Str) (c : ℕ) (token : Str)
      (m : List (ℕ × SubSearch)) (s : State Text)
      → trim tok ≡ c ∷ token
      → start_tokens tiger sort trim now (tok ∷ toks) m s ≡ fault bad_iterator
  unfolding start_tokens
  start_tokens_bad trim now tok toks c token m s e =
      rw (e, start_tokens, new_sub_search_bad now (c ∷ token) zero_hash s)

  -- The constructor takes more nodes off the list than `get_better_nodes` ever gives. So no search
  -- gets started, if `sort` keeps a list's length: none by hash, and none by a text whose first
  -- token is not blank.
  pub start_search_bad :
      (tokenize : Str → List Str) (trim : Str → Str) (now : ℕ) (h : Hash) (type : SearchType)
      (text tok : Str) (toks : List Str) (c : ℕ) (token : Str) (s : State Text)
      → tokenize text ≡ tok ∷ toks
      → trim tok ≡ c ∷ token
      → (start_hash_search tiger sort now h type s ≡ fault bad_iterator)
        × (start_query_search tiger sort tokenize trim now text s ≡ fault bad_iterator)
  unfolding start_hash_search start_query_search
  start_search_bad tokenize trim now h type text tok toks c token s e t = (
    rw (new_sub_search_bad now [] h (take_master_id s)),
    rw (e, start_tokens_bad trim now tok toks c token [] (take_master_id s) t),
  )
