-- ===== src/Search/Kept.antt =====
-- What starting a search and sending its queries keep, and how chains of calls keep it.
use spatter.Control.Frame.{udp_send-SendsOnly}
use spatter.Control.Invariant.{IsNode, IsNode-same}
use spatter.Control.Send.{udp_send}
use spatter.Messages.Archive.{Packet}
use spatter.Messages.Hash.{Hash, zero_hash}
use spatter.Messages.Node.{NodeRecord}
use spatter.Messages.Search.{SearchType}
use spatter.Messages.Str.{Str}
use spatter.NodeQueue.Receiving.{udp_send-OneReceive}
use spatter.Search.Manager.{start_hash_search, start_tokens, start_query_search}
use spatter.Search.SubSearches.{new_sub_search, first_nodes, send_queries}
use spatter.State.{State, Platform, SubSearch, Ranked}
use spatter.Prelude.{
  OnOk, OnOk-rule, OnOk-known, OnOk-chain, ℕ, refl, Bool, true, false, List, [], ◌∷◌, Outcome, ok,
  fault, assign, ◌>>=◌,
}

-- The state among the results.
abbrev pub StateKept : {A Text : Type 0} → Outcome (A × State Text) → Type 0
StateKept = OnOk (λ x. IsNode x.1)

-- A chain keeps it if its parts do.
pub pair_kept :
    {Text A B : Type 0} (Q : B → Type 0) (m : Outcome (A × State Text))
    (f : A × State Text → Outcome B)
    → StateKept m
    → ((a : A) (s : State Text) → IsNode s → OnOk Q (f (a, s)))
    → OnOk Q (m >>= f)
pair_kept Q (ok (a, s)) f v g = g a s v
pair_kept Q (fault e) f v g = tt

pub loop_kept :
    {A : Type 0} (Q : A → Type 0) (done : Bool) (m n : Outcome A)
    → OnOk Q m
    → OnOk Q n
    → OnOk Q (elim done [ true ↦ m | false ↦ n ])
loop_kept Q true m n v u = v
loop_kept Q false m n v u = u

module _ {Text : Type 0} (tiger : Str → Hash) (sort : List NodeRecord → List NodeRecord) where
  new_sub_search_keeps :
      (now : ℕ) (token : Str) (h : Hash) (s : State Text)
      → IsNode s
      → StateKept (new_sub_search tiger sort now token h s)
  unfolding new_sub_search
  new_sub_search_keeps now token h s v =
      OnOk-known (λ x. IsNode x.1) (first_nodes tiger sort s _) _
        (λ l e. IsNode-same s _ refl refl refl v)

  pub start_hash_search_keeps :
      (now : ℕ) (h : Hash) (type : SearchType) (s : State Text)
      → IsNode s
      → StateKept (start_hash_search tiger sort now h type s)
  unfolding start_hash_search
  start_hash_search_keeps now h type s v =
      pair_kept (λ x. IsNode x.1) (new_sub_search tiger sort now [] h _) _
        (new_sub_search_keeps now [] h _ (IsNode-same s _ refl refl refl v))
        (λ ss s' v'. IsNode-same s' _ refl refl refl v')

  start_tokens_keeps :
      (trim : Str → Str) (now : ℕ) (toks : List Str) (m : List (ℕ × SubSearch)) (s : State Text)
      → IsNode s
      → StateKept (start_tokens tiger sort trim now toks m s)
  unfolding start_tokens
  start_tokens_keeps trim now [] m s v = v
  start_tokens_keeps trim now (tok ∷ toks) m s v =
      elim (trim tok)
        as (λ x. StateKept (elim x as (λ y. Outcome (List (ℕ × SubSearch) × State Text)) [
          | [] ↦ start_tokens tiger sort trim now toks m s
          | c ∷ token ↦ new_sub_search tiger sort now (c ∷ token) zero_hash s >>= λ (ss, s').
              start_tokens tiger sort trim now toks (assign ss.search_id ss m) s'
        ])) [
          | [] ↦ start_tokens_keeps trim now toks m s v
          | c ∷ token ↦
              pair_kept (λ x. IsNode x.1) (new_sub_search tiger sort now (c ∷ token) zero_hash s) _
                (new_sub_search_keeps now (c ∷ token) zero_hash s v)
                (λ ss s' v'. start_tokens_keeps trim now toks (assign ss.search_id ss m) s' v')
        ]

  pub start_query_search_keeps :
      (tokenize : Str → List Str) (trim : Str → Str) (now : ℕ) (text : Str) (s : State Text)
      → IsNode s
      → StateKept (start_query_search tiger sort tokenize trim now text s)
  unfolding start_query_search
  start_query_search_keeps tokenize trim now text s v =
      pair_kept (λ x. IsNode x.1) (start_tokens tiger sort trim now (tokenize text) [] _) _
        (start_tokens_keeps trim now (tokenize text) [] _ (IsNode-same s _ refl refl refl v))
        (λ m s' v'. IsNode-same s' _ refl refl refl v')

module _ {Text : Type 0} (p : Platform Text) where
  pub send_queries_keeps :
      (msg : Packet Text) (l : List Ranked) (s : State Text)
      → IsNode s
      → OnOk IsNode (send_queries p msg l s)
  unfolding send_queries
  send_queries_keeps msg [] s v = v
  send_queries_keeps msg (e ∷ l) s v =
      OnOk-chain IsNode IsNode (udp_send p msg e.1 s) _
        (OnOk-rule IsNode (udp_send p msg e.1 s) (λ s' sent.
          let f = udp_send-SendsOnly p msg e.1 s s' sent in
          record {
            buckets = rw f.buckets v.buckets;
            placed = rw (f.dht, f.buckets) v.placed;
            table = rw f.dht v.table;
            receiving = udp_send-OneReceive p msg e.1 s s' sent v.receiving;
          }))
        (send_queries_keeps msg l)
