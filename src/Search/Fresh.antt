-- ===== src/Search/Fresh.antt =====
-- The nodes of one result, none of them twice, on their way into `next_nodes_queue` of
-- dht/protocol/search_manager.cpp.
use spatter.Messages.Hash.{Hash}
use spatter.Messages.Node.{NodeRecord, node_eq}
use spatter.NodeQueue.Buckets.{DistinctNodes}
use spatter.NodeQueue.Queue.{IsRanked}
use spatter.Search.Queue.{suggest_fresh}
use spatter.Search.Suggestions.{
  ranked_eq, insert_suggestion, cut_suggestions, suggest, suggest_nodes,
}
use spatter.Util.Distance.{bit_distance}
use spatter.State.{Ranked}
use spatter.Prelude.{
  OnOk, OnOk-bind, OnOk-ok, ℕ, ◌≤◌, ◌<◌, ◌≡◌, refl, false, List, [], ◌∷◌, any, leb, length,
  pop_back, All, ok, Bool-cases, inl, inr, arith,
}

-- No entry of the queue has the node's address and port.
abbrev pub Absent : List Ranked → NodeRecord → Type 0
Absent q n = any (λ (y : Ranked). node_eq y.1 n) q ≡ false

Absent-not :
    (d : ℕ) (n : NodeRecord) (q : List Ranked)
    → Absent q n
    → any (λ y. ranked_eq y (d, n)) q ≡ false
Absent-not d n [] a = refl
Absent-not d n (x ∷ q) a = ground (arith, Absent-not d n q)

Absent-pop_back : (n : NodeRecord) (q : List Ranked) → Absent q n → Absent (pop_back q) n
unfolding pop_back
Absent-pop_back n [] a = refl
Absent-pop_back n (x ∷ []) a = refl
Absent-pop_back n (x ∷ y ∷ q) a = ground (arith, Absent-pop_back n (y ∷ q))

module _ (n : NodeRecord) (e : Ranked) (other : node_eq e.1 n ≡ false) where
  insert_suggestion-Absent :
      (q : List Ranked) → Absent q n → OnOk (λ m. Absent m n) (insert_suggestion e q)
  unfolding insert_suggestion
  insert_suggestion-Absent [] a = refl
  insert_suggestion-Absent (x ∷ q) a = elim (Bool-cases (leb e.0 x.0)) [
    | inl here ↦ rw here (elim (Bool-cases (any (λ y. ranked_eq y e) (x ∷ q))) [
      | inl again ↦ rw again tt
      | inr new ↦ rw new (ground arith)
    ])
    | inr later ↦ rw later (
        OnOk-bind (λ m. Absent m n) (λ m. Absent m n) (◌∷◌ x) (insert_suggestion e q)
          (λ m h. ground arith) (insert_suggestion-Absent q (ground arith)))
  ]

  cut-Absent : (max_size : ℕ) (q : List Ranked) → Absent q n → Absent (cut_suggestions max_size q) n
  unfolding cut_suggestions
  cut-Absent max_size q a = ground (arith, Absent-pop_back n q a)

  suggest-Absent :
      (max_size : ℕ) (q q' : List Ranked) → Absent q n → suggest max_size e q ≡ ok q' → Absent q' n
  unfolding suggest
  suggest-Absent max_size [] q' a h = OnOk-ok (λ m. Absent m n) (ok (e ∷ [])) q' h (ground arith)
  suggest-Absent max_size (x ∷ q) q' a h =
      OnOk-ok (λ m. Absent m n) _ q' h
        (OnOk-bind (λ m. Absent m n) (λ m. Absent m n) (cut_suggestions max_size)
          (insert_suggestion e (x ∷ q)) (cut-Absent max_size) (insert_suggestion-Absent (x ∷ q) a))

suggest_others :
    (max_size : ℕ) (e : Ranked) (q q' : List Ranked) (l : List NodeRecord)
    → suggest max_size e q ≡ ok q'
    → any (λ y. node_eq e.1 y) l ≡ false
    → All (Absent q) l
    → All (Absent q') l
suggest_others max_size e q q' [] h o a = tt
suggest_others max_size e q q' (n ∷ l) h o a = (
  suggest-Absent n e (ground arith) max_size q q' a.0 h,
  suggest_others max_size e q q' l h (ground arith) a.1,
)

suggest_nodes_succeeds :
    (max_size : ℕ) (key : Hash) (l : List NodeRecord) (q : List Ranked)
    → 0 < max_size
    → IsRanked q
    → length q ≤ max_size
    → DistinctNodes l
    → All (Absent q) l
    → (q' : List Ranked) × (suggest_nodes max_size key l q ≡ ok q')
unfolding suggest_nodes
suggest_nodes_succeeds max_size key [] q pos r short d a = (q, refl)
suggest_nodes_succeeds max_size key (n ∷ l) q pos r short d a =
    let e : Ranked = (bit_distance key n.node_id, n) in
    let (q', taken, r', short') = suggest_fresh max_size e q pos r short (Absent-not e.0 n q a.0) in
    let (q'', done) =
      suggest_nodes_succeeds max_size key l q' pos r' short' d.1
        (suggest_others max_size e q q' l taken d.0 a.1) in
    (q'', rw taken done)

nothing_there : (l : List NodeRecord) → All (Absent []) l
nothing_there [] = tt
nothing_there (n ∷ l) = (refl, nothing_there l)

-- An empty queue takes them all in without an error.
pub suggest_nodes_distinct :
    (max_size : ℕ) (key : Hash) (l : List NodeRecord)
    → 0 < max_size
    → DistinctNodes l
    → (q : List Ranked) × (suggest_nodes max_size key l [] ≡ ok q)
suggest_nodes_distinct max_size key l pos d =
    suggest_nodes_succeeds max_size key l [] pos tt (omega arith) d (nothing_there l)
