-- ===== src/Search/Queue.antt =====
-- The order of `next_nodes_queue`, dht/protocol/search_manager.cpp.
use spatter.Search.Suggestions.{ranked_eq, insert_suggestion, cut_suggestions, suggest}
use spatter.NodeQueue.Queue.{IsRanked, IsRanked-pop_back}
use spatter.State.{Ranked}
use spatter.Prelude.{
  OnOk, OnOk-bind, OnOk-ok, ℕ, suc, ◌≤◌, ◌<◌, ◌≡◌, refl, true, false, List, [], ◌∷◌, any, leb,
  length, length-pop_back, All, All-mono, ok, fault, bad_iterator, Bool-cases, inl, inr, arith,
}

-- What an insertion that succeeds keeps.
abbrev Inserted : Ranked → List Ranked → List Ranked → Type 0
Inserted e l m =
    (IsRanked l → IsRanked m)
    × (length m ≤ suc (length l))
    × ((d : ℕ) → d ≤ e.0 → All (λ y. d ≤ y.0) l → All (λ y. d ≤ y.0) m)

in_front : (e x : Ranked) (l : List Ranked) → e.0 ≤ x.0 → Inserted e (x ∷ l) (e ∷ x ∷ l)
in_front e x l t = (
  λ r. ((t, All-mono (λ y. x.0 ≤ y.0) (λ y. e.0 ≤ y.0) l (λ y h. omega arith) r.0), r),
  omega arith,
  λ d h a. (h, a),
)

behind :
    (e x : Ranked) (l : List Ranked)
    → x.0 < e.0
    → (m : List Ranked) → Inserted e l m
    → Inserted e (x ∷ l) (x ∷ m)
behind e x l t m k =
    (λ r. (k.2 x.0 (omega arith) r.0, k.0 r.1), omega arith, λ d h a. (a.0, k.2 d h a.1))

insert_suggestion-Inserted :
    (e : Ranked) (l : List Ranked) → OnOk (Inserted e l) (insert_suggestion e l)
unfolding insert_suggestion
insert_suggestion-Inserted e [] = (λ r. r, omega arith, λ d h a. a)
insert_suggestion-Inserted e (x ∷ l) = elim (Bool-cases (leb e.0 x.0)) [
  | inl here ↦ rw here (elim (Bool-cases (any (λ y. ranked_eq y e) (x ∷ l))) [
    | inl again ↦ rw again tt
    | inr new ↦ rw new (in_front e x l (ground arith))
  ])
  | inr later ↦ rw later (
      OnOk-bind (Inserted e l) (Inserted e (x ∷ l)) (◌∷◌ x) (insert_suggestion e l)
        (behind e x l (ground arith)) (insert_suggestion-Inserted e l))
]

insert_again :
    (e : Ranked) (q : List Ranked)
    → any (λ y. ranked_eq y e) q ≡ true
    → insert_suggestion e q ≡ fault bad_iterator
unfolding insert_suggestion
insert_again e [] h = cc
insert_again e (x ∷ l) h = ground (arith, insert_again e l)

-- A node that is suggested a second time, at the distance at which the queue holds it, makes the
-- loop go on from an erased iterator.
suggest_again :
    (max_size : ℕ) (e : Ranked) (q : List Ranked)
    → any (λ y. ranked_eq y e) q ≡ true
    → suggest max_size e q ≡ fault bad_iterator
unfolding suggest
suggest_again max_size e [] h = cc
suggest_again max_size e (x ∷ l) h = rw (insert_again e (x ∷ l) h)

cut-IsRanked : (max_size : ℕ) (l : List Ranked) → IsRanked l → IsRanked (cut_suggestions max_size l)
unfolding cut_suggestions
cut-IsRanked max_size l r = ground (arith, IsRanked-pop_back l r)

length-cut-le :
    (max_size : ℕ) (l : List Ranked)
    → length l ≤ suc max_size
    → length (cut_suggestions max_size l) ≤ max_size
unfolding cut_suggestions
length-cut-le max_size l h = ground (arith, length-pop_back l)

-- A suggestion that is taken in with success leaves a queue that is sorted by distance and within its
-- size, which is not 0, sorted and within that size.
pub suggest-IsRanked :
    (max_size : ℕ) (e : Ranked) (q q' : List Ranked)
    → 0 < max_size
    → IsRanked q
    → length q ≤ max_size
    → suggest max_size e q ≡ ok q'
    → IsRanked q' × (length q' ≤ max_size)
unfolding suggest
suggest-IsRanked max_size e [] q' pos r n h =
    OnOk-ok (λ m. IsRanked m × (length m ≤ max_size)) (ok (e ∷ [])) q' h ((tt, tt), omega arith)
suggest-IsRanked max_size e (x ∷ l) q' pos r n h =
    OnOk-ok (λ m. IsRanked m × (length m ≤ max_size)) _ q' h
      (OnOk-bind (Inserted e (x ∷ l)) (λ m. IsRanked m × (length m ≤ max_size))
        (cut_suggestions max_size) (insert_suggestion e (x ∷ l))
        (λ m k. (cut-IsRanked max_size m (k.0 r), length-cut-le max_size m (omega arith)))
        (insert_suggestion-Inserted e (x ∷ l)))

insert_suggestion_fresh :
    (e : Ranked) (q : List Ranked)
    → any (λ y. ranked_eq y e) q ≡ false
    → (m : List Ranked) × (insert_suggestion e q ≡ ok m)
unfolding insert_suggestion
insert_suggestion_fresh e [] fresh = ([], refl)
insert_suggestion_fresh e (x ∷ l) fresh = elim (Bool-cases (leb e.0 x.0)) [
  | inl here ↦ (e ∷ x ∷ l, rw (here, fresh) refl)
  | inr later ↦
      let (m, done) = insert_suggestion_fresh e l (ground arith) in (x ∷ m, rw (later, done) refl)
]

-- A suggestion to a sorted queue within its size, which is not 0, where no entry equals the new one,
-- succeeds, and leaves a queue that is sorted by distance and within the size.
pub suggest_fresh :
    (max_size : ℕ) (e : Ranked) (q : List Ranked)
    → 0 < max_size
    → IsRanked q
    → length q ≤ max_size
    → any (λ y. ranked_eq y e) q ≡ false
    → (q' : List Ranked) × (suggest max_size e q ≡ ok q') × IsRanked q' × (length q' ≤ max_size)
unfolding suggest
suggest_fresh max_size e [] pos r n fresh = (e ∷ [], refl, (tt, tt), omega arith)
suggest_fresh max_size e (x ∷ l) pos r n fresh =
    let (m, done) = insert_suggestion_fresh e (x ∷ l) fresh in
    let taken : suggest max_size e (x ∷ l) ≡ ok (cut_suggestions max_size m) = rw done refl in
    let (sorted, short) =
      suggest-IsRanked max_size e (x ∷ l) (cut_suggestions max_size m) pos r n taken in
    (cut_suggestions max_size m, taken, sorted, short)
