-- ===== src/NodeQueue/Ranking.antt =====
-- The queue `pq` of `get_better_nodes` in dht/NodeQueue.cpp.
use spatter.Messages.Hash.{Hash}
use spatter.Messages.Node.{NodeRecord}
use spatter.Util.Distance.{bit_distance}
use spatter.State.{Ranked}
use spatter.Prelude.{
  ℕ, Bool, ◌||◌, List, [], ◌∷◌, Option, none, some, ltb, leb, if◌then◌else◌, length, pop_back,
}

-- The global `alpha` of dht/protocol/search_manager.cpp, which nothing assigns to.
abbrev pub alpha : ℕ
alpha = 5

-- The entry before the first one that is at least as far; `none` if there is no such one.
unfoldable pub place : Ranked → List Ranked → Option (List Ranked)
place e [] = none
place e (x ∷ l) =
    if leb e.0 x.0
    then some (e ∷ x ∷ l)
    else elim (place e l) [ none ↦ none | some l' ↦ some (x ∷ l') ]

-- The last entry goes if the queue has reached `alpha`.
unfoldable pub spill : List Ranked → List Ranked
spill l = if leb alpha (length l) then pop_back l else l

-- An entry for a queue: where it finds no place before another entry, it is not taken in.
unfoldable pub enqueue : Ranked → List Ranked → List Ranked
unfolding place spill
enqueue e [] = e ∷ []
enqueue e (x ∷ l) = elim (place e (x ∷ l)) [ none ↦ x ∷ l | some l' ↦ spill l' ]

-- The body of the inner loop, for one node.
unfoldable pub offer : Hash → ℕ → Bool → NodeRecord → List Ranked → List Ranked
unfolding enqueue
offer h max_dist allow n pq =
    let d = bit_distance n.node_id h in if ltb d max_dist || allow then enqueue (d, n) pq else pq
