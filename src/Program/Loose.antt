-- ===== src/Program/Loose.antt =====
-- The searches that have gone from the map, dht/protocol/search_manager.cpp: what holds of the searches
-- of the map holds of them.
use spatter.Program.{World, one_more, left_over}
use spatter.Search.Manager.{find_search}
use spatter.State.{Search}
use spatter.Prelude.{ℕ, List, All, find_id-All, ◌≡◌, refl, Option, none, some}

one_more-All :
    (R : Search → Type 0) (o : Option Search) (l : List (ℕ × Search))
    → ((sr : Search) → o ≡ some sr → R sr)
    → All (λ (e : ℕ × Search). R e.1) l
    → All (λ (e : ℕ × Search). R e.1) (one_more o l)
one_more-All R none l k v = v
one_more-All R (some sr) l k v = (k sr refl, v)

pub left_over-All :
    {Text : Type 0} (Q : ℕ → Search → Type 0) (R : Search → Type 0) (id : ℕ) (x : World Text)
    → ((k : ℕ) (sr : Search) → Q k sr → R sr)
    → All (λ e. Q e.0 e.1) x.node.searches
    → All (λ (e : ℕ × Search). R e.1) x.loose
    → All (λ (e : ℕ × Search). R e.1) (left_over id x)
unfolding find_search
left_over-All Q R id x keeps v l =
    one_more-All R (find_search id x.node) x.loose
      (λ sr there. keeps id sr (find_id-All Q id sr x.node.searches there v)) l
