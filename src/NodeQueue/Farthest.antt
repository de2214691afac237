-- ===== src/NodeQueue/Farthest.antt =====
-- The id for which `mark_seen` of dht/NodeQueue.cpp leaves the array of buckets: distances go up to
-- 192, and the array ends at 191.
use spatter.Messages.Memory.{IsBytes}
use spatter.Messages.Hash.{Hash, IsHash}
use spatter.Messages.Node.{NodeRecord}
use spatter.Util.Bits.{differing}
use spatter.Util.Distance.{bit_distance, hamming, bit_distance-hamming}
use spatter.NodeQueue.{mark_seen}
use spatter.State.{State, Platform}
use spatter.Prelude.{
  ℕ, zero, suc, ◌-◌, ◌*◌, ◌<◌, ◌≡◌, ◌≢◌, refl, Bool, true, ◌&&◌, List, [], ◌∷◌, ◌==◌, ==_iff, fault,
  out_of_bounds, arith,
}

-- All bits turned.
abbrev pub complement : Hash → Hash
complement [] = []
complement (x ∷ l) = (255 - x) ∷ complement l

complement-IsBytes : (n : ℕ) (l : List ℕ) → IsBytes n l → IsBytes n (complement l)
complement-IsBytes zero [] h = tt
complement-IsBytes zero (x ∷ l) h = absurd h
complement-IsBytes (suc n) [] h = absurd h
complement-IsBytes (suc n) (x ∷ l) h = (omega arith, complement-IsBytes n l h.1)

all_below : ℕ → (ℕ → Bool) → Bool
all_below zero f = true
all_below (suc n) f = f n && all_below n f

all_below_sound : (n : ℕ) (f : ℕ → Bool) (x : ℕ) → all_below n f ≡ true → x < n → f x ≡ true
unfolding all_below
all_below_sound zero f x h lt = absurd (omega arith)
all_below_sound (suc n) f x h lt = ground (arith, all_below_sound n f x)

byte_table : all_below 256 (λ x. differing 8 x (255 - x) == 8) ≡ true
unfolding all_below differing
byte_table = refl

differing_complement : (x : ℕ) → x < 256 → differing 8 x (255 - x) ≡ 8
differing_complement x h =
    (==_iff _ 8).0 (all_below_sound 256 (λ y. differing 8 y (255 - y) == 8) x byte_table h)

hamming-complement : (n : ℕ) (l : List ℕ) → IsBytes n l → hamming l (complement l) ≡ n * 8
unfolding hamming
hamming-complement zero [] h = refl
hamming-complement zero (x ∷ l) h = absurd h
hamming-complement (suc n) [] h = absurd h
hamming-complement (suc n) (x ∷ l) h =
    omega (arith, differing_complement x h.0, hamming-complement n l h.1)

bit_distance-complement : (h : Hash) → IsHash h → bit_distance h (complement h) ≡ 192
bit_distance-complement h v = omega (
  arith,
  bit_distance-hamming h (complement h) v (complement-IsBytes 24 h v),
  hamming-complement 24 h v,
)

-- Whatever the id of this node, a record with a port whose id has all bits turned makes `mark_seen`
-- index the array behind its end.
pub mark_seen-complement :
    {Text : Type 0} (p : Platform Text) (now : ℕ) (s : State Text) (n : NodeRecord)
    → IsHash s.this_node.node_id
    → n.node_id ≡ complement s.this_node.node_id
    → n.port ≢ 0
    → mark_seen p now n s ≡ fault out_of_bounds
unfolding mark_seen
mark_seen-complement p now s n v e h =
    let d : bit_distance s.this_node.node_id n.node_id ≡ 192 =
      rw e (bit_distance-complement s.this_node.node_id v) in
    ground arith
