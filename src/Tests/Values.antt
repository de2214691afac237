-- ===== src/Tests/Values.antt =====
-- Examples for distances and node records.
use spatter.Util.Distance.{bit_distance, hamming, bit_distance-hamming}
use spatter.Util.Metric.{bit_distance_metric}
use spatter.Tests.{id_of, id-IsHash}
use spatter.Prelude.{ℕ, ◌≤◌, ◌≡◌, ◌↔◌, List, [], ◌∷◌, arith}

bit_distance-hamming_example : bit_distance (id_of 5) (id_of 6) ≡ hamming (id_of 5) (id_of 6)
bit_distance-hamming_example =
    bit_distance-hamming (id_of 5) (id_of 6) (id-IsHash 5 (omega arith)) (id-IsHash 6 (omega arith))

bit_distance_metric_example :
    (bit_distance (id_of 5) (id_of 6) ≡ bit_distance (id_of 6) (id_of 5))
    × (bit_distance (id_of 5) (id_of 6) ≤ 192)
    × ((bit_distance (id_of 5) (id_of 6) ≡ 0) ↔ (id_of 5 ≡ id_of 6))
bit_distance_metric_example =
    bit_distance_metric (id_of 5) (id_of 6) (id-IsHash 5 (omega arith)) (id-IsHash 6 (omega arith))

-- The tokens of an address of four one-letter numbers, and the value of a letter.
abbrev four_tokens : List ℕ → List (List ℕ)
four_tokens s = (49 ∷ []) ∷ (50 ∷ []) ∷ (51 ∷ []) ∷ (52 ∷ []) ∷ []

abbrev digit : List ℕ → ℕ
digit [] = 0
digit (c ∷ l) = c
