-- ===== src/Prelude/Maps.antt =====
-- An `unordered_map` from ids: an association list, of which only the entry for a key is ever read.
use Prim.Native.Nat.{ℕ}
use mathlib.Core.Path.{◌≡◌, refl, subst}
use mathlib.Core.Logic.{inl, inr}
use spatter.Prelude.Lists.{All}
use mathlib.Core.List.{List, [], ◌∷◌}
use mathlib.Core.Option.{Option, none, some, some_inj}
use native.Mathlib.Omega.{arith}
use spatter.Prelude.Tests.{◌==◌, ==_iff, Bool-cases, if◌then◌else◌}

module _ {ℓ} {V : Type ℓ} where
  -- `find`, `none` for the end
  unfoldable pub find_id : ℕ → List (ℕ × V) → Option V
  find_id k [] = none
  find_id k ((j, v) ∷ m) = if j == k then some v else find_id k m

  -- `m[k] = v`
  unfoldable pub assign : ℕ → V → List (ℕ × V) → List (ℕ × V)
  assign k v [] = (k, v) ∷ []
  assign k v ((j, w) ∷ m) = if j == k then (k, v) ∷ m else (j, w) ∷ assign k v m

  -- `erase`
  unfoldable pub erase_id : ℕ → List (ℕ × V) → List (ℕ × V)
  erase_id k [] = []
  erase_id k ((j, w) ∷ m) = let rest = erase_id k m in if j == k then rest else (j, w) ∷ rest

  pub find_id-assign :
      (k i : ℕ) (v : V) (m : List (ℕ × V))
      → find_id i (assign k v m) ≡ (if k == i then some v else find_id i m)
  unfolding find_id assign
  find_id-assign k i v [] = refl
  find_id-assign k i v ((j, w) ∷ m) = ground (arith, find_id-assign k i v m)

  pub find_id-assign_self : (k : ℕ) (v : V) (m : List (ℕ × V)) → find_id k (assign k v m) ≡ some v
  find_id-assign_self k v m = ground (arith, find_id-assign k k v m)

  pub find_id-erase_id :
      (k i : ℕ) (m : List (ℕ × V))
      → find_id i (erase_id k m) ≡ (if k == i then none else find_id i m)
  unfolding find_id erase_id
  find_id-erase_id k i [] = ground arith
  find_id-erase_id k i ((j, w) ∷ m) = ground (arith, find_id-erase_id k i m)

  -- What holds of all entries.
  pub find_id-All {κ} :
      (Q : ℕ → V → Type κ) (k : ℕ) (v : V) (m : List (ℕ × V))
      → find_id k m ≡ some v
      → All (λ e. Q e.0 e.1) m
      → Q k v
  unfolding find_id
  find_id-All Q k v [] e h = absurd (ground arith)
  find_id-All Q k v ((j, w) ∷ m) e h = elim (Bool-cases (j == k)) [
    | inl same ↦
        let here : some w ≡ some v = rw same at e in
        subst (λ x. Q k x) (some_inj.0 here) (rw ((==_iff j k).0 same) at h.0)
    | inr other ↦ find_id-All Q k v m (rw other at e) h.1
  ]

  pub assign-All {κ} :
      (Q : ℕ → V → Type κ) (k : ℕ) (v : V) (m : List (ℕ × V))
      → Q k v
      → All (λ e. Q e.0 e.1) m
      → All (λ e. Q e.0 e.1) (assign k v m)
  unfolding assign
  assign-All Q k v [] q h = (q, tt)
  assign-All Q k v ((j, w) ∷ m) q h = elim (Bool-cases (j == k)) [
    | inl same ↦ rw same (q, h.1)
    | inr other ↦ rw other (h.0, assign-All Q k v m q h.1)
  ]

  pub erase_id-All {κ} :
      (Q : ℕ → V → Type κ) (k : ℕ) (m : List (ℕ × V))
      → All (λ e. Q e.0 e.1) m
      → All (λ e. Q e.0 e.1) (erase_id k m)
  unfolding erase_id
  erase_id-All Q k [] h = tt
  erase_id-All Q k ((j, w) ∷ m) h = elim (Bool-cases (j == k)) [
    | inl same ↦ rw same (erase_id-All Q k m h.1)
    | inr other ↦ rw other (h.0, erase_id-All Q k m h.1)
  ]
