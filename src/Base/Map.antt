-- ===== src/Base/Map.antt =====
-- std::map as a list in the order of its keys.
use Prim.Native.Nat.{ℕ, ◌+◌, ◌≤◌, ◌<◌}
use mathlib.Core.Path.{◌≡◌, refl}
use mathlib.Core.List.{List, [], ◌∷◌}
use mathlib.Core.Option.{Option, none, some}
use native.Mathlib.Omega.{arith}
use opencie_pkcs.Base.Tests.{ltb, ◌==◌, if◌then◌else◌, is_some}

abbrev pub Map {ℓ} : Type ℓ → Type ℓ
Map V = List (ℕ × V)

module _ {ℓ} {V : Type ℓ} where
  unfoldable pub find : ℕ → Map V → Option V
  find k [] = none
  find k ((j, v) ∷ m) = if j == k then some v else find k m

  -- `m[k] = v`
  unfoldable pub assign : ℕ → V → Map V → Map V
  assign k v [] = (k, v) ∷ []
  assign k v ((j, w) ∷ m) =
      if j == k then (k, v) ∷ m else if ltb k j then (k, v) ∷ (j, w) ∷ m else (j, w) ∷ assign k v m

  -- `m.insert({k, v})`, which leaves an entry that is there.
  unfoldable pub insert : ℕ → V → Map V → Map V
  insert k v m = if is_some (find k m) then m else assign k v m

  unfoldable pub erase : ℕ → Map V → Map V
  erase k [] = []
  erase k ((j, v) ∷ m) = if j == k then erase k m else (j, v) ∷ erase k m

  pub find-assign :
      (k j : ℕ) (v : V) (m : Map V) → find j (assign k v m) ≡ (if k == j then some v else find j m)
  unfolding find assign
  find-assign k j v [] = refl
  find-assign k j v ((i, w) ∷ m) = ground (arith, find-assign k j v m)

  pub find-erase : (k j : ℕ) (m : Map V) → find j (erase k m) ≡ (if k == j then none else find j m)
  unfolding find erase
  find-erase k j [] = ground arith
  find-erase k j ((i, w) ∷ m) = ground (arith, find-erase k j m)

  -- The keys rise and are at least the bound.
  abbrev pub Sorted : ℕ → Map V → Type 0
  Sorted b [] = Unit {0}
  Sorted b ((j, v) ∷ m) = (b ≤ j) × Sorted (j + 1) m

  pub Sorted-mono : (b c : ℕ) (m : Map V) → b ≤ c → Sorted c m → Sorted b m
  Sorted-mono b c [] h s = tt
  Sorted-mono b c ((j, v) ∷ m) h s = (omega arith, s.1)

  pub find-below : (k b : ℕ) (m : Map V) → k < b → Sorted b m → find k m ≡ none
  unfolding find
  find-below k b [] h s = refl
  find-below k b ((j, v) ∷ m) h s = ground (arith, find-below k (j + 1) m (omega arith) s.1)

  pub assign-Sorted : (k b : ℕ) (v : V) (m : Map V) → b ≤ k → Sorted b m → Sorted b (assign k v m)
  unfolding assign
  assign-Sorted k b v [] h s = (h, tt)
  assign-Sorted k b v ((j, w) ∷ m) h s = ground (arith, assign-Sorted k (j + 1) v m)
