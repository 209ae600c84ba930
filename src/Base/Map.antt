-- ===== src/Base/Map.antt =====
-- `std::map` with unsigned keys: the entries in the order of their keys.
use Prim.Native.Nat.{ℕ, suc, ◌≤◌, ◌<◌}
use mathlib.Core.Path.{◌≡◌, refl}
use mathlib.Core.Logic.{inl, inr}
use mathlib.Core.List.{List, [], ◌∷◌}
use mathlib.Core.Option.{Option, none, some, some-injective}
use native.Mathlib.Omega.{arith}
use package.livox_sdk.Base.Lists.{All}
use package.livox_sdk.Base.Tests.{ltb, ◌==◌, ==_iff, Bool-cases, if◌then◌else◌}

abbrev pub Map {ℓ} : Type ℓ → Type ℓ
Map V = List (ℕ × V)

-- Each key is larger than the one before, and at least `n`.
abbrev pub Above {ℓ} : {V : Type ℓ} → ℕ → Map V → Type 0
Above n [] = Unit {0}
Above n ((k, v) ∷ m) = (n ≤ k) × Above (suc k) m

abbrev pub IsSorted {ℓ} : {V : Type ℓ} → Map V → Type 0
IsSorted m = Above 0 m

module _ {ℓ} {V : Type ℓ} where
  -- `find`, with `none` for `end()`.
  unfoldable pub find : ℕ → Map V → Option V
  find k [] = none
  find k ((j, v) ∷ m) = if j == k then some v else find k m

  -- `m[k] = v`.
  unfoldable pub assign : ℕ → V → Map V → Map V
  assign k v [] = (k, v) ∷ []
  assign k v ((j, w) ∷ m) =
      if j == k then (k, v) ∷ m else if ltb k j then (k, v) ∷ (j, w) ∷ m else (j, w) ∷ assign k v m

  -- `erase(k)`.
  unfoldable pub erase : ℕ → Map V → Map V
  erase k [] = []
  erase k ((j, v) ∷ m) = if j == k then m else (j, v) ∷ erase k m

  pub Above-mono : (n k : ℕ) (m : Map V) → n ≤ k → Above k m → Above n m
  Above-mono n k [] h a = tt
  Above-mono n k ((j, v) ∷ m) h a = (omega arith, a.1)

  pub find-assign :
      (k : ℕ) (v : V) (m : Map V) (j : ℕ)
      → find j (assign k v m) ≡ (if k == j then some v else find j m)
  unfolding find assign
  find-assign k v [] j = refl
  find-assign k v ((i, w) ∷ m) j = ground (arith, find-assign k v m j)

  pub find_below : (n : ℕ) (m : Map V) (j : ℕ) → Above n m → j < n → find j m ≡ none
  unfolding find
  find_below n [] j a h = refl
  find_below n ((k, v) ∷ m) j a h = ground (arith, find_below (suc k) m j a.1)

  pub find-erase :
      (k n : ℕ) (m : Map V) (j : ℕ)
      → Above n m
      → find j (erase k m) ≡ (if k == j then none else find j m)
  unfolding find erase
  find-erase k n [] j a = ground arith
  find-erase k n ((i, w) ∷ m) j a =
      ground (arith, find-erase k (suc i) m j a.1, find_below (suc i) m j a.1)

  pub assign-Above : (n k : ℕ) (v : V) (m : Map V) → n ≤ k → Above n m → Above n (assign k v m)
  unfolding assign
  assign-Above n k v [] h a = (h, tt)
  assign-Above n k v ((i, w) ∷ m) h a = ground (arith, assign-Above (suc i) k v m)

  pub erase-Above : (n k : ℕ) (m : Map V) → Above n m → Above n (erase k m)
  unfolding erase
  erase-Above n k [] a = tt
  erase-Above n k ((i, w) ∷ m) a =
      ground (arith, erase-Above (suc i) k m a.1, Above-mono n (suc i) m)

  -- A key that is not there is erased without a trace.
  pub erase_absent : (k : ℕ) (m : Map V) → find k m ≡ none → erase k m ≡ m
  unfolding find erase
  erase_absent k [] h = refl
  erase_absent k ((i, w) ∷ m) h = ground (arith, erase_absent k m)

  -- A new key that is erased again leaves the map as it was.
  pub erase-assign : (k : ℕ) (v : V) (m : Map V) → find k m ≡ none → erase k (assign k v m) ≡ m
  unfolding find erase assign
  erase-assign k v [] h = ground arith
  erase-assign k v ((i, w) ∷ m) h = ground (arith, erase-assign k v m)

  -- What holds of every entry.
  pub assign-All :
      (P : ℕ × V → Type 0) (k : ℕ) (v : V) (m : Map V) → P (k, v) → All P m → All P (assign k v m)
  unfolding assign
  assign-All P k v [] p a = (p, tt)
  assign-All P k v ((j, w) ∷ m) p a = elim (Bool-cases (j == k)) [
    | inl same ↦ rw same (p, a.1)
    | inr other ↦ elim (Bool-cases (ltb k j)) [
      | inl below ↦ rw (other, below) (p, (a.0, a.1))
      | inr above ↦ rw (other, above) (a.0, assign-All P k v m p a.1)
    ]
  ]

  pub erase-All : (P : ℕ × V → Type 0) (k : ℕ) (m : Map V) → All P m → All P (erase k m)
  unfolding erase
  erase-All P k [] a = tt
  erase-All P k ((j, w) ∷ m) a = elim (Bool-cases (j == k)) [
    | inl same ↦ rw same a.1
    | inr other ↦ rw other (a.0, erase-All P k m a.1)
  ]

  pub find-All :
      (P : ℕ × V → Type 0) (k : ℕ) (v : V) (m : Map V) → All P m → find k m ≡ some v → P (k, v)
  unfolding find
  find-All P k v [] a h = absurd (ground (arith, h))
  find-All P k v ((j, w) ∷ m) a h = elim (Bool-cases (j == k)) [
    | inl same ↦
        let value : w ≡ v = some-injective w v (rw same at h) in
        rw (← (==_iff j k).0 same, ← value) a.0
    | inr other ↦ find-All P k v m a.1 (rw other at h)
  ]
