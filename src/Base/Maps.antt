-- ===== src/Base/Maps.antt =====
-- Dictionaries as association lists: `std::unordered_map`, its iteration order the list's.
use Prim.Native.Nat.{◌+◌, ◌≤◌}
use mathlib.Core.Path.{◌≡◌, refl}
use mathlib.Core.List.{List, [], ◌∷◌}
use mathlib.Core.Option.{Option, none, some}
use native.Mathlib.Omega.{arith}
use omp_voice.Base.Tests.{if◌then◌else◌}
use omp_voice.Base.Keys.{Eq, ◌==◌}
use omp_voice.Base.Lists.{length}

abbrev pub Map {ℓ κ} : Type ℓ → Type κ → Type (ℓ ⊔ κ)
Map K V = List (K × V)

-- A function under an `Option`, by cases so that it computes.
abbrev pub over {ℓ κ} : {V : Type ℓ} {W : Type κ} → (V → W) → Option V → Option W
over f none = none
over f (some v) = some (f v)

module _ {ℓ κ} {K : Type ℓ} {V : Type κ} ⦃e : Eq K⦄ where
  unfoldable pub lookup : K → Map K V → Option V
  lookup k [] = none
  lookup k (p ∷ m) = if p.0 == k then some p.1 else lookup k m

  -- `m[k] = v`.
  unfoldable pub put : K → V → Map K V → Map K V
  put k v [] = (k, v) ∷ []
  put k v (p ∷ m) = let rest = put k v m in if p.0 == k then (k, v) ∷ m else p ∷ rest

  -- `m.erase(k)`.
  unfoldable pub erase : K → Map K V → Map K V
  erase k [] = []
  erase k (p ∷ m) = let rest = erase k m in if p.0 == k then rest else p ∷ rest

  -- A write through the reference or iterator at `k`; nothing happens if the key is missing.
  unfoldable pub adjust : K → (V → V) → Map K V → Map K V
  adjust k f [] = []
  adjust k f (p ∷ m) = let rest = adjust k f m in if p.0 == k then (p.0, f p.1) ∷ m else p ∷ rest

  pub lookup-put :
      (k j : K) (v : V) (m : Map K V)
      → lookup j (put k v m) ≡ (if k == j then some v else lookup j m)
  unfolding lookup put
  lookup-put k j v [] = refl
  lookup-put k j v (p ∷ m) =
      ground (arith, e.beq_iff p.0 k, e.beq_iff p.0 j, e.beq_iff k j, lookup-put k j v m)

  pub lookup-erase :
      (k j : K) (m : Map K V) → lookup j (erase k m) ≡ (if k == j then none else lookup j m)
  unfolding lookup erase
  lookup-erase k j [] = ground arith
  lookup-erase k j (p ∷ m) =
      ground (arith, e.beq_iff p.0 k, e.beq_iff p.0 j, e.beq_iff k j, lookup-erase k j m)

  pub lookup-adjust :
      (k j : K) (f : V → V) (m : Map K V)
      → lookup j (adjust k f m) ≡ (if k == j then over f (lookup j m) else lookup j m)
  unfolding lookup adjust
  lookup-adjust k j f [] = ground arith
  lookup-adjust k j f (p ∷ m) =
      ground (arith, e.beq_iff p.0 k, e.beq_iff p.0 j, e.beq_iff k j, lookup-adjust k j f m)

  pub length-erase-le : (k : K) (m : Map K V) → length (erase k m) ≤ length m
  unfolding erase
  length-erase-le k [] = omega arith
  length-erase-le k (p ∷ m) = ground (arith, length-erase-le k m)

  pub length-put-le : (k : K) (v : V) (m : Map K V) → length (put k v m) ≤ length m + 1
  unfolding put
  length-put-le k v [] = omega arith
  length-put-le k v (p ∷ m) = ground (arith, length-put-le k v m)

  -- No key stands twice, as in any `std::unordered_map`.
  abbrev pub Distinct : Map K V → Type κ
  Distinct [] = Unit
  Distinct (p ∷ m) = (lookup p.0 m ≡ none) × Distinct m

  pub put-Distinct : (k : K) (v : V) (m : Map K V) → Distinct m → Distinct (put k v m)
  unfolding put lookup
  put-Distinct k v [] d = (refl, tt)
  put-Distinct k v (p ∷ m) d =
      ground (arith, put-Distinct k v m d.1, lookup-put k p.0 v m, e.beq_iff p.0 k, e.beq_iff k p.0)

  pub erase-Distinct : (k : K) (m : Map K V) → Distinct m → Distinct (erase k m)
  unfolding erase lookup
  erase-Distinct k [] d = tt
  erase-Distinct k (p ∷ m) d = ground (arith, erase-Distinct k m d.1, lookup-erase k p.0 m)

  pub adjust-Distinct : (k : K) (f : V → V) (m : Map K V) → Distinct m → Distinct (adjust k f m)
  unfolding adjust lookup
  adjust-Distinct k f [] d = tt
  adjust-Distinct k f (p ∷ m) d = ground (arith, adjust-Distinct k f m d.1, lookup-adjust k p.0 f m)
