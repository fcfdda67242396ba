-- ===== src/Prelude/Table.antt =====
-- Go maps with string keys, as association lists with at most one entry for a key. The source's
-- loops over a map do not depend on its order.
use Prim.Native.Nat.{ℕ, ◌+◌, ◌≤◌}
use mathlib.Core.Path.{◌≡◌, refl}
use mathlib.Core.Bool.{Bool}
use mathlib.Core.List.{List, [], ◌∷◌}
use mathlib.Core.Option.{Option, none, some}
use native.Mathlib.Omega.{arith}
use tellstone.Prelude.Tests.{if◌then◌else◌}
use tellstone.Prelude.Strings.{Bytes, bytes_eq, bytes_eq_iff}

abbrev pub Table {ℓ} : Type ℓ → Type ℓ
Table V = List (Bytes × V)

module _ {ℓ} {V : Type ℓ} where
  -- v, ok := m[k]
  unfoldable pub lookup : Bytes → Table V → Option V
  lookup k [] = none
  lookup k ((j, v) ∷ m) = if bytes_eq j k then some v else lookup k m

  -- m[k] = v
  unfoldable pub insert : Bytes → V → Table V → Table V
  insert k v [] = (k, v) ∷ []
  insert k v ((j, w) ∷ m) = if bytes_eq j k then (k, v) ∷ m else (j, w) ∷ insert k v m

  -- delete(m, k)
  unfoldable pub erase : Bytes → Table V → Table V
  erase k [] = []
  erase k ((j, v) ∷ m) = let rest = erase k m in if bytes_eq j k then rest else (j, v) ∷ rest

  -- No key has two entries.
  abbrev pub Distinct : Table V → Type ℓ
  Distinct [] = Unit
  Distinct ((k, v) ∷ m) = (lookup k m ≡ none) × Distinct m

  pub lookup-insert :
      (k j : Bytes) (v : V) (m : Table V)
      → lookup j (insert k v m) ≡ (if bytes_eq k j then some v else lookup j m)
  unfolding lookup insert
  lookup-insert k j v [] = refl
  lookup-insert k j v ((i, w) ∷ m) =
      ground (arith, bytes_eq_iff k j, bytes_eq_iff i k, bytes_eq_iff i j, lookup-insert k j v m)

  pub lookup-erase :
      (k j : Bytes) (m : Table V)
      → lookup j (erase k m) ≡ (if bytes_eq k j then none else lookup j m)
  unfolding lookup erase
  lookup-erase k j [] = ground arith
  lookup-erase k j ((i, w) ∷ m) =
      ground (arith, bytes_eq_iff k j, bytes_eq_iff i k, bytes_eq_iff i j, lookup-erase k j m)

  pub insert-Distinct : (k : Bytes) (v : V) (m : Table V) → Distinct m → Distinct (insert k v m)
  unfolding insert lookup
  insert-Distinct k v [] h = (refl, tt)
  insert-Distinct k v ((i, w) ∷ m) h =
      ground
        (arith, bytes_eq_iff i k, bytes_eq_iff k i, lookup-insert k i v m, insert-Distinct k v m)

  pub erase-Distinct : (k : Bytes) (m : Table V) → Distinct m → Distinct (erase k m)
  unfolding erase lookup
  erase-Distinct k [] h = tt
  erase-Distinct k ((i, w) ∷ m) h =
      ground (arith, bytes_eq_iff i k, lookup-erase k i m, erase-Distinct k m)

  pub erase_absent : (k : Bytes) (m : Table V) → lookup k m ≡ none → erase k m ≡ m
  unfolding erase lookup
  erase_absent k [] h = refl
  erase_absent k ((i, w) ∷ m) h = ground (arith, erase_absent k m)

  -- The entries that pass a test, in order.
  unfoldable pub select : (Bytes → V → Bool) → Table V → Table V
  select p [] = []
  select p ((k, v) ∷ m) = let rest = select p m in if p k v then (k, v) ∷ rest else rest

-- The sum of a weight over the entries, and the weight of what stands at a key.
module _ {ℓ} {V : Type ℓ} (weight : Bytes → V → ℕ) where
  unfoldable pub total : Table V → ℕ
  total [] = 0
  total ((k, v) ∷ m) = weight k v + total m

  abbrev pub weight_at : Bytes → Option V → ℕ
  weight_at k none = 0
  weight_at k (some v) = weight k v

  pub total-insert :
      (k : Bytes) (v : V) (m : Table V)
      → total (insert k v m) + weight_at k (lookup k m) ≡ total m + weight k v
  unfolding total insert lookup
  total-insert k v [] = omega arith
  total-insert k v ((i, w) ∷ m) = ground (arith, bytes_eq_iff i k, total-insert k v m)

  pub total-erase :
      (k : Bytes) (m : Table V)
      → Distinct m
      → total (erase k m) + weight_at k (lookup k m) ≡ total m
  unfolding total erase lookup
  total-erase k [] h = omega arith
  total-erase k ((i, w) ∷ m) h = ground (arith, bytes_eq_iff i k, total-erase k m, erase_absent k m)

  pub total-lookup-le : (k : Bytes) (m : Table V) → weight_at k (lookup k m) ≤ total m
  unfolding total lookup
  total-lookup-le k [] = omega arith
  total-lookup-le k ((i, w) ∷ m) = ground (arith, bytes_eq_iff i k, total-lookup-le k m)
