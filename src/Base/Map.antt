-- ===== src/Base/Map.antt =====
-- Go's `map[int]V` as an association list. A Go map has no order, and a list gives one of the
-- orders in which a `range` loop may visit it.
use Prim.Native.Nat.{ℕ, suc, ◌+◌, ◌≤◌, ◌<◌}
use mathlib.Core.Path.{◌≡◌, refl}
use mathlib.Core.Bool.{Bool, true, false, ◌||◌}
use mathlib.Core.List.{List, [], ◌∷◌}
use mathlib.Core.Option.{Option, none, some}
use native.Mathlib.Omega.{arith}
use contribute_semaphore.Base.Tests.{◌==◌, if◌then◌else◌}

abbrev pub Map {ℓ} : Type ℓ → Type ℓ
Map V = List (ℕ × V)

module _ {ℓ} {V : Type ℓ} where
  unfoldable pub lookup : ℕ → Map V → Option V
  lookup k [] = none
  lookup k ((j, v) ∷ m) = let rest = lookup k m in if j == k then some v else rest

  unfoldable pub delete : ℕ → Map V → Map V
  delete k [] = []
  delete k ((j, v) ∷ m) = let rest = delete k m in if j == k then rest else (j, v) ∷ rest

  unfoldable pub insert : ℕ → V → Map V → Map V
  unfolding delete
  insert k v m = (k, v) ∷ delete k m

  unfoldable pub size : Map V → ℕ
  size [] = 0
  size (e ∷ m) = suc (size m)

  -- A `range` loop that looks for a value.
  unfoldable pub any_value : (V → Bool) → Map V → Bool
  any_value p [] = false
  any_value p ((j, v) ∷ m) = p v || any_value p m

  unfoldable pub find_value : (V → Bool) → Map V → Option V
  find_value p [] = none
  find_value p ((j, v) ∷ m) = let rest = find_value p m in if p v then some v else rest

  unfoldable pub values : Map V → List V
  values [] = []
  values ((j, v) ∷ m) = v ∷ values m

  pub lookup-delete :
      (k j : ℕ) (m : Map V) → lookup j (delete k m) ≡ (if k == j then none else lookup j m)
  unfolding lookup delete
  lookup-delete k j [] = ground arith
  lookup-delete k j ((i, v) ∷ m) = ground (arith, lookup-delete k j m)

  pub lookup-insert :
      (k j : ℕ) (v : V) (m : Map V)
      → lookup j (insert k v m) ≡ (if k == j then some v else lookup j m)
  unfolding lookup insert
  lookup-insert k j v m = ground (arith, lookup-delete k j m)

  pub size-delete-le : (k : ℕ) (m : Map V) → size (delete k m) ≤ size m
  unfolding size delete
  size-delete-le k [] = omega arith
  size-delete-le k ((i, v) ∷ m) = ground (arith, size-delete-le k m)

  pub size-insert-le : (k : ℕ) (v : V) (m : Map V) → size (insert k v m) ≤ size m + 1
  unfolding size insert
  size-insert-le k v m = omega (arith, size-delete-le k m)

  pub lookup_of_empty : (k : ℕ) (m : Map V) → size m ≡ 0 → lookup k m ≡ none
  unfolding size lookup
  lookup_of_empty k [] h = refl
  lookup_of_empty k (e ∷ m) h = absurd (omega arith)

  -- A loop that finds nothing has looked at every entry.
  pub any_value-lookup :
      (p : V → Bool) (m : Map V) (k : ℕ) (v : V)
      → any_value p m ≡ false
      → lookup k m ≡ some v
      → p v ≡ false
  unfolding any_value lookup
  any_value-lookup p [] k v h e = cc
  any_value-lookup p ((j, w) ∷ m) k v h e = ground (arith, any_value-lookup p m k v)

  pub find_value_holds : (p : V → Bool) (m : Map V) (v : V) → find_value p m ≡ some v → p v ≡ true
  unfolding find_value
  find_value_holds p [] v e = cc
  find_value_holds p ((j, w) ∷ m) v e = ground (arith, find_value_holds p m v)

  pub find_value-lookup :
      (p : V → Bool) (m : Map V) (k : ℕ) (v : V)
      → find_value p m ≡ none
      → lookup k m ≡ some v
      → p v ≡ false
  unfolding find_value lookup
  find_value-lookup p [] k v h e = cc
  find_value-lookup p ((j, w) ∷ m) k v h e = ground (arith, find_value-lookup p m k v)

  pub delete_of_lookup : (k : ℕ) (m : Map V) → lookup k m ≡ none → delete k m ≡ m
  unfolding lookup delete
  delete_of_lookup k [] h = refl
  delete_of_lookup k ((j, v) ∷ m) h = ground (arith, delete_of_lookup k m)

  pub eq_nil_of_size : (m : Map V) → size m ≡ 0 → m ≡ []
  unfolding size
  eq_nil_of_size [] h = refl
  eq_nil_of_size (e ∷ m) h = absurd (omega arith)

  pub size-lookup : (k : ℕ) (v : V) (m : Map V) → lookup k m ≡ some v → 0 < size m
  unfolding size lookup
  size-lookup k v [] h = cc
  size-lookup k v (e ∷ m) h = omega arith

  pub size-insert : (k : ℕ) (v : V) (m : Map V) → 0 < size (insert k v m)
  unfolding size insert
  size-insert k v m = omega arith

  pub any_value-delete :
      (p : V → Bool) (k : ℕ) (m : Map V) → any_value p m ≡ false → any_value p (delete k m) ≡ false
  unfolding any_value delete
  any_value-delete p k [] h = refl
  any_value-delete p k ((j, v) ∷ m) h = ground (arith, any_value-delete p k m)

  pub any_value-insert :
      (p : V → Bool) (k : ℕ) (v : V) (m : Map V) → p v ≡ true → any_value p (insert k v m) ≡ true
  unfolding any_value insert
  any_value-insert p k v m h = ground arith
