-- ===== src/Prelude/Dict.antt =====
-- Go's `map` as an association list behind its laws, for any key that Go compares by `==`.
-- The order of the entries stands for the order in which a `range` loop meets them.
use mathlib.Core.List.{List, [], ◌∷◌}
use Prim.Native.Nat.{suc}
use mathlib.Core.Path.{◌≡◌, refl}
use mathlib.Core.Bool.{Bool, true, false}
use mathlib.Core.Option.{Option, none, some}
use native.Mathlib.Omega.{arith}
use actor_cluster.Prelude.Tests.{Comparable, ◌==◌, if◌then◌else◌}
use actor_cluster.Prelude.Lists.{length}

abbrev pub Dict {ℓ κ} : Type ℓ → Type κ → Type (ℓ ⊔ κ)
Dict K V = List (K × V)

abbrev pub is_some {ℓ} : {A : Type ℓ} → Option A → Bool
is_some none = false
is_some (some _) = true

module _ {ℓ κ} {K : Type ℓ} ⦃e : Comparable K⦄ {V : Type κ} where
  -- v, ok := m[k]
  unfoldable pub lookup : K → Dict K V → Option V
  lookup k [] = none
  lookup k ((j, v) ∷ m) = if j == k then some v else lookup k m

  -- m[k] = v
  unfoldable pub insert : K → V → Dict K V → Dict K V
  insert k v [] = (k, v) ∷ []
  insert k v ((j, w) ∷ m) = if j == k then (k, v) ∷ m else (j, w) ∷ insert k v m

  -- delete(m, k)
  unfoldable pub delete : K → Dict K V → Dict K V
  delete k [] = []
  delete k ((j, v) ∷ m) = let rest = delete k m in if j == k then rest else (j, v) ∷ rest

  pub lookup-insert :
      (k other : K) (v : V) (entries : Dict K V)
      → (lookup other (insert k v entries)) ≡ (if k == other then some v else lookup other entries)
  unfolding lookup insert
  lookup-insert k j v [] = ground arith
  lookup-insert k j v ((i, w) ∷ m) =
      ground (arith, e.same_iff k j, e.same_iff i k, e.same_iff i j, lookup-insert k j v m)

  pub lookup-delete :
      (k j : K) (m : Dict K V) → lookup j (delete k m) ≡ (if k == j then none else lookup j m)
  unfolding lookup delete
  lookup-delete k j [] = ground arith
  lookup-delete k j ((i, w) ∷ m) =
      ground (arith, e.same_iff k j, e.same_iff i k, e.same_iff i j, lookup-delete k j m)

  pub length-insert :
      (k : K) (v : V) (m : Dict K V)
      → length (insert k v m) ≡ (if is_some (lookup k m) then length m else suc (length m))
  unfolding lookup insert
  length-insert k v [] = refl
  length-insert k v ((i, w) ∷ m) = ground (arith, length-insert k v m)

  -- No key stands twice.
  abbrev pub Distinct : Dict K V → Type (ℓ ⊔ κ)
  Distinct [] = Unit
  Distinct ((j, v) ∷ m) = (lookup j m ≡ none) × Distinct m

  pub lookup-insert_self : (k : K) (v : V) (m : Dict K V) → lookup k (insert k v m) ≡ some v
  lookup-insert_self k v m = ground (arith, lookup-insert k k v m, e.same_iff k k)

  pub insert-Distinct : (k : K) (v : V) (m : Dict K V) → Distinct m → Distinct (insert k v m)
  unfolding lookup insert
  insert-Distinct k v [] d = ground arith
  insert-Distinct k v ((j, w) ∷ m) d =
      ground
        (arith, e.same_iff j k, e.same_iff k j, lookup-insert k j v m, insert-Distinct k v m d.1)

  pub delete-Distinct : (k : K) (m : Dict K V) → Distinct m → Distinct (delete k m)
  unfolding delete
  delete-Distinct k [] d = ground arith
  delete-Distinct k ((j, w) ∷ m) d = ground (arith, lookup-delete k j m, delete-Distinct k m d.1)

  pub delete_absent : (k : K) (m : Dict K V) → lookup k m ≡ none → delete k m ≡ m
  unfolding lookup delete
  delete_absent k [] h = refl
  delete_absent k ((j, w) ∷ m) h = ground (arith, delete_absent k m)

  pub length-delete :
      (k : K) (m : Dict K V)
      → Distinct m
      → length m ≡ (if is_some (lookup k m) then suc (length (delete k m)) else length (delete k m))
  unfolding lookup delete
  length-delete k [] d = refl
  length-delete k ((j, w) ∷ m) d =
      ground (arith, e.same_iff j k, length-delete k m d.1, delete_absent k m)
