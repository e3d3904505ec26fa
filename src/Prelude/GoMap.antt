-- ===== src/Prelude/GoMap.antt =====
-- Go's `map[string]V` as an association list with one entry to a key, in the order in which a
-- `range` loop meets the entries. Go leaves that order open, and the theorems hold for each list.
use ton_indexer.Prelude.Tests.{if◌then◌else◌, Bool-cases}
use Prim.Native.String.{String}
use mathlib.Core.Path.{◌≡◌, refl}
use mathlib.Core.Logic.{inl, inr}
use mathlib.Core.Option.{Option, none, some}
use mathlib.Core.List.{List, [], ◌∷◌}
use native.Mathlib.Omega.{arith}
use text.Mathlib.Text.{◌==◌}
use text.Mathlib.TextEquality.{eq_iff}

abbrev pub GoMap {ℓ} : Type ℓ → Type ℓ
GoMap V = List (String × V)

module _ {ℓ} {V : Type ℓ} where
  -- v, ok := m[key]
  unfoldable pub lookup : String → GoMap V → Option V
  lookup key [] = none
  lookup key ((name, value) ∷ m) = if name == key then some value else lookup key m

  -- m[key] = value
  unfoldable pub insert : String → V → GoMap V → GoMap V
  insert key value [] = (key, value) ∷ []
  insert key value ((name, old) ∷ m) =
      let rest = insert key value m in if name == key then (name, value) ∷ m else (name, old) ∷ rest

  -- delete(m, key)
  unfoldable pub delete : String → GoMap V → GoMap V
  delete key [] = []
  delete key ((name, value) ∷ m) =
      let rest = delete key m in if name == key then rest else (name, value) ∷ rest

  pub lookup-insert :
      (key other : String) (value : V) (m : GoMap V)
      → lookup other (insert key value m) ≡ (if key == other then some value else lookup other m)
  unfolding insert lookup
  lookup-insert key other value [] = ground arith
  lookup-insert key other value ((name, old) ∷ m) =
      ground (
        arith,
        lookup-insert key other value m,
        eq_iff name key,
        eq_iff key other,
        eq_iff name other,
      )

  pub lookup-insert-same :
      (key : String) (value : V) (m : GoMap V) → lookup key (insert key value m) ≡ some value
  lookup-insert-same key value m = ground (arith, lookup-insert key key value m, eq_iff key key)

  pub lookup-delete :
      (key other : String) (m : GoMap V)
      → lookup other (delete key m) ≡ (if key == other then none else lookup other m)
  unfolding delete lookup
  lookup-delete key other [] = ground arith
  lookup-delete key other ((name, value) ∷ m) =
      ground
        (arith, lookup-delete key other m, eq_iff name key, eq_iff key other, eq_iff name other)

-- One entry to a key.
abbrev pub IsUnique {ℓ} : {V : Type ℓ} → GoMap V → Type ℓ
IsUnique [] = Unit
IsUnique ((k, v) ∷ m) = (lookup k m ≡ none) × IsUnique m

module _ {ℓ} {V : Type ℓ} where
  pub insert-IsUnique : (k : String) (v : V) (m : GoMap V) → IsUnique m → IsUnique (insert k v m)
  unfolding insert lookup
  insert-IsUnique k v [] u = (refl, tt)
  insert-IsUnique k v ((j, w) ∷ m) u = elim (Bool-cases (j == k)) [
    | inl e ↦ rw e (ground (arith, eq_iff j k), u.1)
    | inr e ↦
        rw e
          (ground (arith, lookup-insert k j v m, eq_iff j k, eq_iff k j), insert-IsUnique k v m u.1)
  ]

  pub delete-IsUnique : (k : String) (m : GoMap V) → IsUnique m → IsUnique (delete k m)
  unfolding delete
  delete-IsUnique k [] u = tt
  delete-IsUnique k ((j, w) ∷ m) u = elim (Bool-cases (j == k)) [
    | inl e ↦ rw e (delete-IsUnique k m u.1)
    | inr e ↦ rw e (ground (arith, lookup-delete k j m), delete-IsUnique k m u.1)
  ]
