-- ===== src/Shared/Maps.antt =====
-- Go's `map[int64]V` as an association list with one entry for each key.
use Prim.Native.Nat.{ℕ}
use mathlib.Core.Path.{◌≡◌, refl}
use mathlib.Core.Bool.{Bool, true, false, ◌||◌}
use mathlib.Core.Option.{Option, none, some}
use mathlib.Core.List.{List, [], ◌∷◌}
use native.Mathlib.Omega.{arith}
use algorea_backend.Shared.Tests.{◌==◌, if◌then◌else◌}

abbrev pub Map {ℓ} : Type ℓ → Type ℓ
Map V = List (ℕ × V)

-- `contains xs a`: is `a` one of `xs`?
unfoldable pub contains : List ℕ → ℕ → Bool
contains [] a = false
contains (x ∷ xs) a = x == a || contains xs a

-- What a later write makes of an earlier value.
abbrev pub overlay {ℓ} : {V : Type ℓ} → Option V → Option V → Option V
overlay none o = o
overlay (some v) o = some v

abbrev pub get_or {ℓ} : {V : Type ℓ} → Option V → V → V
get_or none d = d
get_or (some v) d = v

abbrev pub is_some {ℓ} : {V : Type ℓ} → Option V → Bool
is_some none = false
is_some (some v) = true

module _ {ℓ} {V : Type ℓ} where
  -- `delete(entries, key)`.
  unfoldable pub delete : ℕ → Map V → Map V
  delete key [] = []
  delete key ((found, old) ∷ entries) =
      let others = delete key entries in if found == key then others else (found, old) ∷ others

  -- `value, ok := entries[key]`.
  unfoldable pub lookup : ℕ → Map V → Option V
  lookup key [] = none
  lookup key ((found, value) ∷ entries) = if found == key then some value else lookup key entries

  -- `entries[key] = value`.
  unfoldable pub insert : ℕ → V → Map V → Map V
  insert key value [] = (key, value) ∷ []
  insert key value ((found, old) ∷ entries) =
      if found == key then (key, value) ∷ entries else (found, old) ∷ insert key value entries

  -- `for k := range m`.
  unfoldable pub keys : Map V → List ℕ
  keys [] = []
  keys ((k, v) ∷ m) = k ∷ keys m

  -- `m[k] = *v` if `v` is given.
  unfoldable pub insert_if : ℕ → Option V → Map V → Map V
  insert_if k none m = m
  insert_if k (some v) m = insert k v m

  -- A write is read back at its key, and nowhere else.
  pub lookup-insert :
      (key asked : ℕ) (value : V) (entries : Map V)
      → lookup asked (insert key value entries)
        ≡ (if key == asked then some value else lookup asked entries)
  unfolding insert lookup
  lookup-insert key asked value [] = refl
  lookup-insert key asked value (entry ∷ entries) =
      ground (arith, lookup-insert key asked value entries)

  pub lookup-delete :
      (k j : ℕ) (m : Map V) → lookup j (delete k m) ≡ (if k == j then none else lookup j m)
  unfolding lookup delete
  lookup-delete k j [] = ground arith
  lookup-delete k j ((i, w) ∷ m) = ground (arith, lookup-delete k j m)

  pub lookup-insert_if :
      (k j : ℕ) (o : Option V) (m : Map V)
      → lookup j (insert_if k o m) ≡ (if k == j then overlay o (lookup j m) else lookup j m)
  unfolding insert_if
  lookup-insert_if k j none m = ground arith
  lookup-insert_if k j (some v) m = lookup-insert k j v m

  pub contains-keys : (k : ℕ) (m : Map V) → contains (keys m) k ≡ is_some (lookup k m)
  unfolding keys contains lookup
  contains-keys k [] = refl
  contains-keys k ((j, v) ∷ m) = ground (arith, contains-keys k m)

  -- No key twice.
  abbrev pub Distinct : Map V → Type ℓ
  Distinct [] = Unit {ℓ}
  Distinct ((k, v) ∷ m) = (lookup k m ≡ none) × Distinct m

  pub insert-Distinct : (k : ℕ) (v : V) (m : Map V) → Distinct m → Distinct (insert k v m)
  unfolding lookup insert
  insert-Distinct k v [] d = (refl, tt)
  insert-Distinct k v ((j, w) ∷ m) d =
      ground (arith, insert-Distinct k v m d.1, lookup-insert k j v m)

  pub insert_if-Distinct :
      (k : ℕ) (o : Option V) (m : Map V) → Distinct m → Distinct (insert_if k o m)
  unfolding insert_if
  insert_if-Distinct k none m d = d
  insert_if-Distinct k (some v) m d = insert-Distinct k v m d

  pub delete-Distinct : (k : ℕ) (m : Map V) → Distinct m → Distinct (delete k m)
  unfolding lookup delete
  delete-Distinct k [] d = tt
  delete-Distinct k ((j, w) ∷ m) d = ground (arith, delete-Distinct k m d.1, lookup-delete k j m)
