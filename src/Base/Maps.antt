-- ===== src/Base/Maps.antt =====
-- Go's `map[string]V` as a list of entries with distinct keys: a write replaces the entry of its
-- key, `delete` drops it, `len` is the length, and the order of the list is the order of `range`.
use Prim.Native.Nat.{◌+◌, ◌≤◌}
use Prim.Native.String.{String}
use mathlib.Core.Path.{◌≡◌, refl}
use mathlib.Core.Option.{Option, none, some}
use mathlib.Core.List.{List, [], ◌∷◌}
use native.Mathlib.Omega.{arith}
use text.Mathlib.Text.{◌==◌ as str_eq}
use text.Mathlib.TextEquality.{eq_iff}
use kobra_game.Base.Tests.{if◌then◌else◌}
use kobra_game.Base.Lists.{length}

abbrev pub Dict {ℓ} : Type ℓ → Type ℓ
Dict V = List (String × V)

module _ {ℓ} {V : Type ℓ} where
  unfoldable pub lookup : String → Dict V → Option V
  lookup k [] = none
  lookup k ((key, v) ∷ entries) = if str_eq key k then some v else lookup k entries

  unfoldable pub insert : String → V → Dict V → Dict V
  insert k v [] = (k, v) ∷ []
  insert k v ((key, old) ∷ entries) =
      if str_eq key k then (k, v) ∷ entries else (key, old) ∷ insert k v entries

  unfoldable pub delete : String → Dict V → Dict V
  delete k [] = []
  delete k ((key, v) ∷ entries) =
      if str_eq key k then delete k entries else (key, v) ∷ delete k entries

  pub lookup-insert :
      (k key : String) (v : V) (entries : Dict V)
      → lookup key (insert k v entries) ≡ (if str_eq k key then some v else lookup key entries)
  unfolding lookup insert
  lookup-insert k key v [] = refl
  lookup-insert k key v ((other, old) ∷ entries) =
      ground (arith, eq_iff k key, eq_iff other k, eq_iff other key, lookup-insert k key v entries)

  pub lookup-delete :
      (k key : String) (entries : Dict V)
      → lookup key (delete k entries) ≡ (if str_eq k key then none else lookup key entries)
  unfolding lookup delete
  lookup-delete k key [] = ground arith
  lookup-delete k key ((other, old) ∷ entries) =
      ground (arith, eq_iff k key, eq_iff other k, eq_iff other key, lookup-delete k key entries)

  pub length-insert :
      (k : String) (v : V) (entries : Dict V) → length (insert k v entries) ≤ length entries + 1
  unfolding insert
  length-insert k v [] = omega arith
  length-insert k v ((key, old) ∷ entries) = ground (arith, length-insert k v entries)

  pub length-delete : (k : String) (entries : Dict V) → length (delete k entries) ≤ length entries
  unfolding delete
  length-delete k [] = omega arith
  length-delete k ((key, old) ∷ entries) = ground (arith, length-delete k entries)

-- No key is bound twice, as in every Go map.
abbrev pub Distinct {ℓ} : {V : Type ℓ} → Dict V → Type ℓ
Distinct [] = Unit
Distinct ((k, v) ∷ m) = (lookup k m ≡ none) × Distinct m

module _ {ℓ} {V : Type ℓ} where
  pub insert-Distinct : (k : String) (v : V) (m : Dict V) → Distinct m → Distinct (insert k v m)
  unfolding insert lookup
  insert-Distinct k v [] h = (refl, tt)
  insert-Distinct k v ((j, w) ∷ m) h =
      ground (arith, insert-Distinct k v m, lookup-insert k j v m, eq_iff j k, eq_iff k j)

  pub delete-Distinct : (k : String) (m : Dict V) → Distinct m → Distinct (delete k m)
  unfolding delete lookup
  delete-Distinct k [] h = tt
  delete-Distinct k ((j, w) ∷ m) h =
      ground (arith, delete-Distinct k m, lookup-delete k j m, eq_iff j k, eq_iff k j)
