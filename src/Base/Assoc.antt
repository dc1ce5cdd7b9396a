-- ===== src/Base/Assoc.antt =====
-- Go's `map[string]V` as an association list. The order of the entries is the order of a `range`, which
-- Go leaves open.
use mathlib.Core.Path.{◌≡◌, refl}
use mathlib.Core.Option.{Option, none, some}
use mathlib.Core.List.{List, [], ◌∷◌}
use Prim.Native.String.{String}
use native.Mathlib.Omega.{arith}
use text.Mathlib.Text.{◌==◌ as str_eq}
use text.Mathlib.TextEquality.{eq_iff}
use yi_api_proxy.Base.Tests.{if◌then◌else◌}

abbrev pub Assoc {ℓ} : Type ℓ → Type ℓ
Assoc Value = List (String × Value)

module _ {ℓ} {Value : Type ℓ} where
  -- entries[key]
  unfoldable pub lookup : String → Assoc Value → Option Value
  lookup key [] = none
  lookup key ((other, value) ∷ entries) =
      if str_eq other key then some value else lookup key entries

  -- entries[key] = value
  unfoldable pub insert : String → Value → Assoc Value → Assoc Value
  insert key value [] = (key, value) ∷ []
  insert key value ((other, held) ∷ entries) =
      let tail = insert key value entries in
      if str_eq other key then (key, value) ∷ entries else (other, held) ∷ tail

  -- delete(entries, key)
  unfoldable pub remove : String → Assoc Value → Assoc Value
  remove key [] = []
  remove key ((other, value) ∷ entries) =
      let tail = remove key entries in if str_eq other key then tail else (other, value) ∷ tail

  -- The values in the order of a `range`.
  unfoldable pub values : Assoc Value → List Value
  values [] = []
  values ((key, value) ∷ entries) = value ∷ values entries

  pub lookup-insert :
      (key other : String) (value : Value) (entries : Assoc Value)
      → lookup other (insert key value entries)
        ≡ (if str_eq key other then some value else lookup other entries)
  unfolding lookup insert
  lookup-insert key other value [] = refl
  lookup-insert key other value ((name, held) ∷ entries) = ground (
    arith,
    eq_iff key other,
    eq_iff name key,
    eq_iff name other,
    lookup-insert key other value entries,
  )

  pub lookup-remove :
      (key other : String) (entries : Assoc Value)
      → lookup other (remove key entries)
        ≡ (if str_eq key other then none else lookup other entries)
  unfolding lookup remove
  lookup-remove key other [] = ground arith
  lookup-remove key other ((name, held) ∷ entries) =
      ground (
        arith,
        eq_iff key other,
        eq_iff name key,
        eq_iff name other,
        lookup-remove key other entries,
      )

  -- No key stands twice, as in a map.
  abbrev pub Unique : Assoc Value → Type ℓ
  Unique [] = Unit
  Unique ((key, value) ∷ entries) = (lookup key entries ≡ none) × Unique entries

  pub insert-Unique :
      (key : String) (value : Value) (entries : Assoc Value)
      → Unique entries
      → Unique (insert key value entries)
  unfolding lookup insert
  insert-Unique key value [] u = (refl, tt)
  insert-Unique key value ((other, held) ∷ entries) u = ground (
    arith,
    eq_iff other key,
    eq_iff key other,
    lookup-insert key other value entries,
    insert-Unique key value entries u.1,
  )
