-- ===== src/Prelude/StringMap.antt =====
-- A Go `map[string]V` as an association list: a read, a write, `delete`, and the keys.
use Prim.Native.String.{String}
use text.Mathlib.Text.{◌==◌}
use text.Mathlib.TextEquality.{eq_iff}
use text.Mathlib.TextPositions.{eq_refl}
use mathlib.Core.Path.{◌≡◌, refl}
use mathlib.Core.Logic.{◌≢◌}
use mathlib.Core.Bool.{false}
use mathlib.Core.List.{List, [], ◌∷◌}
use mathlib.Core.Option.{Option, none, some}
use native.Mathlib.Omega.{arith}
use cloudbridge_client.Prelude.Tests.{if◌then◌else◌}

abbrev pub Map {ℓ} : Type ℓ → Type ℓ
Map V = List (String × V)

eq_false : (s t : String) → s ≢ t → (s == t) ≡ false
eq_false s t h = ground (arith, eq_iff s t)

module _ {ℓ} {V : Type ℓ} where
  -- Every entry with the key goes, so a lookup misses afterwards whatever the list was.
  unfoldable pub delete : String → Map V → Map V
  delete name [] = []
  delete name ((n, x) ∷ entries) =
      if n == name then delete name entries else (n, x) ∷ delete name entries

  unfoldable pub lookup : String → Map V → Option V
  lookup name [] = none
  lookup name ((n, x) ∷ entries) = if n == name then some x else lookup name entries

  pub lookup-delete :
      (gone name : String) (entries : Map V)
      → lookup name (delete gone entries) ≡ (if gone == name then none else lookup name entries)
  unfolding delete lookup
  lookup-delete gone name [] = ground arith
  lookup-delete gone name ((n, x) ∷ entries) =
      ground
        (arith, lookup-delete gone name entries, eq_iff gone name, eq_iff n name, eq_iff n gone)

  pub lookup-delete_self :
      (name : String) (entries : Map V) → lookup name (delete name entries) ≡ none
  lookup-delete_self name entries = simp (lookup-delete, eq_refl)

  unfoldable pub insert : String → V → Map V → Map V
  insert name y [] = (name, y) ∷ []
  insert name y ((n, x) ∷ entries) =
      if n == name then (name, y) ∷ entries else (n, x) ∷ insert name y entries

  pub lookup-insert :
      (set name : String) (y : V) (entries : Map V)
      → lookup name (insert set y entries) ≡ (if set == name then some y else lookup name entries)
  unfolding insert lookup
  lookup-insert set name y [] = refl
  lookup-insert set name y ((n, x) ∷ entries) =
      ground (arith, lookup-insert set name y entries, eq_iff set name, eq_iff n name, eq_iff n set)

  pub lookup-insert_self :
      (name : String) (y : V) (entries : Map V) → lookup name (insert name y entries) ≡ some y
  lookup-insert_self name y entries = simp (lookup-insert, eq_refl)
