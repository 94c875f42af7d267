-- ===== src/Prelude/Dict.antt =====
-- A Go map with string keys, as an association list that holds each key once.
use Prim.Native.String.{String}
use mathlib.Core.Path.{◌≡◌, refl}
use mathlib.Core.Option.{Option, none, some}
use mathlib.Core.List.{List, [], ◌∷◌}
use native.Mathlib.Omega.{arith}
use text.Mathlib.Text.{◌==◌}
use text.Mathlib.TextEquality.{eq_iff}
use text.Mathlib.TextPositions.{eq_refl}
use iroum_ax.Prelude.Tests.{if◌then◌else◌, Bool-cases}
use mathlib.Core.Logic.{inl, inr}

abbrev pub map_some {ℓ} : {V : Type ℓ} → (V → V) → Option V → Option V
map_some change none = none
map_some change (some old) = some (change old)

module _ {ℓ} {V : Type ℓ} where
  -- `v, ok := m[key]`.
  unfoldable pub lookup : String → List (String × V) → Option V
  lookup key [] = none
  lookup key ((name, value) ∷ rest) = if name == key then some value else lookup key rest

  -- `m[key] = value`.
  unfoldable pub insert : String → V → List (String × V) → List (String × V)
  insert key value [] = (key, value) ∷ []
  insert key value ((name, old) ∷ rest) =
      if name == key then (key, value) ∷ rest else (name, old) ∷ insert key value rest

  -- `if p, ok := m[key]; ok { change *p }`.
  unfoldable pub adjust : String → (V → V) → List (String × V) → List (String × V)
  adjust key change [] = []
  adjust key change ((name, old) ∷ rest) =
      if name == key then (name, change old) ∷ rest else (name, old) ∷ adjust key change rest

  pub lookup-insert :
      (key other : String) (value : V) (entries : List (String × V))
      → lookup other (insert key value entries)
        ≡ (if key == other then some value else lookup other entries)
  unfolding lookup insert
  lookup-insert key other value [] = refl
  lookup-insert key other value ((name, old) ∷ rest) = ground (
    arith,
    lookup-insert key other value rest,
    eq_iff key other,
    eq_iff name key,
    eq_iff name other,
  )

  pub lookup-insert_self :
      (key : String) (value : V) (entries : List (String × V))
      → lookup key (insert key value entries) ≡ some value
  lookup-insert_self key value entries = simp (lookup-insert, eq_refl)

  pub lookup-adjust :
      (key other : String) (change : V → V) (entries : List (String × V))
      → lookup other (adjust key change entries)
        ≡ (if key == other then map_some change (lookup other entries) else lookup other entries)
  unfolding lookup adjust
  lookup-adjust key other change [] = ground arith
  lookup-adjust key other change ((name, old) ∷ rest) = ground (
    arith,
    lookup-adjust key other change rest,
    eq_iff key other,
    eq_iff name key,
    eq_iff name other,
  )

  pub lookup-adjust_self :
      (key : String) (change : V → V) (entries : List (String × V))
      → lookup key (adjust key change entries) ≡ map_some change (lookup key entries)
  lookup-adjust_self key change entries = simp (lookup-adjust, eq_refl)

  pub adjust-adjust :
      (key : String) (first second : V → V) (entries : List (String × V))
      → adjust key second (adjust key first entries) ≡ adjust key (λ v. second (first v)) entries
  unfolding adjust
  adjust-adjust key first second [] = refl
  adjust-adjust key first second ((name, old) ∷ rest) = elim (Bool-cases (name == key)) [
    | inl same ↦ rw (same, adjust) (rw (same, adjust))
    | inr other ↦ rw (other, adjust) (rw (other, adjust) (rw (adjust-adjust key first second rest)))
  ]
