-- ===== src/Prelude/Dict.antt =====
-- A dict with texts for keys, as a list of pairs in the order of insertion.
use mathlib.Core.Bool.{Bool, true, false}
use mathlib.Core.Option.{Option, none, some}
use mathlib.Core.List.{List, [], ◌∷◌, ◌++◌}
use Prim.Native.String.{String}
use mathlib.Core.Path.{◌≡◌, refl}
use mathlib.Core.Logic.{inl, inr}
use native.Mathlib.Omega.{arith}
use tarmac.Prelude.Tests.{if◌then◌else◌, Bool-cases}
use tarmac.Prelude.Text.{◌==◌}

module _ {ℓ} {V : Type ℓ} where
  -- d.get(k)
  abbrev pub at_key : String → List (String × V) → Option V
  at_key k [] = none
  at_key k ((j, v) ∷ rest) = if j == k then some v else at_key k rest

  abbrev pub has_key : String → List (String × V) → Bool
  has_key k [] = false
  has_key k ((j, v) ∷ rest) = if j == k then true else has_key k rest

  -- d.get(k, default)
  abbrev pub at_key_or : V → String → List (String × V) → V
  at_key_or d k rows = elim (at_key k rows) [ none ↦ d | some v ↦ v ]

  -- d[k] = v
  abbrev pub put_key : String → V → List (String × V) → List (String × V)
  put_key k v [] = (k, v) ∷ []
  put_key k v ((j, w) ∷ rest) = if j == k then (j, v) ∷ rest else (j, w) ∷ put_key k v rest

  -- d.setdefault(k, v)
  abbrev pub set_default : String → V → List (String × V) → List (String × V)
  set_default k v rows = if has_key k rows then rows else rows ++ (k, v) ∷ []

  pub at_key-put_key :
      (k j : String) (v : V) (rows : List (String × V))
      → at_key k (put_key j v rows) ≡ (if j == k then some v else at_key k rows)
  at_key-put_key k j v [] = refl
  at_key-put_key k j v ((i, w) ∷ rows) = elim (Bool-cases (i == j)) [
    | inl same ↦ ground (arith, same)
    | inr other ↦ ground (arith, other, at_key-put_key k j v rows)
  ]
