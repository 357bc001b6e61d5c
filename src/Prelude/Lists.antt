-- ===== src/Prelude/Lists.antt =====
-- Lists measured by native numbers.
use Prim.Native.Nat.{ℕ, zero, suc, ◌+◌, ◌<◌}
use mathlib.Core.Path.{◌≡◌, refl}
use mathlib.Core.Bool.{Bool, true, false}
use mathlib.Core.List.{List, [], ◌∷◌, ◌++◌}
use mathlib.Core.Option.{Option, none, some}
use native.Mathlib.Omega.{arith}
use tarmac.Prelude.Tests.{if◌then◌else◌}

module _ {ℓ} {A : Type ℓ} where
  abbrev pub length : List A → ℕ
  length [] = 0
  length (x ∷ xs) = suc (length xs)

  -- xs[n:] and xs[:n]
  abbrev pub drop : ℕ → List A → List A
  drop zero xs = xs
  drop (suc n) [] = []
  drop (suc n) (x ∷ xs) = drop n xs

  abbrev pub take : ℕ → List A → List A
  take zero xs = []
  take (suc n) [] = []
  take (suc n) (x ∷ xs) = x ∷ take n xs

  -- The rows that a Boolean test keeps, as a WHERE clause does.
  abbrev pub filterb : (A → Bool) → List A → List A
  filterb p [] = []
  filterb p (x ∷ xs) = let rest = filterb p xs in if p x then x ∷ rest else rest

  abbrev pub countb : (A → Bool) → List A → ℕ
  countb p [] = 0
  countb p (x ∷ xs) = let rest = countb p xs in if p x then suc rest else rest

  -- The first row that passes a test.
  abbrev pub findb : (A → Bool) → List A → Option A
  findb p [] = none
  findb p (x ∷ xs) = if p x then some x else findb p xs

  -- Every row that passes a test, changed by `f`, as an UPDATE does.
  abbrev pub updateb : (A → Bool) → (A → A) → List A → List A
  updateb p f [] = []
  updateb p f (x ∷ xs) = (if p x then f x else x) ∷ updateb p f xs

  abbrev pub is_empty : List A → Bool
  is_empty [] = true
  is_empty (x ∷ xs) = false

  pub length-append : (xs ys : List A) → length (xs ++ ys) ≡ length xs + length ys
  length-append [] ys = omega arith
  length-append (x ∷ xs) ys = omega (arith, length-append xs ys)

  pub countb-append :
      (p : A → Bool) (xs ys : List A) → countb p (xs ++ ys) ≡ countb p xs + countb p ys
  countb-append p [] ys = omega arith
  countb-append p (x ∷ xs) ys = ground (arith, countb-append p xs ys)

  pub append_inj :
      (xs xs' ys ys' : List A)
      → xs ++ ys ≡ xs' ++ ys'
      → length xs ≡ length xs'
      → (xs ≡ xs') × (ys ≡ ys')
  append_inj [] [] ys ys' e l = (refl, e)
  append_inj [] (x ∷ xs) ys ys' e l = absurd (omega arith)
  append_inj (x ∷ xs) [] ys ys' e l = absurd (omega arith)
  append_inj (x ∷ xs) (x' ∷ xs') ys ys' e l =
      let (same, rest) = append_inj xs xs' ys ys' (cc) (omega arith) in (cc, rest)

-- Every number of the list is below a bound.
abbrev pub AllBelow : ℕ → List ℕ → Type 0
AllBelow k [] = Unit
AllBelow k (x ∷ xs) = (x < k) × AllBelow k xs
