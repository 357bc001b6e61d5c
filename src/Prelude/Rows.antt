-- ===== src/Prelude/Rows.antt =====
-- Counting, finding and deleting the rows of a table.
use Prim.Native.Nat.{ℕ, ◌+◌, ◌≤◌, ◌<◌}
use mathlib.Core.Path.{◌≡◌, refl}
use mathlib.Core.Bool.{Bool, true, false}
use mathlib.Core.Option.{none, some}
use mathlib.Core.List.{List, [], ◌∷◌, ◌++◌}
use native.Mathlib.Omega.{arith}
use tarmac.Prelude.Tests.{if◌then◌else◌}
use tarmac.Prelude.Lists.{filterb, countb, findb, updateb}

module _ {ℓ} {A : Type ℓ} where
  pub countb-filterb-le : (p q : A → Bool) (xs : List A) → countb p (filterb q xs) ≤ countb p xs
  countb-filterb-le p q [] = omega arith
  countb-filterb-le p q (x ∷ xs) = ground (arith, countb-filterb-le p q xs)

  pub findb-append_none :
      (p : A → Bool) (xs ys : List A) → findb p xs ≡ none → findb p (xs ++ ys) ≡ findb p ys
  findb-append_none p [] ys h = refl
  findb-append_none p (x ∷ xs) ys h = ground (arith, findb-append_none p xs ys)

  pub findb-append_some :
      (p : A → Bool) (xs ys : List A) (x : A) → findb p xs ≡ some x → findb p (xs ++ ys) ≡ some x
  findb-append_some p [] ys x h = cc
  findb-append_some p (y ∷ xs) ys x h = ground (arith, findb-append_some p xs ys x)

  pub countb_of_none : (p : A → Bool) (xs : List A) → findb p xs ≡ none → countb p xs ≡ 0
  countb_of_none p [] h = refl
  countb_of_none p (x ∷ xs) h = ground (arith, countb_of_none p xs)

  pub countb_of_some : (p : A → Bool) (xs : List A) (x : A) → findb p xs ≡ some x → 0 < countb p xs
  countb_of_some p [] x h = cc
  countb_of_some p (y ∷ xs) x h = ground (arith, countb_of_some p xs x)

  pub findb_holds : (p : A → Bool) (xs : List A) (x : A) → findb p xs ≡ some x → p x ≡ true
  findb_holds p [] x h = cc
  findb_holds p (y ∷ xs) x h = ground (arith, findb_holds p xs x)

  -- SUM of a column.
  abbrev pub sumb : (A → ℕ) → List A → ℕ
  sumb f [] = 0
  sumb f (x ∷ xs) = f x + sumb f xs

  pub sumb-append : (f : A → ℕ) (xs ys : List A) → sumb f (xs ++ ys) ≡ sumb f xs + sumb f ys
  sumb-append f [] ys = omega arith
  sumb-append f (x ∷ xs) ys = omega (arith, sumb-append f xs ys)

  updateb_of_zero : (p : A → Bool) (g : A → A) (xs : List A) → countb p xs ≡ 0 → updateb p g xs ≡ xs
  updateb_of_zero p g [] h = refl
  updateb_of_zero p g (x ∷ xs) h = ground (arith, updateb_of_zero p g xs)

  -- An update of the one row that passes a test changes a sum by that row.
  pub sumb-updateb :
      (f : A → ℕ) (p : A → Bool) (g : A → A) (xs : List A) (c : A)
      → findb p xs ≡ some c
      → countb p xs ≤ 1
      → sumb f (updateb p g xs) + f c ≡ sumb f xs + f (g c)
  sumb-updateb f p g [] c found once = cc
  sumb-updateb f p g (x ∷ xs) c found once =
      ground (arith, sumb-updateb f p g xs c, updateb_of_zero p g xs)

  -- A count that the update does not touch.
  pub countb-updateb :
      (q p : A → Bool) (g : A → A) (xs : List A)
      → ((x : A) → q (g x) ≡ q x)
      → countb q (updateb p g xs) ≡ countb q xs
  countb-updateb q p g [] same = refl
  countb-updateb q p g (x ∷ xs) same = ground (arith, same x, countb-updateb q p g xs same)

  -- Every row satisfies a predicate.
  abbrev pub AllRows {κ} : (A → Type κ) → List A → Type κ
  AllRows P [] = Unit
  AllRows P (x ∷ xs) = P x × AllRows P xs

module _ {ℓ κ} {A : Type ℓ} where
  pub AllRows-append :
      (P : A → Type κ) (xs ys : List A) → AllRows P xs → AllRows P ys → AllRows P (xs ++ ys)
  AllRows-append P [] ys h k = k
  AllRows-append P (x ∷ xs) ys h k = (h.0, AllRows-append P xs ys h.1 k)

  pub AllRows-filterb :
      (P : A → Type κ) (q : A → Bool) (xs : List A) → AllRows P xs → AllRows P (filterb q xs)
  AllRows-filterb P q [] h = tt
  AllRows-filterb P q (x ∷ xs) h = by_test (q x) (AllRows-filterb P q xs h.1)
    where
      by_test :
          (b : Bool)
          → AllRows P (filterb q xs)
          → AllRows P (if b then x ∷ filterb q xs else filterb q xs)
      by_test true rest = (h.0, rest)
      by_test false rest = rest

  pub AllRows-mono :
      {P Q : A → Type κ} (f : (x : A) → P x → Q x) (xs : List A) → AllRows P xs → AllRows Q xs
  AllRows-mono f [] h = tt
  AllRows-mono f (x ∷ xs) h = (f x h.0, AllRows-mono f xs h.1)
