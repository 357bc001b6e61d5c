-- ===== src/Prelude/Sorting.antt =====
-- What sorting a list leaves as it is.
use mathlib.Core.Bool.{Bool}
use mathlib.Core.List.{List, [], ◌∷◌}
use mathlib.Core.Logic.{inl, inr}
use tarmac.Prelude.Tests.{Bool-cases}
use Prim.Native.Nat.{ℕ, ◌+◌}
use native.Mathlib.Omega.{arith}
use mathlib.Core.Path.{◌≡◌, refl}
use tarmac.Prelude.Lists.{countb}
use tarmac.Prelude.Rows.{AllRows, sumb}
use tarmac.Prelude.Text.{sort_by, insert_by}

-- Sorting keeps what holds of all, and who is there.
module _ {A : Type 0} (le : A → A → Bool) where
  pub AllRows-insert_by :
      (P : A → Type 0) (x : A) (xs : List A) → P x → AllRows P xs → AllRows P (insert_by le x xs)
  unfolding insert_by
  AllRows-insert_by P x [] h k = (h, tt)
  AllRows-insert_by P x (y ∷ ys) h (first, rest) = elim (Bool-cases (le x y)) [
    | inl before ↦ rw before (h, (first, rest))
    | inr after ↦ rw after (first, AllRows-insert_by P x ys h rest)
  ]

  inserted_all :
      (P : A → Type 0) (x : A) (xs : List A) → AllRows P (insert_by le x xs) → P x × AllRows P xs
  unfolding insert_by
  inserted_all P x [] h = h
  inserted_all P x (y ∷ ys) h = elim (Bool-cases (le x y)) [
    | inl before ↦ rw before at h
    | inr after ↦
        let (first, rest) : P y × AllRows P (insert_by le x ys) = rw after at h in
        let (here, later) = inserted_all P x ys rest in (here, (first, later))
  ]

  pub AllRows-sort_by : (P : A → Type 0) (xs : List A) → AllRows P xs → AllRows P (sort_by le xs)
  unfolding sort_by
  AllRows-sort_by P [] h = tt
  AllRows-sort_by P (x ∷ xs) (first, rest) =
      AllRows-insert_by P x (sort_by le xs) first (AllRows-sort_by P xs rest)

  pub sorted_all : (P : A → Type 0) (xs : List A) → AllRows P (sort_by le xs) → AllRows P xs
  unfolding sort_by
  sorted_all P [] h = tt
  sorted_all P (x ∷ xs) h =
      let (first, rest) = inserted_all P x (sort_by le xs) h in (first, sorted_all P xs rest)

  sumb-insert_by : (f : A → ℕ) (x : A) (xs : List A) → sumb f (insert_by le x xs) ≡ f x + sumb f xs
  unfolding insert_by
  sumb-insert_by f x [] = refl
  sumb-insert_by f x (y ∷ ys) = ground (arith, sumb-insert_by f x ys)

  pub sumb-sort_by : (f : A → ℕ) (xs : List A) → sumb f (sort_by le xs) ≡ sumb f xs
  unfolding sort_by
  sumb-sort_by f [] = refl
  sumb-sort_by f (x ∷ xs) = omega (arith, sumb-insert_by f x (sort_by le xs), sumb-sort_by f xs)

  countb-insert_by :
      (p : A → Bool) (x : A) (xs : List A) → countb p (insert_by le x xs) ≡ countb p (x ∷ xs)
  unfolding insert_by
  countb-insert_by p x [] = refl
  countb-insert_by p x (y ∷ ys) = ground (arith, countb-insert_by p x ys)

  pub countb-sort_by : (p : A → Bool) (xs : List A) → countb p (sort_by le xs) ≡ countb p xs
  unfolding sort_by
  countb-sort_by p [] = refl
  countb-sort_by p (x ∷ xs) =
      ground (arith, countb-insert_by p x (sort_by le xs), countb-sort_by p xs)
