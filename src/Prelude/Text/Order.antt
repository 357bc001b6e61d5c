-- ===== src/Prelude/Text/Order.antt =====
-- The order of texts by code points: Python's, and that of SQLite's BINARY collation.
use Prim.Native.String.{String, compare}
use mathlib.Core.Bool.{Bool}
use mathlib.Core.List.{List, [], ◌∷◌}
use text.Mathlib.Text.{is_le}
use tarmac.Prelude.Tests.{if◌then◌else◌}

abbrev pub text_leb : String → String → Bool
text_leb s t = is_le (compare s t)

module _ {ℓ} {A : Type ℓ} (le : A → A → Bool) where
  unfoldable pub insert_by : A → List A → List A
  insert_by x [] = x ∷ []
  insert_by x (y ∷ ys) = if le x y then x ∷ y ∷ ys else y ∷ insert_by x ys

  -- A stable sort: an element goes before the first that it does not exceed.
  unfoldable pub sort_by : List A → List A
  unfolding insert_by
  sort_by [] = []
  sort_by (x ∷ xs) = insert_by x (sort_by xs)

-- sorted(texts)
unfoldable pub sorted : List String → List String
unfolding sort_by
sorted = sort_by text_leb
