-- ===== src/Json.antt =====
-- JSON values as the protocol builds them: Python's None, bool, int, str, list and dict. Floats
-- are left out: the protocol's own bodies hold none.
use tarmac.Prelude.{ℕ, String, Option, none, some, List, [], ◌∷◌, Bool, if◌then◌else◌}
use tarmac.Prelude.Int.{ℤ, pos}
use tarmac.Prelude.Text.{◌==◌, text_discrete}

mutual
  pub data Json : Type 0 where
    null : Json
    bool : Bool → Json
    int : ℤ → Json
    str : String → Json
    arr : Items → Json
    obj : Fields → Json

  pub data Items : Type 0 where
    nil : Items
    cons : Json → Items → Items

  pub data Fields : Type 0 where
    end : Fields
    field : String → Json → Fields → Fields

-- A dict literal.
abbrev pub dict : List (String × Json) → Json
dict entries = obj (fields entries)
  where
    fields : List (String × Json) → Fields
    fields [] = end
    fields ((k, v) ∷ rest) = field k v (fields rest)

abbrev pub number : ℕ → Json
number n = int (pos n)

abbrev pub text_items : List String → Items
text_items [] = nil
text_items (s ∷ rest) = cons (str s) (text_items rest)

-- A list of strings.
abbrev pub texts : List String → Json
texts ss = arr (text_items ss)

abbrev pub optional {ℓ} : {A : Type ℓ} → (A → Json) → Option A → Json
optional f none = null
optional f (some a) = f a

find_field : String → Fields → Option Json
unfolding text_discrete
find_field k end = none
find_field k (field j v rest) = if j == k then some v else find_field k rest

-- body.get(key); `none` where the key is missing or the value is no dict.
unfoldable pub get : String → Json → Option Json
unfolding find_field
get k (obj fs) = find_field k fs
get k _ = none

unfoldable pub as_text : Json → Option String
as_text (str s) = some s
as_text _ = none

unfoldable pub as_number : Json → Option ℕ
as_number (int (pos n)) = some n
as_number _ = none
