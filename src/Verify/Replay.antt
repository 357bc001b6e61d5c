-- ===== src/Verify/Replay.antt =====
-- Reading events, and replay_manifest: the allocations rebuilt from the alloc and dealloc events.
-- A field that is missing is a KeyError. A value of a type that no event of the protocol has in
-- that field is a TypeError here, where Python may go on with it.
pub mod Lookup
pub mod Meaning
use tarmac.Prelude.{
  ℕ, String, Bool, true, false, not, ◌&&◌, Option, none, some, List, [], ◌∷◌, ◌++◌, map, filterb,
  is_empty, if◌then◌else◌,
}
use tarmac.Prelude.Int.{ℤ}
use tarmac.Prelude.Text.{◌==◌, member, sorted}
use tarmac.Json.{Json, str, int, get}
use tarmac.Storage.{Exec, Result, ok, err, key_error, type_error, pure, lift, modify, ◌>>=◌, ◌>>◌}
use tarmac.ChainLog.{LogEntry}

-- body[key]
unfoldable pub item : String → Json → Result Json
item k body = elim (get k body) [ none ↦ err key_error | some v ↦ ok v ]

unfoldable pub int_value : Json → Result ℤ
int_value (int n) = ok n
int_value _ = err type_error

-- A field that is looked up and read as a text.
unfoldable pub read_text : Option Json → Result String
read_text none = err key_error
read_text (some (str s)) = ok s
read_text (some _) = err type_error

unfoldable pub text_item : {S : Type 0} → String → Json → Exec S String
text_item k body = lift (read_text (get k body))

-- dict[str, set[str]], in the order of insertion.
abbrev pub Held : Type 0
Held = List (String × List String)

abbrev pub add_to_set : String → List String → List String
add_to_set b bs = if member b bs then bs else bs ++ b ∷ []

-- held.setdefault(resource, set()).add(beneficiary)
unfoldable pub add_held : String → String → Held → Held
add_held r b [] = (r, b ∷ []) ∷ []
add_held r b ((s, bs) ∷ rest) =
    if s == r then (s, add_to_set b bs) ∷ rest else (s, bs) ∷ add_held r b rest

-- held.get(resource, set()).discard(beneficiary)
unfoldable pub discard_held : String → String → Held → Held
discard_held r b [] = []
discard_held r b ((s, bs) ∷ rest) =
    if s == r then (s, filterb (λ x. not (x == b)) bs) ∷ rest else (s, bs) ∷ discard_held r b rest

-- The change that an event of either kind makes.
unfoldable pub replay_change : (String → String → Held → Held) → Json → Exec Held Unit
replay_change change body = do
  r ← text_item "resource" body
  b ← text_item "beneficiary" body
  modify (change r b)

unfoldable pub replay_entry : LogEntry → Exec Held Unit
replay_entry e =
    if e.kind == "alloc"
    then replay_change add_held e.body
    else if e.kind == "dealloc"
    then replay_change discard_held e.body
    else pure tt

unfoldable pub replay_entries : List LogEntry → Exec Held Unit
replay_entries [] = pure tt
replay_entries (e ∷ es) = replay_entry e >> replay_entries es

-- {res: sorted(bens) for res, bens in held.items() if bens}
unfoldable pub sorted_held : Held → List (String × List String)
sorted_held held =
    map (λ entry. (entry.0, sorted entry.1)) (filterb (λ entry. not (is_empty entry.1)) held)

unfoldable pub replay_manifest : List LogEntry → Result (List (String × List String))
replay_manifest entries =
    let (r, held) = replay_entries entries [] in
    elim r [ ok _ ↦ ok (sorted_held held) | err e ↦ err e ]
