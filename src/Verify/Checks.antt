-- ===== src/Verify/Checks.antt =====
-- The auditor's report and its checks. A check keeps the names of its offenders, from which the
-- source writes the detail text.
use tarmac.Prelude.{
  ℕ, String, Bool, true, false, ◌&&◌, Option, none, some, List, [], ◌∷◌, ◌++◌, map, filterb,
  is_empty, length, ltb, findb, if◌then◌else◌,
}
use tarmac.Prelude.Int.{ℤ, pos, negsuc}
use tarmac.Prelude.Text.{◌==◌, text_leb, sort_by}
use tarmac.Json.{Json, null, str, get}
use tarmac.Storage.{Exec, Result, ok, err, type_error, pure, lift, modify, ◌>>=◌, ◌>>◌}
use tarmac.ChainLog.{LogEntry}
use tarmac.Verify.Replay.{item, int_value, text_item}

pub record Check : Type 0 where
  pub name : String
  pub passed : Bool
  pub offenders : List String

pub record Report : Type 0 where
  pub ok : Bool
  pub checks : List Check
  pub manifest : List (String × List String)
  pub manifest_hash : String
  pub chain_length : ℕ

-- VerifyReport.add
unfoldable pub add : Check → Report → Report
add c report = record report {
  ok = if c.passed then report.ok else false;
  checks = report.checks ++ c ∷ [];
}

-- A check that passes when it has no offender.
abbrev pub none_of : String → List String → Check
none_of name offenders = record { name = name; passed = is_empty offenders; offenders = offenders }

-- What the resource events say: the capacity and the group of each id, the last event's.
pub record Terms : Type 0 where
  pub id : String
  pub capacity : ℤ
  pub group : Option String

unfoldable pub set_terms : Terms → List Terms → List Terms
set_terms t [] = t ∷ []
set_terms t (u ∷ us) = if u.id == t.id then t ∷ us else u ∷ set_terms t us

-- body.get("group")
unfoldable pub group_value : Option Json → Result (Option String)
group_value none = ok none
group_value (some null) = ok none
group_value (some (str g)) = ok (some g)
group_value (some _) = err type_error

unfoldable pub terms_entry : LogEntry → Exec (List Terms) Unit
terms_entry e =
    if e.kind == "resource"
    then (do
      id ← text_item "id" e.body
      capacity ← (lift (item "capacity" e.body) >>= λ v. lift (int_value v))
      group ← lift (group_value (get "group" e.body))
      modify (set_terms (record { id = id; capacity = capacity; group = group })))
    else pure tt

unfoldable pub terms_entries : List LogEntry → Exec (List Terms) Unit
terms_entries [] = pure tt
terms_entries (e ∷ es) = terms_entry e >> terms_entries es

abbrev pub terms_of : String → List Terms → Option Terms
terms_of r terms = findb (λ t. t.id == r) terms

-- len(bens) > capacity.get(res, 0)
abbrev pub exceeds : ℕ → Option Terms → Bool
exceeds n none = ltb 0 n
exceeds n (some t) = elim t.capacity [ pos c ↦ ltb c n | negsuc _ ↦ true ]

unfoldable pub over_capacity : List Terms → List (String × List String) → List String
over_capacity terms manifest =
    map (λ entry. entry.0)
      (filterb (λ entry. exceeds (length entry.1) (terms_of entry.0 terms)) manifest)

abbrev pub in_group : Option Terms → Option String
in_group none = none
in_group (some t) = t.group

-- The (group, beneficiary) pairs seen, and the beneficiaries that clash.
pub record Seen : Type 0 where
  pub pairs : List (String × String)
  pub clashes : List String

abbrev pub is_pair : String → String → String × String → Bool
is_pair g b p = (p.0 == g) && (p.1 == b)

unfoldable pub see : String → String → Seen → Seen
see g b s = elim (findb (is_pair g b) s.pairs) [
  | some _ ↦ record s { clashes = s.clashes ++ b ∷ [] }
  | none ↦ record s { pairs = s.pairs ++ (g, b) ∷ [] }
]

unfoldable pub see_all : Option String → List String → Seen → Seen
see_all none bs s = s
see_all (some g) [] s = s
see_all (some g) (b ∷ bs) s = see_all (some g) bs (see g b s)

unfoldable pub see_manifest : List Terms → List (String × List String) → Seen → Seen
see_manifest terms [] s = s
see_manifest terms ((r, bs) ∷ rest) s =
    see_manifest terms rest (see_all (in_group (terms_of r terms)) bs s)

unfoldable pub entry_leb : String × List String → String × List String → Bool
entry_leb (r, _) (s, _) = text_leb r s

unfoldable pub double_allocated : List Terms → List (String × List String) → List String
unfolding entry_leb
double_allocated terms manifest =
    (see_manifest terms (sort_by entry_leb manifest) (record { pairs = []; clashes = [] })).clashes
