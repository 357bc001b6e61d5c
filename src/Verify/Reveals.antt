-- ===== src/Verify/Reveals.antt =====
-- The checks of the rulings' citations and of the sealed bids' reveals.
use tarmac.Prelude.{
  String, Bool, true, false, not, ◌||◌, Option, none, some, List, [], ◌∷◌, ◌++◌, findb,
  if◌then◌else◌,
}
use tarmac.Prelude.Text.{all_blank, ◌==◌, codes, concat, show_ℕ}
use tarmac.Json.{Json, Items, str, arr, obj, nil, cons, get}
use tarmac.Commitment.{commitment_digest}
use tarmac.Storage.{Exec, Result, ok, err, type_error, pure, raise_if, lift, modify, ◌>>=◌, ◌>>◌}
use tarmac.ChainLog.{LogEntry}
use tarmac.Verify.Replay.{item, read_text, text_item}

-- bool(str(c).strip()); the text of a value that is no string is never blank.
unfoldable pub cites : Json → Bool
cites (str s) = not (all_blank (codes s))
cites _ = true

unfoldable pub any_cites : Items → Bool
any_cites nil = false
any_cites (cons c cs) = cites c || any_cites cs

-- [c for c in body.get("citations", []) if str(c).strip()] is not empty
unfoldable pub ruling_cites : Option Json → Result Bool
ruling_cites none = ok false
ruling_cites (some (obj fs)) = elim (get "citations" (obj fs)) [
  | none ↦ ok false
  | some (arr cs) ↦ ok (any_cites cs)
  | some _ ↦ err type_error
]
ruling_cites (some _) = err type_error

-- e.body.get("ruling_id", f"seq{e.seq}")
unfoldable pub ruling_name : LogEntry → Result String
ruling_name e = elim (get "ruling_id" e.body) [
  | none ↦ ok (concat ("seq" ∷ show_ℕ e.seq ∷ []))
  | some v ↦ read_text (some v)
]

abbrev pub add_name : String → List String → List String
add_name n ns = ns ++ n ∷ []

unfoldable pub note_uncited : LogEntry → Exec (List String) Unit
note_uncited e = lift (ruling_name e) >>= λ name. modify (add_name name)

unfoldable pub cite_entry : LogEntry → Exec (List String) Unit
cite_entry e =
    if e.kind == "ruling"
    then (do
      cited ← lift (ruling_cites (get "body" e.body))
      if cited then pure tt else note_uncited e)
    else pure tt

unfoldable pub cite_entries : List LogEntry → Exec (List String) Unit
cite_entries [] = pure tt
cite_entries (e ∷ es) = cite_entry e >> cite_entries es

-- The digest of each commitment, the last event's.
abbrev pub Digests : Type 0
Digests = List (String × String)

unfoldable pub set_digest : String → String → Digests → Digests
set_digest c d [] = (c, d) ∷ []
set_digest c d ((k, v) ∷ rest) = if k == c then (k, d) ∷ rest else (k, v) ∷ set_digest c d rest

abbrev pub digest_in : String → Digests → Option (String × String)
digest_in c ds = findb (λ entry. entry.0 == c) ds

abbrev pub is_digest : String → Option (String × String) → Bool
is_digest derived none = false
is_digest derived (some entry) = derived == entry.1

unfoldable pub commit_entry : LogEntry → Exec Digests Unit
commit_entry e =
    if e.kind == "commit"
    then (do
      c ← text_item "commitment_id" e.body
      d ← text_item "digest" e.body
      modify (set_digest c d))
    else pure tt

unfoldable pub commit_entries : List LogEntry → Exec Digests Unit
commit_entries [] = pure tt
commit_entries (e ∷ es) = commit_entry e >> commit_entries es

pub record Reveals : Type 0 where
  pub bad_accept : List String
  pub bad_reject : List String

abbrev pub judge_accept : Bool → String → Reveals → Reveals
judge_accept matches c s = if matches then s else record s { bad_accept = add_name c s.bad_accept }

abbrev pub judge_reject : Bool → String → Reveals → Reveals
judge_reject matches c s = if matches then record s { bad_reject = add_name c s.bad_reject } else s

-- dict(claim) takes a mapping; that it also takes a list of pairs is left out.
abbrev is_mapping : Json → Bool
is_mapping (obj fs) = true
is_mapping _ = false

-- The digest that a reveal's claim and nonce derive, against the commitment's.
unfoldable pub judge : Digests → (Bool → String → Reveals → Reveals) → Json → Exec Reveals Unit
judge digests verdict body = do
  c ← text_item "commitment_id" body
  claim ← lift (item "claim" body)
  nonce ← text_item "nonce" body
  derived ← lift (commitment_digest claim nonce)
  raise_if (not (is_mapping claim)) type_error
  modify (verdict (is_digest derived (digest_in c digests)) c)

unfoldable pub reveal_entry : Digests → LogEntry → Exec Reveals Unit
reveal_entry digests e =
    if e.kind == "reveal_ok"
    then judge digests judge_accept e.body
    else if e.kind == "reveal_reject"
    then judge digests judge_reject e.body
    else pure tt

unfoldable pub reveal_entries : Digests → List LogEntry → Exec Reveals Unit
reveal_entries digests [] = pure tt
reveal_entries digests (e ∷ es) = reveal_entry digests e >> reveal_entries digests es
