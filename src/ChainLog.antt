-- ===== src/ChainLog.antt =====
-- chainlog.py: the append-only log, each entry hashed with the hash of the one before. A row keeps
-- the body itself where the table keeps its canonical text, which json.loads gives back.
pub mod Accepts
pub mod Kept
pub mod TamperEvidence
mod Tests
use tarmac.Prelude.{
  ℕ, zero, suc, ◌+◌, ◌*◌, ◌/◌, ◌%◌, String, Bool, true, false, not, ◌&&◌, ◌||◌, Option, none, some,
  List, [], ◌∷◌, ◌++◌, ltb, eqb, if◌then◌else◌,
}
use tarmac.Prelude.Text.{◌==◌, text_discrete, codes}
use tarmac.Json.{Json, dict, number, str}
use tarmac.Canonical.{canonical_bytes, sha256_hex}
use tarmac.Storage.{Result, ok, err, runtime_error}

abbrev pub genesis_kind : String
genesis_kind = "genesis"

pub record LogEntry : Type 0 where
  pub seq : ℕ
  pub round : ℕ
  pub kind : String
  pub body : Json
  pub prev_hash : String
  pub hash : String

-- `length` is `_seq + 1`; `head` is `_head`.
pub record ChainLog : Type 0 where
  pub rows : List LogEntry
  pub length : ℕ
  pub head : String

-- text.encode("utf-8")
utf8_char : ℕ → List ℕ
utf8_char c =
    if ltb c 128
    then c ∷ []
    else if ltb c 2048
    then (192 + c / 64) ∷ (128 + c % 64) ∷ []
    else if ltb c 65536
    then (224 + c / 4096) ∷ (128 + c / 64 % 64) ∷ (128 + c % 64) ∷ []
    else (240 + c / 262144) ∷ (128 + c / 4096 % 64) ∷ (128 + c / 64 % 64) ∷ (128 + c % 64) ∷ []

unfoldable pub utf8 : List ℕ → List ℕ
unfolding utf8_char
utf8 [] = []
utf8 (c ∷ cs) = utf8_char c ++ utf8 cs

pub envelope : ℕ → ℕ → String → Json → Json
envelope seq round kind body =
    dict (("seq", number seq) ∷ ("round", number round) ∷ ("kind", str kind) ∷ ("body", body) ∷ [])

-- What is hashed: the previous hash, then the envelope.
pub preimage : String → ℕ → ℕ → String → Json → List ℕ
preimage prev_hash seq round kind body =
    utf8 (codes prev_hash) ++ canonical_bytes (envelope seq round kind body)

pub entry_hash : String → ℕ → ℕ → String → Json → String
entry_hash prev_hash seq round kind body = sha256_hex (preimage prev_hash seq round kind body)

-- ChainLog(storage): the last row's sequence number and hash, if there is a row.
last_row : List LogEntry → Option LogEntry
last_row [] = none
last_row (e ∷ []) = some e
last_row (e ∷ f ∷ rest) = last_row (f ∷ rest)

unfoldable pub open_chain : List LogEntry → ChainLog
unfolding last_row
open_chain rows = elim (last_row rows) [
  | none ↦ record { rows = rows; length = 0; head = "" }
  | some e ↦ record { rows = rows; length = suc e.seq; head = e.hash }
]

-- An entry needs a genesis entry before it, unless it is one.
unfoldable pub append : String → Json → ℕ → ChainLog → Result LogEntry × ChainLog
append kind body round log =
    let entry : LogEntry = record {
      seq = log.length;
      round = round;
      kind = kind;
      body = body;
      prev_hash = log.head;
      hash = entry_hash log.head log.length round kind body;
    } in
    if eqb log.length 0 && not (kind == genesis_kind) then (err runtime_error, log) else (
      ok entry,
      record { rows = log.rows ++ entry ∷ []; length = suc log.length; head = entry.hash },
    )

unfoldable pub genesis : Json → ChainLog → Result LogEntry × ChainLog
genesis header log =
    if eqb log.length 0 then append genesis_kind header 0 log else (err runtime_error, log)

-- The `detail` of a rejected log.
pub data ChainFault : Type 0 where
  sequence_gap : ℕ → ℕ → ChainFault
  broken_link hash_mismatch : ℕ → ChainFault
  not_genesis empty_chain : ChainFault

-- (ok, detail): the number of entries and the head, or the first fault.
pub data Verdict : Type 0 where
  chain_ok : ℕ → String → Verdict
  chain_bad : ChainFault → Verdict

-- The checks of one entry, in order; `none` is no fault.
pub entry_fault : String → ℕ → LogEntry → Option ChainFault
entry_fault prev_hash expected_seq e =
    if not (eqb e.seq expected_seq)
    then some (sequence_gap e.seq expected_seq)
    else if eqb e.seq 0 && not (e.kind == genesis_kind)
    then some not_genesis
    else if not (e.prev_hash == prev_hash)
    then some (broken_link e.seq)
    else if not (entry_hash e.prev_hash e.seq e.round e.kind e.body == e.hash)
    then some (hash_mismatch e.seq)
    else none

-- The loop of verify_chain.
pub verify_from : String → ℕ → List LogEntry → Verdict
verify_from prev_hash expected_seq [] = chain_ok expected_seq prev_hash
verify_from prev_hash expected_seq (e ∷ rest) =
    let later = verify_from e.hash (suc expected_seq) rest in
    elim (entry_fault prev_hash expected_seq e) [ none ↦ later | some fault ↦ chain_bad fault ]

unfoldable pub verify_chain : List LogEntry → Verdict
unfolding verify_from
verify_chain [] = chain_bad empty_chain
verify_chain (e ∷ rest) = verify_from "" 0 (e ∷ rest)
