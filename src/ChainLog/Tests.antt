-- ===== src/ChainLog/Tests.antt =====
-- Tests of the log, and its theorems at concrete logs.
use tarmac.Prelude.{◌≡◌, refl, subst, ◌⊎◌, List, [], ◌∷◌, ℕ, String}
use tarmac.Prelude.Text.{text_discrete}
use tarmac.Json.{Json, dict, str, null}
use tarmac.Canonical.{canonical_bytes, sha256_hex}
use tarmac.Sha256.{sha256_hexdigest}
use tarmac.ChainLog.{
  utf8, envelope, preimage, entry_hash, entry_fault, LogEntry, ChainLog, genesis, append,
  open_chain, verify_chain, chain_ok, chain_bad, hash_mismatch,
}
use tarmac.ChainLog.Accepts.{append_all, built-passes}
use tarmac.ChainLog.TamperEvidence.{SameEntries, CollisionIn, same-heads}

-- Two spellings of one run header: the canonical text sorts the keys.
abbrev header : Json
header = dict (("scenario", str "storm_dfw") ∷ ("condition", str "society") ∷ [])

abbrev reordered : Json
reordered = dict (("condition", str "society") ∷ ("scenario", str "storm_dfw") ∷ [])

abbrev events : List (String × Json × ℕ)
events = ("round_start", null, 1) ∷ ("quiescent", null, 1) ∷ []

abbrev log : ChainLog
log = append_all events (genesis header (open_chain [])).1

abbrev log' : ChainLog
log' = append_all events (genesis reordered (open_chain [])).1

one_head : log'.head ≡ log.head
unfolding append genesis open_chain entry_hash preimage envelope canonical_bytes text_discrete
one_head = refl

built-passes_example : verify_chain log.rows ≡ chain_ok 3 log.head
built-passes_example = built-passes header events

same-heads_example : SameEntries log.rows log'.rows ⊎ CollisionIn log.rows log'.rows
same-heads_example =
    same-heads log.rows log'.rows 3 log.head (built-passes header events)
      (subst (λ h. verify_chain log'.rows ≡ chain_ok 3 h) one_head (built-passes reordered events))

-- An entry that was changed after it was hashed.
abbrev forged : List LogEntry
forged =
    record { seq = 0; round = 0; kind = "genesis"; body = reordered; prev_hash = ""; hash = "00" }
    ∷ []

forged_fails : verify_chain forged ≡ chain_bad (hash_mismatch 0)
unfolding verify_chain entry_fault entry_hash preimage utf8 envelope canonical_bytes text_discrete
    sha256_hex sha256_hexdigest
forged_fails = refl
