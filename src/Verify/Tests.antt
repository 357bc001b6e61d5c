-- ===== src/Verify/Tests.antt =====
-- Tests of the auditor, and its theorems at concrete logs.
use tarmac.Verify.Reveals.{
  cite_entries, cite_entry, commit_entries, commit_entry, reveal_entries, reveal_entry,
}
use tarmac.Prelude.{ℕ, String, ◌≡◌, refl, ap, true, false, if◌then◌else◌, List, [], ◌∷◌}
use tarmac.Prelude.Text.{text_discrete, sort_by, insert_by, sorted}
use tarmac.Json.{Json, dict, str, number, null, texts, get}
use tarmac.Storage.{ok, ◌>>=◌}
use tarmac.Canonical.{canonical_bytes, sha256_hex, hash_obj}
use tarmac.Sha256.{sha256_hexdigest}
use tarmac.ChainLog.{LogEntry, genesis, append, open_chain}
use tarmac.ChainLog.Accepts.{append_all, built-passes}
use tarmac.Ledger.Queries.{manifest_json, manifest_fields}
use tarmac.Verify.{
  verify_log, check_all, chain_passes, add_check, check_capacity_and_exclusivity, check_chain,
  check_domain, check_holdings, check_invariants, check_replay, check_reveals, check_rulings_cite,
  check_statements, count_fields, fields_match, gathered, items_are, last_manifest, record_manifest,
  same_manifest,
}
use tarmac.Verify.Checks.{
  add, double_allocated, group_value, over_capacity, see, see_all, see_manifest, set_terms,
  terms_entries, terms_entry,
}
use tarmac.Verify.Replay.{
  replay_manifest, add_held, discard_held, int_value, item, read_text, replay_change,
  replay_entries, replay_entry, sorted_held, text_item,
}
use tarmac.Verify.Replay.Lookup.{listed}
use tarmac.Verify.Replay.Meaning.{last_says, listed-replay_manifest}
use tarmac.Verify.Soundness.{Audited, all_passed, verify_log-Audited, verify_log-ok_is_all_passed}

abbrev unit_of : String → String → Json
unit_of r b = dict (("resource", str r) ∷ ("beneficiary", str b) ∷ ("claim_id", str "c-001") ∷ [])

abbrev event : String → Json → LogEntry
event kind body = record { seq = 0; round = 1; kind = kind; body = body; prev_hash = ""; hash = "" }

-- A seat is given, taken back and given to another.
abbrev reaccommodation : List LogEntry
reaccommodation =
    event "alloc" (unit_of "seat" "P001")
    ∷ event "dealloc" (unit_of "seat" "P001")
    ∷ event "alloc" (unit_of "seat" "P002")
    ∷ []

reaccommodation_manifest : replay_manifest reaccommodation ≡ ok (("seat", "P002" ∷ []) ∷ [])
unfolding replay_manifest replay_entries ◌>>=◌ replay_entry text_discrete replay_change text_item
    read_text get sorted_held add_held discard_held sorted
reaccommodation_manifest = refl

listed-replay_manifest_example :
    listed "seat" "P001" (("seat", "P002" ∷ []) ∷ [])
    ≡ last_says "seat" "P001" false reaccommodation
listed-replay_manifest_example =
    listed-replay_manifest reaccommodation (("seat", "P002" ∷ []) ∷ []) "seat" "P001"
      reaccommodation_manifest

abbrev final : Json
final = dict (("seat", texts ("P001" ∷ [])) ∷ [])

abbrev events : List (String × Json × ℕ)
events =
    ("resource", dict (("id", str "seat") ∷ ("capacity", number 1) ∷ ("group", null) ∷ []), 0)
    ∷ ("alloc", unit_of "seat" "P001", 1)
    ∷ ("manifest", dict (("manifest", final) ∷ ("manifest_hash", str (hash_obj final)) ∷ []), 1)
    ∷ []

abbrev log : List LogEntry
log = (append_all events (genesis null (open_chain [])).1).rows

log_passes : (verify_log log []).1.ok ≡ true
unfolding verify_log check_all ◌>>=◌ check_chain add_check replay_manifest replay_entries append
    genesis open_chain text_discrete replay_entry replay_change text_item read_text get
    record_manifest check_invariants manifest_fields manifest_json insert_by sort_by sorted add
    double_allocated group_value over_capacity see see_all see_manifest set_terms terms_entries
    terms_entry add_held discard_held int_value item sorted_held cite_entries cite_entry
    commit_entries commit_entry reveal_entries reveal_entry check_capacity_and_exclusivity
    check_domain check_holdings check_replay check_reveals check_rulings_cite check_statements
    count_fields fields_match gathered items_are last_manifest same_manifest canonical_bytes
    hash_obj sha256_hex sha256_hexdigest
log_passes = ap (λ v. if chain_passes v then true else false) (built-passes null events)

log_returns : verify_log log [] ≡ (ok tt, (verify_log log []).1)
unfolding verify_log check_all ◌>>=◌ check_chain add_check replay_manifest replay_entries append
    genesis open_chain text_discrete replay_entry replay_change text_item read_text get
    record_manifest check_invariants manifest_fields manifest_json insert_by sort_by sorted add
    double_allocated group_value over_capacity see see_all see_manifest set_terms terms_entries
    terms_entry add_held discard_held int_value item sorted_held cite_entries cite_entry
    commit_entries commit_entry reveal_entries reveal_entry check_capacity_and_exclusivity
    check_domain check_holdings check_replay check_reveals check_rulings_cite check_statements
    count_fields fields_match gathered items_are last_manifest same_manifest
log_returns = refl

verify_log-Audited_example : Audited log
verify_log-Audited_example =
    verify_log-Audited log [] tt (verify_log log []).1 log_returns log_passes

verify_log-ok_is_all_passed_example :
    (verify_log log []).1.ok ≡ all_passed (verify_log log []).1.checks
verify_log-ok_is_all_passed_example = verify_log-ok_is_all_passed log []
