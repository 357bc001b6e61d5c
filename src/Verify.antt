-- ===== src/Verify.antt =====
-- verify.py: the auditor, which has nothing but the log.
pub mod Replay
pub mod Checks
pub mod Reveals
pub mod Capacity
pub mod Steps
pub mod Soundness
mod Tests
use tarmac.Prelude.{
  ℕ, String, Bool, true, false, not, ◌&&◌, Option, none, some, List, [], ◌∷◌, ◌++◌, length, eqb,
  findb, if◌then◌else◌,
}
use tarmac.Prelude.Text.{◌==◌}
use tarmac.Json.{Json, Items, Fields, null, bool, int, str, arr, obj, nil, cons, end, field, get}
use tarmac.Canonical.{hash_obj}
use tarmac.Storage.{Exec, Result, ok, err, Error, pure, lift, gets, modify, ◌>>=◌, ◌>>◌}
use tarmac.ChainLog.{LogEntry, Verdict, chain_ok, chain_bad, verify_chain}
use tarmac.Ledger.Queries.{manifest_json}
use tarmac.Verify.Replay.{item, text_item, replay_manifest}
use tarmac.Verify.Checks.{
  Check, Report, add, none_of, Terms, terms_entries, over_capacity, double_allocated,
}
use tarmac.Verify.Reveals.{cite_entries, commit_entries, reveal_entries}

-- A loop of its own: what it gathers from nothing, or its exception.
unfoldable pub gathered : {S T : Type 0} → Exec T Unit → T → Exec S T
gathered body start s = let (r, t) = body start in elim r [ ok _ ↦ (ok t, s) | err e ↦ (err e, s) ]

unfoldable pub add_check : Check → Exec Report Unit
add_check c = modify (add c)

abbrev pub chain_passes : Verdict → Bool
chain_passes (chain_ok n head) = true
chain_passes (chain_bad fault) = false

-- Whether a JSON list is a list of these texts.
unfoldable pub items_are : List String → Items → Bool
items_are [] nil = true
items_are (s ∷ ss) (cons (str t) rest) = (s == t) && items_are ss rest
items_are _ _ = false

abbrev pub list_is : List String → Option Json → Bool
list_is bs (some (arr items)) = items_are bs items
list_is bs _ = false

unfoldable pub fields_match : List (String × List String) → Fields → Bool
fields_match [] fs = true
fields_match ((r, bs) ∷ rest) fs = list_is bs (get r (obj fs)) && fields_match rest fs

unfoldable pub count_fields : Fields → ℕ
count_fields end = 0
count_fields (field k v rest) = ℕ.suc (count_fields rest)

-- replayed == rec_manifest: as many keys, and each with the same list.
unfoldable pub same_manifest : List (String × List String) → Json → Bool
same_manifest replayed (obj fs) =
    eqb (length replayed) (count_fields fs) && fields_match replayed fs
same_manifest replayed _ = false

-- The last manifest entry.
unfoldable pub last_manifest : List LogEntry → Option LogEntry
last_manifest [] = none
last_manifest (e ∷ es) =
    let later = last_manifest es in
    elim later [ some f ↦ some f | none ↦ if e.kind == "manifest" then some e else none ]

-- I5: replay reproduces the recorded manifest.
unfoldable pub check_replay : Option LogEntry → Exec Report Unit
check_replay none = add_check (record { name = "I5.replay"; passed = false; offenders = [] })
check_replay (some e) = do
  recorded ← lift (item "manifest" e.body)
  recorded_hash ← text_item "manifest_hash" e.body
  report ← gets (λ s. s)
  add_check (record {
    name = "I5.replay";
    passed = same_manifest report.manifest recorded && (report.manifest_hash == recorded_hash);
    offenders = [];
  })

-- I1, with the capacities and groups that the log registers.
unfoldable pub check_holdings : List Terms → Exec Report Unit
check_holdings terms = do
  manifest ← gets (λ s. s.manifest)
  add_check (none_of "I1.capacity" (over_capacity terms manifest))
  add_check (none_of "I1.exclusivity" (double_allocated terms manifest))

unfoldable pub check_capacity_and_exclusivity : List LogEntry → Exec Report Unit
check_capacity_and_exclusivity entries = gathered (terms_entries entries) [] >>= check_holdings

-- I3
unfoldable pub check_rulings_cite : List LogEntry → Exec Report Unit
check_rulings_cite entries = do
  uncited ← gathered (cite_entries entries) []
  add_check (none_of "I3.rulings_cite_source" uncited)

-- I4
unfoldable pub check_reveals : List LogEntry → Exec Report Unit
check_reveals entries = do
  digests ← gathered (commit_entries entries) []
  found ← gathered (reveal_entries digests entries) (record { bad_accept = []; bad_reject = [] })
  add_check (none_of "I4.accepted_reveals_match" found.bad_accept)
  add_check (none_of "I4.rejected_reveals_mismatch" found.bad_reject)

-- The caller's own checks.
unfoldable pub check_domain : List (List LogEntry → Check) → List LogEntry → Exec Report Unit
check_domain [] entries = pure tt
check_domain (c ∷ cs) entries = add_check (c entries) >> check_domain cs entries

-- report.manifest and report.manifest_hash
unfoldable pub record_manifest : List (String × List String) → Exec Report Unit
record_manifest m =
    modify (λ s. record s { manifest = m; manifest_hash = hash_obj (manifest_json m) })

unfoldable pub check_statements : List LogEntry → List (List LogEntry → Check) → Exec Report Unit
check_statements entries domain_checks = do
  check_rulings_cite entries
  check_reveals entries
  check_domain domain_checks entries

unfoldable pub check_invariants : List LogEntry → List (List LogEntry → Check) → Exec Report Unit
check_invariants entries domain_checks = do
  check_replay (last_manifest entries)
  check_capacity_and_exclusivity entries
  check_statements entries domain_checks

unfoldable pub check_chain : List LogEntry → Exec Report Unit
check_chain entries =
    add_check
      (record { name = "chain"; passed = chain_passes (verify_chain entries); offenders = [] })

unfoldable pub check_all : List LogEntry → List (List LogEntry → Check) → Exec Report Unit
check_all entries domain_checks = do
  check_chain entries
  replayed ← lift (replay_manifest entries)
  record_manifest replayed
  check_invariants entries domain_checks

unfoldable pub verify_log :
    List LogEntry → List (List LogEntry → Check) → Result (Unit {0}) × Report
verify_log entries domain_checks = check_all entries domain_checks (record {
  ok = true;
  checks = [];
  manifest = [];
  manifest_hash = "";
  chain_length = length entries;
})
