-- ===== src/Society/Recorded.antt =====
-- The manifest entry that a run ends with, as the auditor finds it, and the result beside it.
use tarmac.Prelude.{
  ℕ, suc, String, ◌≡◌, refl, sym, ◌∙◌, ap, subst, Bool, true, not, ◌&&◌, eqb, inl, inr, Bool-cases,
  some, List, [], ◌∷◌, ◌++◌, arith,
}
use tarmac.Prelude.Text.{◌==◌, text_discrete}
use tarmac.Json.{Json, get, dict, str, number, bool}
use tarmac.Canonical.{hash_obj}
use tarmac.Storage.{ok, gets, ◌>>=◌, ◌>>◌}
use tarmac.Storage.Runs.{bind_returned}
use tarmac.Storage.Ensures.{Ensures, Ensures-bind}
use tarmac.ChainLog.{genesis_kind, LogEntry, append}
use tarmac.Ledger.Queries.{manifest, manifest_hash, manifest_json}
use tarmac.Verify.{last_manifest}
use tarmac.Society.State.{Setup, Society, append_log, keep_entry}
use tarmac.Society.Run.{RunResult, run_result, run}

-- The body of the manifest entry.
abbrev record_of_run : List (String × List String) → String → ℕ → Bool → Json
record_of_run m hash rounds quiet = dict (
    ("manifest", manifest_json m)
    ∷ ("manifest_hash", str hash)
    ∷ ("rounds_used", number rounds)
    ∷ ("quiescent", bool quiet)
    ∷ [])

-- A result that the last manifest entry of a log records, as the log's end, beside a ledger that has
-- the manifest.
pub record Recorded (r : RunResult) (t : Society) : Type 0 where
  pub entry : LogEntry
  pub found : last_manifest t.log.rows ≡ some entry
  pub seats : get "manifest" entry.body ≡ some (manifest_json r.manifest)
  pub seats_hash : get "manifest_hash" entry.body ≡ some (str r.manifest_hash)
  pub rounds : get "rounds_used" entry.body ≡ some (number r.rounds_used)
  pub quiet : get "quiescent" entry.body ≡ some (bool r.quiescent)
  pub derived : r.manifest_hash ≡ hash_obj (manifest_json r.manifest)
  pub held : r.manifest ≡ manifest t.ledger
  pub head : r.chain_head ≡ entry.hash
  pub entries : r.chain_length ≡ suc entry.seq

last_manifest_appended :
    (es : List LogEntry) (e : LogEntry)
    → (e.kind == "manifest") ≡ true
    → last_manifest (es ++ e ∷ []) ≡ some e
unfolding last_manifest
last_manifest_appended [] e h = ground (arith, h)
last_manifest_appended (x ∷ es) e h = rw (last_manifest_appended es e h) refl

-- What an append that returns leaves: one entry more, with the kind and the body.
record Appended (of_kind : String) (with_body : Json) (s t : Society) : Type 0 where
  entry : LogEntry
  rows : t.log.rows ≡ s.log.rows ++ entry ∷ []
  head : t.log.head ≡ entry.hash
  length : t.log.length ≡ suc entry.seq
  kind : entry.kind ≡ of_kind
  body : entry.body ≡ with_body
  ledger : t.ledger ≡ s.ledger

append_log-Appended :
    (kind : String) (body : Json) (round : ℕ) (s : Society) (done : Unit {0})
    → (append_log kind body round s).0 ≡ ok done
    → Appended kind body s (append_log kind body round s).1
unfolding append_log append keep_entry
append_log-Appended kind body round s done h =
    elim (Bool-cases (eqb s.log.length 0 && not (kind == genesis_kind))) [
      | inl refused ↦ absurd (ground (arith, refused, h))
      | inr fine ↦ rw fine (record {
        entry = _;
        rows = refl;
        head = refl;
        length = refl;
        kind = refl;
        body = refl;
        ledger = refl;
      })
    ]

-- The manifest entry goes in last, and the result is read after it.
append_log-Recorded :
    (setup : Setup) (n : ℕ) (quiet : Bool) (s : Society) (r : RunResult)
    → let m = manifest s.ledger in
      let hash = manifest_hash s.ledger in
      let ending =
        append_log "manifest" (record_of_run m hash n quiet) n
        >> gets (run_result setup m hash n quiet) in
      (ending s).0 ≡ ok r → Recorded r (ending s).1
unfolding gets run_result text_discrete get hash_obj manifest_hash
append_log-Recorded setup n quiet s r done =
    let m = manifest s.ledger in
    let hash = manifest_hash s.ledger in
    let entry = append_log "manifest" (record_of_run m hash n quiet) n in
    let result_in = run_result setup m hash n quiet in
    let (u, part, run) = bind_returned entry (λ _. gets result_in) s r done in
    let added = append_log-Appended "manifest" (record_of_run m hash n quiet) n s u part in
    let same : ok (result_in (entry s).1) ≡ ok r = ap (λ x. x.0) (sym run) ∙ done in
    let result : result_in (entry s).1 ≡ r = ground (arith, same) in
    subst (λ t. Recorded r t) (sym (ap (λ x. x.1) run))
      (subst (λ x. Recorded x (entry s).1) result
        (record {
          entry = added.entry;
          found =
              rw added.rows (last_manifest_appended s.log.rows added.entry (rw added.kind refl));
          seats = rw added.body refl;
          seats_hash = rw added.body refl;
          rounds = rw added.body refl;
          quiet = rw added.body refl;
          derived = refl;
          held = rw added.ledger refl;
          head = added.head;
          entries = added.length;
        }))

ending-Recorded :
    (setup : Setup) (n : ℕ) (quiet : Bool)
    → Ensures Recorded (
        gets (λ s. manifest s.ledger) >>= λ m. gets (λ s. manifest_hash s.ledger) >>= λ hash.
        append_log "manifest" (record_of_run m hash n quiet) n
        >> gets (run_result setup m hash n quiet))
unfolding gets ◌>>=◌
ending-Recorded setup n quiet = record {
  returned = λ s r done. append_log-Recorded setup n quiet s r done;
}

run-Recorded : (setup : Setup) → Ensures Recorded (run setup)
unfolding run
run-Recorded setup =
    Ensures-bind _ _ (λ ending. Ensures-bind _ _ (λ _. ending-Recorded setup ending.0 ending.1))

-- When a run of any agents and any mediator returns, the last manifest entry of the log that it
-- leaves, found as the auditor finds it, records the result: its manifest, the manifest's hash, the
-- rounds and whether it was quiescent. The manifest is that of the ledger that the run leaves, the
-- hash is derived from it, and the head and the number of entries are of the log up to that entry.
pub run-records_manifest :
    (setup : Setup) (s : Society) (r : RunResult)
    → (run setup s).0 ≡ ok r
    → Recorded r (run setup s).1
run-records_manifest setup s r done = (run-Recorded setup).returned s r done
