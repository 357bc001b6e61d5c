-- ===== src/Society/Quiescence.antt =====
-- A run that returns quiescent leaves nothing open.
use tarmac.Prelude.{
  ℕ, zero, suc, ◌+◌, ◌-◌, ◌≤◌, ◌<◌, String, ◌≡◌, refl, sym, ◌∙◌, ap, subst, Bool, true, false, ◌&&◌,
  List, [], ◌∷◌, is_empty, arith, if◌then◌else◌,
}
use tarmac.Json.{Json, dict, number}
use tarmac.Storage.{Exec, Result, ok, err, pure, gets, ◌>>=◌, ◌>>◌}
use tarmac.Storage.Runs.{bind_returned}
use tarmac.Storage.Ensures.{Ensures, Ensures-bind, Ensures-bind_knowing}
use tarmac.ChainLog.{ChainLog, LogEntry, append}
use tarmac.Schemas.{ClaimRecord}
use tarmac.Currency.Bank.{Contest}
use tarmac.Ledger.Queries.{blocked_claims, manifest, manifest_hash}
use tarmac.Currency.Contests.{open_contests}
use tarmac.Society.State.{Setup, Society, append_log, keep_entry}
use tarmac.Society.Run.{RunResult, play_round, play_rounds, finish, run_result, run}

-- Nothing is blocked, and nothing is contested.
abbrev pub Quiet : Society → Type 0
Quiet s = (is_empty (blocked_claims s.ledger) ≡ true) × (is_empty (open_contests s.bank) ≡ true)

-- An entry of the log changes no table.
keep_entry-frame :
    (s : Society) (r : Result LogEntry × ChainLog)
    → ((keep_entry s r).1.ledger ≡ s.ledger) × ((keep_entry s r).1.bank ≡ s.bank)
unfolding keep_entry
keep_entry-frame s (ok entry, log) = (refl, refl)
keep_entry-frame s (err e, log) = (refl, refl)

append_log-Quiet :
    (kind : String) (body : Json) (round : ℕ) (s : Society)
    → Quiet s
    → Quiet (append_log kind body round s).1
unfolding append_log
append_log-Quiet kind body round s (no_claim, no_contest) =
    let (ledger, bank) = keep_entry-frame s (append kind body round s.log) in
    (
      subst (λ l. is_empty (blocked_claims l) ≡ true) (sym ledger) no_claim,
      subst (λ b. is_empty (open_contests b) ≡ true) (sym bank) no_contest,
    )

-- The end of a round: it is quiet when there was nothing new and there is nothing left.
abbrev QuietIf : Bool → Society → Type 0
QuietIf quiet s = quiet ≡ true → Quiet s

log_then-Ensures :
    (kind : String) (body : Json) (round : ℕ) (no_commit no_position : Bool) (s : Society)
    (quiet : Bool)
    → let ending = append_log kind body round >>= λ _. pure (
        no_commit
        && (no_position
            && (is_empty (blocked_claims s.ledger) && is_empty (open_contests s.bank)))) in
      (ending s).0 ≡ ok quiet → QuietIf quiet (ending s).1
unfolding pure
log_then-Ensures kind body round no_commit no_position s quiet done is_quiet =
    let q =
      no_commit
      && (no_position && (is_empty (blocked_claims s.ledger) && is_empty (open_contests s.bank))) in
    let (_, _, run) = bind_returned (append_log kind body round) (λ _. pure q) s quiet done in
    let same : ok q ≡ ok quiet = ap (λ r. r.0) (sym run) ∙ done in
    let all_done : q ≡ true = ground (arith, same, is_quiet) in
    subst Quiet (sym (ap (λ r. r.1) run))
      (append_log-Quiet kind body round s (ground (arith, all_done), ground (arith, all_done)))

end_round-Ensures :
    (body : List ClaimRecord → List Contest → Json) (round : ℕ) (no_commit no_position : Bool)
    → Ensures QuietIf (
        gets (λ s. blocked_claims s.ledger) >>= λ blocked.
        gets (λ s. open_contests s.bank) >>= λ contests.
        append_log "round_end" (body blocked contests) round
        >> pure (no_commit && (no_position && (is_empty blocked && is_empty contests))))
unfolding gets ◌>>=◌
end_round-Ensures body round no_commit no_position = record {
  returned = λ s quiet done is_quiet.
      log_then-Ensures "round_end" (body (blocked_claims s.ledger) (open_contests s.bank)) round
        no_commit no_position s quiet done is_quiet;
}

play_round-Quiet : (setup : Setup) (round : ℕ) → Ensures QuietIf (play_round setup round)
unfolding play_round
play_round-Quiet setup round = Ensures-bind _ _ (λ _. Ensures-bind _ _ (λ _.
    Ensures-bind _ _ (λ counts. Ensures-bind _ _ (λ positions. Ensures-bind _ _ (λ deadlocks.
      Ensures-bind _ _
        (λ _. Ensures-bind _ _ (λ _. Ensures-bind _ _ (λ _. end_round-Ensures _ round _ _))))))))

-- The last round is one of those that were left, and when it was quiet, nothing is open.
abbrev Ended : ℕ → ℕ × Bool → Society → Type 0
Ended bound ending s = (ending.0 < bound) × QuietIf ending.1 s

-- What follows a round: the end when it was quiet, more rounds otherwise.
after_round-Ended :
    (more : Exec Society (ℕ × Bool)) (round bound : ℕ) (quiet : Bool) (s : Society)
    (ending : ℕ × Bool)
    → round < bound
    → Ensures (Ended bound) more
    → QuietIf quiet s
    → ((if quiet
          then append_log "quiescent" (dict (("round", number round) ∷ [])) round
            >> pure (round, true)
          else more)
        s).0
      ≡ ok ending
    → Ended bound ending
        ((if quiet
            then append_log "quiescent" (dict (("round", number round) ∷ [])) round
              >> pure (round, true)
            else more)
          s).1
unfolding pure
after_round-Ended more round bound true s ending small km is_quiet done =
    let (_, _, run) =
      bind_returned (append_log "quiescent" _ round) (λ _. pure (round, true)) s ending done in
    let same : ok (round, true) ≡ ok ending = ap (λ r. r.0) (sym run) ∙ done in
    (
      ground (arith, same, small),
      λ quiet.
          subst Quiet (sym (ap (λ r. r.1) run))
            (append_log-Quiet "quiescent" _ round s (is_quiet refl)),
    )
after_round-Ended more round bound false s ending small km is_quiet done = km.returned s ending done

play_rounds-Ended :
    (setup : Setup) (left round bound : ℕ)
    → 1 ≤ round
    → round + left ≤ bound
    → Ensures (Ended bound) (play_rounds setup left round)
unfolding play_rounds pure
play_rounds-Ended setup zero round bound h fits = record {
  returned = λ s ending done.
      let same : ok (round - 1, false) ≡ ok ending = done in
      (ground (arith, same, h, fits), λ quiet. absurd (ground (arith, same, quiet)));
}
play_rounds-Ended setup (suc left) round bound h fits =
    Ensures-bind_knowing _ _ (play_round-Quiet setup round) (λ quiet s ending is_quiet done.
      after_round-Ended (play_rounds setup left (suc round)) round bound quiet s ending
        (omega (arith, h, fits))
        (play_rounds-Ended setup left (suc round) bound (omega (arith, h)) (omega (arith, fits)))
        is_quiet done)

-- A result with few enough rounds, that is quiescent in no state but a quiet one.
pub record Reports (setup : Setup) (r : RunResult) (s : Society) : Type 0 where
  pub rounds : r.rounds_used ≤ setup.max_rounds
  pub quiet : r.quiescent ≡ true → Quiet s

run_result-Reports :
    (setup : Setup) (m : List (String × List String)) (hash : String) (n : ℕ) (quiet : Bool)
    (s : Society)
    → n ≤ setup.max_rounds
    → QuietIf quiet s
    → Reports setup (run_result setup m hash n quiet s) s
unfolding run_result
run_result-Reports setup m hash n quiet s small is_quiet = record {
  rounds = small;
  quiet = is_quiet;
}

-- The end of `run`, after the last round and what finishes it.
report-Reports :
    (setup : Setup) (body : List (String × List String) → String → Json) (n : ℕ) (quiet : Bool)
    (s : Society) (r : RunResult)
    → n ≤ setup.max_rounds
    → QuietIf quiet s
    → let ending = gets (λ s. manifest s.ledger) >>= λ m.
        gets (λ s. manifest_hash s.ledger) >>= λ hash.
        append_log "manifest" (body m hash) n >> gets (run_result setup m hash n quiet) in
      (ending s).0 ≡ ok r → Reports setup r (ending s).1
unfolding gets ◌>>=◌
report-Reports setup body n quiet s r small is_quiet done =
    let entry = append_log "manifest" (body (manifest s.ledger) (manifest_hash s.ledger)) n in
    let result_in = run_result setup (manifest s.ledger) (manifest_hash s.ledger) n quiet in
    let (_, _, run) = bind_returned entry (λ _. gets result_in) s r done in
    let same : ok (result_in (entry s).1) ≡ ok r = ap (λ x. x.0) (sym run) ∙ done in
    let result : result_in (entry s).1 ≡ r = ground (arith, same) in
    subst (λ t. Reports setup r t) (sym (ap (λ x. x.1) run))
      (subst (λ x. Reports setup x (entry s).1) result
        (run_result-Reports setup (manifest s.ledger) (manifest_hash s.ledger) n quiet (entry s).1
          small (λ q. append_log-Quiet "manifest" _ n s (is_quiet q))))

finish-QuietIf :
    (setup : Setup) (n : ℕ) (quiet : Bool) (s : Society) (done : Unit {0})
    → QuietIf quiet s
    → (finish setup n quiet s).0 ≡ ok done
    → QuietIf quiet (finish setup n quiet s).1
unfolding finish pure
finish-QuietIf setup n true s done is_quiet e = is_quiet
finish-QuietIf setup n false s done is_quiet e = λ quiet. absurd (ground (arith, quiet))

run-Reports : (setup : Setup) → Ensures (Reports setup) (run setup)
unfolding run
run-Reports setup =
    Ensures-bind_knowing _ _
      (play_rounds-Ended setup setup.max_rounds 1 (suc setup.max_rounds) (omega arith)
        (omega arith))
      (λ ending s r (small, is_quiet) done.
        let (u, part, rest) = bind_returned (finish setup ending.0 ending.1) _ s r done in
        subst (λ t. Reports setup r t) (ap (λ x. x.1) (sym rest))
          (report-Reports setup _ ending.0 ending.1 (finish setup ending.0 ending.1 s).1 r
            (omega (arith, small)) (finish-QuietIf setup ending.0 ending.1 s u is_quiet part)
            (ap (λ x. x.0) (sym rest) ∙ done)))

-- When a run of any agents and any mediator returns quiescent, nothing is left blocked and no
-- contest is left open, and it took at most max_rounds rounds.
pub run-IsQuiet :
    (setup : Setup) (s : Society) (r : RunResult)
    → (run setup s).0 ≡ ok r
    → r.quiescent ≡ true
    → Quiet (run setup s).1 × (r.rounds_used ≤ setup.max_rounds)
run-IsQuiet setup s r done quiescent =
    let report = (run-Reports setup).returned s r done in (report.quiet quiescent, report.rounds)
