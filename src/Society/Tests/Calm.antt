-- ===== src/Society/Tests/Calm.antt =====
-- A run of the round engine, evaluated: a position on an unknown claim, then a quiet round.
use tarmac.Prelude.{◌≡◌, ◌≤◌, arith, refl, Bool, true, false, none, [], ◌∷◌}
use tarmac.Prelude.Text.{text_discrete, sorted}
use tarmac.Json.{dict}
use tarmac.Schemas.{support}
use tarmac.Storage.{Result, err}
use tarmac.Signing.OneKey.{one_key}
use tarmac.Society.Views.{Agent}
use tarmac.Society.State.{Setup}
use tarmac.Society.Run.{RunResult}
use tarmac.Society.Quiescence.{Quiet, run-IsQuiet}
use tarmac.Society.Recorded.{Recorded, run-records_manifest}
use tarmac.Society.Tests.{start, in_first_round}
use tarmac.Society.State.{on_ledger, on_bank, append_log, try_claim, view_for}
use tarmac.Society.Phases.{
  note, process_target, process_position, file_positions, seal_all, commit_all, reveal_all,
  phase_commit_reveal, phase_positions,
}
use tarmac.Society.Run.{
  deadlock_json, order_of, log_deadlocks, scan_round, rule_on, mediate, finalize_unquiesced,
  play_round, play_rounds, finish, run_result, run,
}
use tarmac.Ledger.Tables.{insert_resource, insert_claim}
use tarmac.Ledger.Queries.{
  record_of, claim, claim_leb, claims_with_status, blocked_claims, granted_claims,
}
use tarmac.Ledger.Allocate.{emit, emit_each}
use tarmac.Ledger.Methods.{add_resource, register_resource}
use tarmac.Ledger.Ruling.{apply_ruling_ops}
use tarmac.Currency.Bank.{add_account, add_accounts, set_up, new_bank, balance}
use tarmac.Currency.Contests.{open_contest, open_contests}
use tarmac.Currency.Reports.{replace_all, snapshot}
use tarmac.Deadlock.Detector.{
  add_waits, wait_graph, cycle_deadlock, report_cycles, add_holders, contested_claims, challenge,
  contested_grants, report_streaks, end_streaks, resources_of, scan,
}
use tarmac.Deadlock.Cycles.{
  distinct, add_targets, all_targets, graph_of, visit_roots, texts_leb, find_cycles,
}
use tarmac.Storage.{pure, transaction, rescue}
use tarmac.ChainLog.{utf8, open_chain, append, genesis}
use tarmac.Json.{as_number}
use tarmac.Ledger.Calls.{perform, perform_all}
use tarmac.Ledger.Faults.{fault_text}
use tarmac.Storage.{◌>>=◌, ok}

abbrev onlooker : Agent
onlooker = record {
  name = "onlooker";
  propose = λ view. [];
  respond = λ view. in_first_round view (
      record {
        agent = "onlooker";
        target_claim = "c-404";
        stance = support;
        argument = "it was promised";
        citations = [];
        concession = none;
        release = none;
      }
      ∷ []);
}

abbrev calm : Setup
calm = record {
  agents = onlooker ∷ [];
  mediator = none;
  crypto = one_key;
  keypair = tt;
  scenario = dict [];
  private_view = λ name. dict [];
  sha256_of = none;
  max_rounds = 6;
  nonce = λ n. "00112233445566778899aabbccddeeff";
  repr = λ s. s;
}

abbrev has_returned : Result RunResult → Bool
has_returned (ok r) = true
has_returned (err e) = false

abbrev result_of : Result RunResult → RunResult
result_of (ok r) = r
result_of (err e) = run_result calm [] "" 0 false start

returned_result : (x : Result RunResult) → has_returned x ≡ true → x ≡ ok (result_of x)
returned_result (ok r) h = refl
returned_result (err e) h = absurd (ground (arith, h))

calm_returns : has_returned (run calm start).0 ≡ true
unfolding ◌>>=◌ text_discrete sorted on_ledger on_bank append_log try_claim view_for note
    process_target process_position file_positions seal_all commit_all reveal_all
    phase_commit_reveal phase_positions deadlock_json order_of log_deadlocks scan_round rule_on
    mediate finalize_unquiesced play_round play_rounds finish run_result run insert_resource
    insert_claim record_of claim claim_leb claims_with_status blocked_claims granted_claims emit
    emit_each add_resource register_resource apply_ruling_ops add_account add_accounts set_up
    new_bank balance open_contest open_contests replace_all snapshot add_waits wait_graph
    cycle_deadlock report_cycles add_holders contested_claims challenge contested_grants
    report_streaks end_streaks resources_of scan distinct add_targets all_targets graph_of
    visit_roots texts_leb find_cycles pure transaction rescue utf8 open_chain append genesis
    as_number perform perform_all fault_text
calm_returns = refl

calm_is_quiescent : (result_of (run calm start).0).quiescent ≡ true
unfolding ◌>>=◌ text_discrete sorted on_ledger on_bank append_log try_claim view_for note
    process_target process_position file_positions seal_all commit_all reveal_all
    phase_commit_reveal phase_positions deadlock_json order_of log_deadlocks scan_round rule_on
    mediate finalize_unquiesced play_round play_rounds finish run_result run insert_resource
    insert_claim record_of claim claim_leb claims_with_status blocked_claims granted_claims emit
    emit_each add_resource register_resource apply_ruling_ops add_account add_accounts set_up
    new_bank balance open_contest open_contests replace_all snapshot add_waits wait_graph
    cycle_deadlock report_cycles add_holders contested_claims challenge contested_grants
    report_streaks end_streaks resources_of scan distinct add_targets all_targets graph_of
    visit_roots texts_leb find_cycles pure transaction rescue utf8 open_chain append genesis
    as_number perform perform_all fault_text
calm_is_quiescent = refl

run-IsQuiet_example : Quiet (run calm start).1 × ((result_of (run calm start).0).rounds_used ≤ 6)
run-IsQuiet_example =
    run-IsQuiet calm start (result_of (run calm start).0)
      (returned_result (run calm start).0 calm_returns) calm_is_quiescent

run-records_manifest_example : Recorded (result_of (run calm start).0) (run calm start).1
run-records_manifest_example =
    run-records_manifest calm start (result_of (run calm start).0)
      (returned_result (run calm start).0 calm_returns)
