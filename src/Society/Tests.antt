-- ===== src/Society/Tests.antt =====
-- Tests of the round engine: two agents, one seat, a mediator whose rulings cite the rule book.
mod Calm
use tarmac.Prelude.{
  ◌≤◌, ◌≡◌, refl, true, not, ◌&&◌, Option, none, some, String, List, [], ◌∷◌, arith, if◌then◌else◌,
  eqb,
}
use tarmac.Prelude.Int.{ℤ, pos}
use tarmac.Prelude.Text.{◌==◌, text_discrete, codes, all_blank}
use tarmac.Json.{dict}
use tarmac.ChainLog.{genesis, append, open_chain, verify_chain, chain_ok}
use tarmac.Storage.{ok}
use tarmac.ChainLog.Accepts.{genesis-IsBuilt}
use tarmac.Schemas.{ClaimProposal, block, grant, revoke}
use tarmac.Schemas.Rulings.{Ruling}
use tarmac.Signing.OneKey.{one_key, one_key-IsLawful}
use tarmac.Ledger.Calls.{Call, register, perform_all, new_ledger}
use tarmac.Ledger.Constraints.{IsConsistent}
use tarmac.Ledger.Safety.{perform_all-Consistent, new_ledger-Consistent}
use tarmac.Currency.Conservation.{IsBalanced}
use tarmac.Currency.Conservation.Books.{fresh_bank, fresh_bank-NoContests, opening}
use tarmac.Verify.Reveals.{cite_entries}
use tarmac.Society.Views.{Agent, AgentView}
use tarmac.Society.State.{Setup, Society}
use tarmac.Society.Run.{run}
use tarmac.Society.Safety.{run-IsSafe}
use tarmac.Society.Citations.{AllCited, SkipsBlank, run-AllCited, run-passes_citation_check}

abbrev bid : String → List String → ClaimProposal
bid agent names = record {
  agent = agent;
  resource = "seat:QW441";
  qty = 1;
  beneficiaries = names;
  basis = "standby order";
  revocable = true;
  payload = dict [];
}

abbrev pub in_first_round : {A : Type 0} → AgentView → List A → List A
in_first_round view items = if eqb view.round 1 then items else []

abbrev rebooking : Agent
rebooking = record {
  name = "rebooking";
  propose = λ view. in_first_round view (bid "rebooking" ("P001" ∷ []) ∷ []);
  respond = λ view. [];
}

abbrev advocate : Agent
advocate = record {
  name = "advocate";
  propose = λ view. in_first_round view (bid "advocate" ("P002" ∷ []) ∷ []);
  respond = λ view. in_first_round view (
      record {
        agent = "advocate";
        target_claim = "c-001";
        stance = block;
        argument = "a passenger of reduced mobility";
        citations = "EU261-11" ∷ [];
        concession = none;
        release = none;
      }
      ∷ []);
}

abbrev decision : Ruling
decision = record {
  deadlock_id = "d-01";
  decision = "advocate";
  rationale = "priority of art. 11";
  citations = "EU261-11" ∷ "EU261-99" ∷ [];
  ops =
      record { op = revoke; claim_id = "c-001"; beneficiaries = none }
      ∷ record { op = grant; claim_id = "c-002"; beneficiaries = none }
      ∷ [];
  winners = "advocate" ∷ [];
  losers = [];
}

abbrev rule_book : String → Option String
rule_book c = if not (all_blank (codes c)) && (c == "EU261-11") then some "5f4dcc3b" else none

abbrev setup : Setup
setup = record {
  agents = rebooking ∷ advocate ∷ [];
  mediator = some (record { rule = λ d ps view. decision; fiat = λ view. decision });
  crypto = one_key;
  keypair = tt;
  scenario = dict [];
  private_view = λ name. dict [];
  sha256_of = some rule_book;
  max_rounds = 6;
  nonce = λ n. "00112233445566778899aabbccddeeff";
  repr = λ s. s;
}

abbrev seats : List Call
seats = register "seat:QW441" (pos 1) (some "seat") ∷ []

abbrev budgets : List (String × ℤ)
budgets = ("advocate", pos 10) ∷ ("rebooking", pos 10) ∷ []

abbrev pub start : Society
start = record {
  ledger = perform_all seats (new_ledger none);
  bank = fresh_bank budgets (pos 2) (pos 1) none;
  detector = record { contested_rounds = 2; streaks = []; fired = []; seq = 0 };
  log = (genesis (dict []) (open_chain [])).1;
  nonces_drawn = 0;
  ruling_seq = 0;
  positions = [];
  deadlocks = [];
  rulings = [];
  reveal_rejections = 0;
}

started : 1 ≤ start.log.length
unfolding genesis open_chain append text_discrete
started = omega arith

start-AllCited : AllCited setup rule_book start.log
unfolding genesis open_chain append text_discrete
start-AllCited = (λ same. absurd (ground (arith, same)), tt)

skips_blank : SkipsBlank rule_book
skips_blank c blank = rw blank refl

run-IsSafe_example :
    let t = (run setup start).1 in
    IsConsistent t.ledger.resources t.ledger.allocations
    × IsBalanced (opening start.bank) start.bank.premium t.bank.balances t.bank.contests
    × (verify_chain t.log.rows ≡ chain_ok t.log.length t.log.head)
run-IsSafe_example =
    run-IsSafe setup start
      (perform_all-Consistent seats (new_ledger none) (new_ledger-Consistent none))
      (fresh_bank-NoContests budgets (pos 2) (pos 1) none)
      ((genesis-IsBuilt (dict [])).chained, started)

run-AllCited_example : AllCited setup rule_book (run setup start).1.log
run-AllCited_example =
    run-AllCited setup rule_book start refl one_key-IsLawful
      (perform_all-Consistent seats (new_ledger none) (new_ledger-Consistent none))
      (fresh_bank-NoContests budgets (pos 2) (pos 1) none) start-AllCited

run-passes_citation_check_example : cite_entries (run setup start).1.log.rows [] ≡ (ok tt, [])
run-passes_citation_check_example =
    run-passes_citation_check setup rule_book start refl one_key-IsLawful skips_blank
      (perform_all-Consistent seats (new_ledger none) (new_ledger-Consistent none))
      (fresh_bank-NoContests budgets (pos 2) (pos 1) none) start-AllCited
