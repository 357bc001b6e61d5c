-- ===== src/Ledger/Tests.antt =====
-- Tests of the ledger, and its theorems at concrete histories.
use tarmac.Prelude.{List, [], ◌∷◌, none, some, true, String}
use tarmac.Prelude.Int.{pos}
use tarmac.Json.{dict}
use tarmac.Schemas.{ClaimProposal, revoke, grant}
use tarmac.Ledger.Calls.{Call, register, submit, rule, perform_all, new_ledger}
use tarmac.Ledger.Constraints.{IsConsistent}
use tarmac.Ledger.Safety.{perform_all-IsConsistent}

abbrev bid : String → String → List String → ClaimProposal
bid agent resource names = record {
  agent = agent;
  resource = resource;
  qty = 1;
  beneficiaries = names;
  basis = "standby order";
  revocable = true;
  payload = dict [];
}

-- Two seats; the second claim is blocked until a ruling revokes the first.
abbrev history : List Call
history =
    register "seat:QW441" (pos 1) (some "seat")
    ∷ submit (bid "rebooking" "seat:QW441" ("P001" ∷ [])) 1
    ∷ submit (bid "advocate" "seat:QW441" ("P002" ∷ [])) 1
    ∷ rule
        (record { op = revoke; claim_id = "c-001"; beneficiaries = none }
          ∷ record { op = grant; claim_id = "c-002"; beneficiaries = none }
          ∷ [])
        "r-01" 2
    ∷ []

perform_all-IsConsistent_example :
    let l = perform_all history (new_ledger none) in IsConsistent l.resources l.allocations
perform_all-IsConsistent_example = perform_all-IsConsistent history none
