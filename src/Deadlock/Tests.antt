-- ===== src/Deadlock/Tests.antt =====
-- Tests of deadlock detection.
use tarmac.Prelude.Text.{insert_by, sort_by, sorted, text_discrete}
use tarmac.Prelude.{◌≡◌, refl, true, none, some, String, List, [], ◌∷◌}
use tarmac.Prelude.Dict.{has_key}
use tarmac.Deadlock.Cycles.Termination.{turns-finish}
use tarmac.Deadlock.Cycles.{
  Graph, Search, fuel_of, enter, find_cycles, add_targets, all_targets, close_component, distinct,
  drop_first, graph_of, leave, lower, pop_until, relax, scan_children, take_off, texts_leb, turn,
  turns, visit, visit_roots,
}
use tarmac.Prelude.Int.{pos}
use tarmac.Json.{dict}
use tarmac.Schemas.{ClaimProposal}
use tarmac.Ledger.Tables.{Ledger}
use tarmac.Ledger.Calls.{register, submit, perform_all, new_ledger}
use tarmac.Deadlock.Detector.{Detector, scan}
use tarmac.Deadlock.Detector.Reports.{Reported, scan-Reported}

abbrev waits : Graph
waits =
    ("ops", "crew" ∷ [])
    ∷ ("rebooking", "ops" ∷ [])
    ∷ ("crew", "advocate" ∷ "rebooking" ∷ [])
    ∷ ("advocate", "advocate" ∷ [])
    ∷ []

waits_cycles : find_cycles waits ≡ ("advocate" ∷ []) ∷ ("crew" ∷ "ops" ∷ "rebooking" ∷ []) ∷ []
unfolding find_cycles sort_by visit_roots sorted graph_of add_targets all_targets distinct
    text_discrete turns turn scan_children drop_first visit leave relax lower close_component
    pop_until take_off texts_leb insert_by enter
waits_cycles = refl

abbrev nothing_found : Search
nothing_found = record {
  index_of = [];
  lowlink = [];
  on_stack = [];
  stack = [];
  counter = 0;
  work = [];
  sccs = [];
}

crew_known : has_key "crew" (graph_of waits) ≡ true
unfolding graph_of sort_by sorted add_targets all_targets distinct text_discrete insert_by
crew_known = refl

turns-finish_example :
    (turns
      (fuel_of (graph_of waits))
      (graph_of waits)
      (record nothing_found { work = ("crew", 0) ∷ [] })).work
    ≡ []
turns-finish_example = turns-finish waits "crew" nothing_found crew_known refl

abbrev bid : String → String → List String → ClaimProposal
bid agent resource names = record {
  agent = agent;
  resource = resource;
  qty = 1;
  beneficiaries = names;
  basis = "standby order";
  revocable = true;
  payload = dict [];
}

-- One seat, claimed by two agents.
abbrev contested_seat : Ledger
contested_seat =
    perform_all
      (register "seat:QW441" (pos 1) (some "seat")
        ∷ submit (bid "rebooking" "seat:QW441" ("P001" ∷ [])) 1
        ∷ submit (bid "advocate" "seat:QW441" ("P002" ∷ [])) 1
        ∷ [])
      (new_ledger none)

-- A detector that has seen the seat contested in the round before.
abbrev second_round : Detector
second_round = record {
  contested_rounds = 2;
  streaks = ("seat:QW441", 1) ∷ [];
  fired = [];
  seq = 0;
}

scan-Reported_example :
    Reported second_round
      (scan contested_seat [] 2 second_round).0
      (scan contested_seat [] 2 second_round).1
scan-Reported_example = scan-Reported contested_seat [] 2 second_round
