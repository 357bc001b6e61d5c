-- ===== src/Airline/Tests.antt =====
-- Tests of the scenario, the metrics and the planner: two flights, a courier, a connection, a crew.
use tarmac.Prelude.{
  ◌+◌, ◌≤◌, ◌≡◌, refl, true, false, none, some, String, List, [], ◌∷◌, length, countb,
}
use tarmac.Prelude.Int.{pos}
use tarmac.Prelude.Text.{text_discrete}
use tarmac.Json.{dict, str}
use tarmac.Schemas.{ClaimProposal}
use tarmac.Storage.{ok}
use tarmac.ChainLog.{LogEntry}
use tarmac.Ledger.Tables.{Ledger}
use tarmac.Ledger.Calls.{register, submit, perform_all, new_ledger}
use tarmac.Airline.Scenario.{
  Flight, Pax, Scenario, flight_by_id, add_flights, all_valid, valid_pax, arriving_by,
  special_needs_ids, tc_ids,
}
use tarmac.Airline.Metrics.{Metrics, Sla, is_regulated, special_needs_sla, compute_metrics}
use tarmac.Airline.Metrics.Totals.{compute_metrics-totals}

abbrev early : Flight
early = record { id = "QW441"; dep_min = 1150; arr_min = 1240; seats_free = 1; nonstop = true }

abbrev later : Flight
later = record { id = "QW519"; dep_min = 1280; arr_min = 1370; seats_free = 40; nonstop = true }

abbrev courier : Pax
courier = record {
  id = "MED-02";
  flags = "MED" ∷ [];
  fare_class = "Y";
  elite = false;
  flexible = false;
  legal_flights = "QW441" ∷ "QW519" ∷ [];
  tc_cutoff_min = none;
  med_deadline_min = some 1290;
  booking_order = 1;
}

abbrev connection : Pax
connection = record {
  id = "TC-01";
  flags = "TC" ∷ [];
  fare_class = "Y";
  elite = false;
  flexible = false;
  legal_flights = "QW441" ∷ "QW519" ∷ [];
  tc_cutoff_min = some 1380;
  med_deadline_min = none;
  booking_order = 2;
}

abbrev storm : Scenario
storm = record {
  flights = early ∷ later ∷ [];
  block_min = 170;
  brief_min = 45;
  crews = record { id = "C1"; duty_remaining_min = 120 } ∷ [];
  gates = "G1" ∷ [];
  hotel_block = 60;
  um_curfew_dep_min = 1320;
  wchr_arr_limit_min = 1440;
  pax = courier ∷ connection ∷ [];
}

abbrev claim_of : String → String → ClaimProposal
claim_of resource name = record {
  agent = "single_planner";
  resource = resource;
  qty = 1;
  beneficiaries = name ∷ [];
  basis = "throughput";
  revocable = true;
  payload = dict [];
}

abbrev recovered : Ledger
recovered =
    perform_all
      (register "seat:QW441" (pos 1) (some "seat")
        ∷ register "crew:FERRY-1" (pos 1) none
        ∷ submit (claim_of "crew:FERRY-1" "C1") 1
        ∷ submit (claim_of "seat:QW441" "TC-01") 1
        ∷ [])
      (new_ledger none)

storm_IsValid : all_valid (flight_by_id storm) storm.pax ≡ true
unfolding valid_pax flight_by_id add_flights arriving_by text_discrete
storm_IsValid = refl

compute_metrics-totals_example :
    (m : Metrics) × (sla : Sla) × (compute_metrics recovered storm 3 2 true ≡ ok m)
    × (special_needs_sla recovered storm ≡ ok sla)
    × (m.special_needs_failed ≡ sla.failed)
    × (length m.special_needs_failed ≤ m.protected_stranded)
    × (m.protected_stranded ≤ countb is_regulated storm.pax)
    × (m.tight_connections_saved ≤ length (tc_ids storm))
    × (length sla.met + length sla.failed ≡ length (special_needs_ids storm))
compute_metrics-totals_example = compute_metrics-totals recovered storm 3 2 true storm_IsValid

abbrev crewed_log : List LogEntry
crewed_log =
    record {
      seq = 1;
      round = 1;
      kind = "alloc";
      body = dict (
          ("resource", str "crew:FERRY-1")
          ∷ ("beneficiary", str "C1")
          ∷ ("claim_id", str "c-001")
          ∷ []);
      prev_hash = "";
      hash = "";
    }
    ∷ record {
      seq = 2;
      round = 1;
      kind = "alloc";
      body = dict (
          ("resource", str "seat:QW441")
          ∷ ("beneficiary", str "TC-01")
          ∷ ("claim_id", str "c-002")
          ∷ []);
      prev_hash = "";
      hash = "";
    }
    ∷ []

-- What the log replays to.
abbrev crewed_manifest : List (String × List String)
crewed_manifest = ("crew:FERRY-1", "C1" ∷ []) ∷ ("seat:QW441", "TC-01" ∷ []) ∷ []

-- A ledger in which a crew that is short of duty has the ferry, and a passenger a seat.
abbrev crewed : Ledger
crewed = record (new_ledger none) {
  resources =
      record { id = "seat:QW441"; capacity = 1; group = some "seat" }
      ∷ record { id = "seat:QW519"; capacity = 40; group = some "seat" }
      ∷ record { id = "crew:FERRY-1"; capacity = 1; group = none }
      ∷ [];
  allocations =
      record {
        resource = "seat:QW441";
        beneficiary = "TC-01";
        claim_id = "c-002";
        round = 1;
        group = some "seat";
      }
      ∷ record {
        resource = "crew:FERRY-1";
        beneficiary = "C1";
        claim_id = "c-001";
        round = 1;
        group = none;
      }
      ∷ [];
}
