-- ===== src/Airline/Baseline.antt =====
-- tarmac/baseline.py: the single planner, which claims in commercial order without negotiation.
pub mod Choice
use tarmac.Prelude.{
  ℕ, suc, String, Bool, true, false, not, ◌&&◌, ◌||◌, Option, none, some, List, [], ◌∷◌, map, eqb,
  leb, ltb, if◌then◌else◌,
}
use tarmac.Prelude.Int.{ℤ, pos, negsuc}
use tarmac.Prelude.Text.{◌==◌, concat, text_leb, sort_by}
use tarmac.Prelude.Dict.{at_key}
use tarmac.Json.{Json, dict, str, number, bool}
use tarmac.Storage.{Exec, Error, index_error, key_error, pure, raise, gets, expect, ◌>>=◌, ◌>>◌}
use tarmac.ChainLog.{ChainLog, genesis, open_chain}
use tarmac.Schemas.{ClaimProposal}
use tarmac.Ledger.Tables.{Ledger}
use tarmac.Ledger.Queries.{free, manifest, manifest_hash, manifest_json}
use tarmac.Ledger.Allocate.{emit}
use tarmac.Ledger.Methods.{submit_plain}
use tarmac.Ledger.Calls.{new_ledger}
use tarmac.Airline.Scenario.{Flight, Crew, Pax, Scenario, flight_by_id, seat_resource}
use tarmac.Airline.Resources.{ferry_crew_resource, gate_resource, register_resources}

abbrev pub planner : String
planner = "single_planner"

-- _FARE_RANK.get(fare, 9)
unfoldable pub fare_rank : String → ℕ
fare_rank fare =
    if fare == "F"
    then 0
    else if fare == "J"
    then 1
    else if fare == "W"
    then 2
    else if fare == "Y"
    then 3
    else 9

abbrev pub elite_rank : Bool → ℕ
elite_rank true = 0
elite_rank false = 1

-- Python's order of pairs of numbers by the first, then by `later`.
abbrev pub first_then : ℕ → ℕ → Bool → Bool
first_then m n later = ltb m n || (eqb m n && later)

-- commercial_key(p) <= commercial_key(q)
unfoldable pub commercial_leb : Pax → Pax → Bool
commercial_leb p q = first_then (elite_rank p.elite) (elite_rank q.elite) (
    first_then (fare_rank p.fare_class) (fare_rank q.fare_class)
      (leb p.booking_order q.booking_order))

abbrev pub plan_claim : String → String → String → ClaimProposal
plan_claim resource name basis = record {
  agent = planner;
  resource = resource;
  qty = 1;
  beneficiaries = name ∷ [];
  basis = basis;
  revocable = true;
  payload = dict [];
}

unfoldable pub plan_ferry : List Crew → Exec Ledger Unit
plan_ferry [] = raise index_error
plan_ferry (c ∷ cs) =
    submit_plain
      (plan_claim ferry_crew_resource c.id
        "crew the extra ferry section for +50 seats of throughput")
      1
    >> pure tt

abbrev pub departs_before : Flight → Flight → Bool
departs_before f g = first_then f.dep_min g.dep_min (text_leb f.id g.id)

-- One gate for each departure, as far as there are both.
unfoldable pub plan_gates : List String → List Flight → Exec Ledger Unit
plan_gates [] fs = pure tt
plan_gates (g ∷ gs) [] = pure tt
plan_gates (g ∷ gs) (f ∷ fs) =
    submit_plain (plan_claim (gate_resource g) f.id (concat ("gate for " ∷ f.id ∷ []))) 1
    >> plan_gates gs fs

-- The flights of a list of ids; `none` is a KeyError.
unfoldable pub flights_of : List (String × Flight) → List String → Option (List Flight)
flights_of fmap [] = some []
flights_of fmap (fid ∷ fids) =
    let rest = flights_of fmap fids in
    elim (at_key fid fmap) [
      | none ↦ none
      | some f ↦ elim rest [ none ↦ none | some fs ↦ some (record f { id = fid } ∷ fs) ]
    ]

abbrev pub arrives_before : Flight → Flight → Bool
arrives_before f g = first_then f.arr_min g.arr_min (text_leb f.id g.id)

abbrev pub is_left : ℤ → Bool
is_left (pos n) = ltb 0 n
is_left (negsuc n) = false

-- The first flight with a seat left, if there is one.
unfoldable pub plan_seat : String → List Flight → Exec Ledger Unit
plan_seat pax [] = pure tt
plan_seat pax (f ∷ fs) =
    let next = plan_seat pax fs in
    free (seat_resource f.id) >>= λ left.
    if is_left left
    then (submit_plain
          (plan_claim (seat_resource f.id) pax "earliest legal arrival by commercial priority") 1
        >> pure tt)
    else next

unfoldable pub plan_seats : List (String × Flight) → List Pax → Exec Ledger Unit
plan_seats fmap [] = pure tt
plan_seats fmap (p ∷ ps) = expect (flights_of fmap p.legal_flights) key_error >>= λ legal.
    plan_seat p.id (sort_by arrives_before legal) >> plan_seats fmap ps

unfoldable pub emit_manifest : Exec Ledger Unit
emit_manifest = do
  m ← gets manifest
  hash ← gets manifest_hash
  emit "manifest"
      (dict (
        ("manifest", manifest_json m)
        ∷ ("manifest_hash", str hash)
        ∷ ("rounds_used", number 1)
        ∷ ("quiescent", bool true)
        ∷ []))
      1

-- run_single_planner, on the ledger of a fresh database and a log with its genesis entry.
unfoldable pub run_single_planner : Scenario → Exec Ledger Unit
run_single_planner sc = do
  register_resources sc
  plan_ferry sc.crews
  plan_gates sc.gates (sort_by departs_before sc.flights)
  plan_seats (flight_by_id sc) (sort_by commercial_leb sc.pax)
  emit_manifest

abbrev pub planner_ledger : Json → Ledger
planner_ledger header = new_ledger (some (genesis header (open_chain [])).1)
