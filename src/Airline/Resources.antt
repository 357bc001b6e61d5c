-- ===== src/Airline/Resources.antt =====
-- tarmac/run.py: the scarce resources of the storm on a ledger.
use tarmac.Prelude.{String, none, some, List, [], ◌∷◌}
use tarmac.Prelude.Int.{pos}
use tarmac.Prelude.Text.{concat}
use tarmac.Storage.{Exec, pure, ◌>>◌}
use tarmac.Ledger.Tables.{Ledger}
use tarmac.Ledger.Methods.{register_resource}
use tarmac.Airline.Scenario.{Flight, Scenario, seat_resource}

abbrev pub ferry_crew_resource : String
ferry_crew_resource = "crew:FERRY-1"

abbrev pub hotel_resource : String
hotel_resource = "hotel:block"

unfoldable pub gate_resource : String → String
gate_resource gate = concat ("gate:" ∷ gate ∷ [])

unfoldable pub register_seats : List Flight → Exec Ledger Unit
register_seats [] = pure tt
register_seats (f ∷ fs) =
    register_resource (seat_resource f.id) (pos f.seats_free) (some "seat") >> register_seats fs

unfoldable pub register_gates : List String → Exec Ledger Unit
register_gates [] = pure tt
register_gates (g ∷ gs) = register_resource (gate_resource g) (pos 1) none >> register_gates gs

unfoldable pub register_resources : Scenario → Exec Ledger Unit
register_resources sc = do
  register_seats sc.flights
  register_resource ferry_crew_resource (pos 1) none
  register_gates sc.gates
  register_resource hotel_resource (pos sc.hotel_block) (some "hotel")
