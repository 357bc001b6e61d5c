-- ===== src/Airline/Baseline/Choice.antt =====
-- The flight that the single planner picks for a passenger.
use tarmac.Prelude.{
  ◌≤◌, String, ◌≡◌, Bool, true, false, none, some, List, [], ◌∷◌, AllRows, ltb, ◌⊎◌,
}
use tarmac.Storage.{Exec, pure, ◌>>◌}
use tarmac.Ledger.Tables.{Ledger, find_resource, used, is_some}
use tarmac.Ledger.Methods.{submit_plain}
use tarmac.Airline.Scenario.{Flight, seat_resource}
use tarmac.Airline.Baseline.{plan_claim}

abbrev pub Among : {A : Type 0} → A → List A → Type 0
Among a [] = ⊥
Among a (x ∷ xs) = (a ≡ x) ⊎ Among a xs

abbrev pub is_registered : Ledger → Flight → Bool
is_registered l f = is_some (find_resource (seat_resource f.id) l)

-- Fewer units of the flight's seats are allocated than it has.
abbrev pub has_room : Ledger → Flight → Bool
has_room l f = elim (find_resource (seat_resource f.id) l) [
  | none ↦ false
  | some res ↦ ltb (used (seat_resource f.id) l) res.capacity
]

-- A flight of the list that has room, and arrives no later than any other that has.
pub record Earliest (l : Ledger) (fs : List Flight) (f : Flight) : Type 0 where
  pub legal : Among f fs
  pub room : has_room l f ≡ true
  pub earliest : AllRows (λ g. has_room l g ≡ true → f.arr_min ≤ g.arr_min) fs

abbrev pub claim_seat : String → Flight → Exec Ledger Unit
claim_seat pax f =
    submit_plain
      (plan_claim (seat_resource f.id) pax "earliest legal arrival by commercial priority") 1
    >> pure tt

-- Flights in the order of their arrivals.
abbrev InOrder : List Flight → Type 0
InOrder [] = Unit
InOrder (f ∷ fs) = AllRows (λ g. f.arr_min ≤ g.arr_min) fs × InOrder fs
