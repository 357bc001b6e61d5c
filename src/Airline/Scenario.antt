-- ===== src/Airline/Scenario.antt =====
-- The scenario, its accessors, and validate_scenario.
use tarmac.Prelude.{
  ℕ, suc, ◌+◌, String, Bool, true, false, not, ◌&&◌, ◌||◌, Option, none, some, List, [], ◌∷◌, map,
  filterb, countb, is_empty, length, eqb, leb, ltb, sumb, if◌then◌else◌,
}
use tarmac.Prelude.Text.{◌==◌, concat, member, sorted, sort_by}
use tarmac.Prelude.Dict.{at_key, has_key, put_key}
use tarmac.Schemas.{all_distinct}

pub record Flight : Type 0 where
  pub id : String
  pub dep_min : ℕ
  pub arr_min : ℕ
  pub seats_free : ℕ
  pub nonstop : Bool

pub record Crew : Type 0 where
  pub id : String
  pub duty_remaining_min : ℕ

-- `none` is None: the deadlines are of couriers and of tight connections.
pub record Pax : Type 0 where
  pub id : String
  pub flags : List String
  pub fare_class : String
  pub elite : Bool
  pub flexible : Bool
  pub legal_flights : List String
  pub tc_cutoff_min : Option ℕ
  pub med_deadline_min : Option ℕ
  pub booking_order : ℕ

-- `block_min` and `brief_min` are the ferry's.
pub record Scenario : Type 0 where
  pub flights : List Flight
  pub block_min : ℕ
  pub brief_min : ℕ
  pub crews : List Crew
  pub gates : List String
  pub hotel_block : ℕ
  pub um_curfew_dep_min : ℕ
  pub wchr_arr_limit_min : ℕ
  pub pax : List Pax

unfoldable pub add_flights : List (String × Flight) → List Flight → List (String × Flight)
add_flights known [] = known
add_flights known (f ∷ fs) = add_flights (put_key f.id f known) fs

-- {f["id"]: f for f in scenario["flights"]}
unfoldable pub flight_by_id : Scenario → List (String × Flight)
unfolding add_flights
flight_by_id sc = add_flights [] sc.flights

unfoldable pub seat_resource : String → String
seat_resource flight = concat ("seat:" ∷ flight ∷ [])

-- any(f in names for f in p["flags"])
abbrev pub has_any : List String → List String → Bool
has_any names [] = false
has_any names (f ∷ fs) = member f names || has_any names fs

abbrev pub special_flags : List String
special_flags = "UM" ∷ "MED" ∷ "WCHR" ∷ []

abbrev pub is_special : Pax → Bool
is_special p = has_any special_flags p.flags

abbrev pub has_flag : String → Pax → Bool
has_flag flag p = member flag p.flags

unfoldable pub special_needs_ids : Scenario → List String
special_needs_ids sc = sorted (map (λ p. p.id) (filterb is_special sc.pax))

unfoldable pub tc_ids : Scenario → List String
tc_ids sc = sorted (map (λ p. p.id) (filterb (has_flag "TC") sc.pax))

unfoldable pub ferry_required_duty : Scenario → ℕ
ferry_required_duty sc = sc.block_min + sc.brief_min

abbrev pub all_short : ℕ → List Crew → Bool
all_short need [] = true
all_short need (c ∷ cs) = ltb c.duty_remaining_min need && all_short need cs

unfoldable pub ferry_is_illegal_for_all_crews : Scenario → Bool
ferry_is_illegal_for_all_crews sc = all_short (ferry_required_duty sc) sc.crews

-- An arrival by a deadline; a comparison with None raises.
abbrev pub within : ℕ → Option ℕ → Option Bool
within arr none = none
within arr (some limit) = some (leb arr limit)

-- The flights of a list that arrive by a deadline; `none` where a comparison raises.
unfoldable pub arriving_by : Option ℕ → List (String × Flight) → List String → Option (List String)
arriving_by limit fmap [] = some []
arriving_by limit fmap (fid ∷ fids) =
    let rest = arriving_by limit fmap fids in
    elim (at_key fid fmap) [
      | none ↦ none
      | some f ↦ elim (within f.arr_min limit) [
        | none ↦ none
        | some soon ↦ elim rest [
          | none ↦ none
          | some kept ↦ some (if soon then fid ∷ kept else kept)
        ]
      ]
    ]

abbrev pub all_in : List String → List String → Bool
all_in names [] = true
all_in names (s ∷ ss) = member s names && all_in names ss

abbrev pub only_qw441 : Option (List String) → Bool
only_qw441 none = false
only_qw441 (some []) = false
only_qw441 (some (fid ∷ [])) = fid == "QW441"
only_qw441 (some (fid ∷ other ∷ rest)) = false

abbrev pub protecting_flights : List String
protecting_flights = "QW441" ∷ "QW519" ∷ []

abbrev pub only_protecting : Option (List String) → Bool
only_protecting none = false
only_protecting (some fids) = all_in protecting_flights fids && all_in fids protecting_flights

abbrev pub all_known : List (String × Flight) → List String → Bool
all_known fmap [] = true
all_known fmap (fid ∷ fids) = has_key fid fmap && all_known fmap fids

-- The assertions on one passenger.
unfoldable pub valid_pax : List (String × Flight) → Pax → Bool
valid_pax fmap p =
    not (is_empty p.legal_flights)
    && all_known fmap p.legal_flights
    && (if has_flag "MED" p
        then only_qw441 (arriving_by p.med_deadline_min fmap p.legal_flights)
        else true)
    && (if has_flag "TC" p
        then only_protecting (arriving_by p.tc_cutoff_min fmap p.legal_flights)
        else true)
    && (p.flexible || not (member "QW777" p.legal_flights))

abbrev pub all_valid : List (String × Flight) → List Pax → Bool
all_valid fmap [] = true
all_valid fmap (p ∷ ps) = valid_pax fmap p && all_valid fmap ps

-- sorted(orders) == list(range(first, first + len(orders)))
abbrev pub counts_from : ℕ → List ℕ → Bool
counts_from first [] = true
counts_from first (n ∷ ns) = eqb n first && counts_from (suc first) ns

abbrev pub supply_shortfall : ℕ
supply_shortfall = 41

-- Whether validate_scenario returns: whether none of its assertions fails and nothing raises.
unfoldable pub validate_scenario : Scenario → Bool
validate_scenario sc =
    eqb (length sc.pax) 180
    && eqb (countb (has_flag "UM") sc.pax) 1
    && eqb (countb (has_flag "MED") sc.pax) 1
    && eqb (countb (has_flag "WCHR") sc.pax) 3
    && eqb (countb (has_flag "TC") sc.pax) 12
    && eqb (countb (λ p. p.elite) sc.pax) 2
    && eqb (length sc.flights) 6
    && eqb (length sc.pax) (sumb (λ f. f.seats_free) sc.flights + supply_shortfall)
    && eqb (length sc.crews) 4
    && ferry_is_illegal_for_all_crews sc
    && eqb sc.hotel_block 60
    && all_distinct (map (λ p. p.id) sc.pax)
    && counts_from 1 (sort_by leb (map (λ p. p.booking_order) sc.pax))
    && all_valid (flight_by_id sc) sc.pax
