-- ===== src/Airline/Metrics.antt =====
-- The outcome metrics of a run: seats, regulated service levels, and crew duty.
pub mod Returns
pub mod Totals
pub mod Duty
use Prim.Native.Char.{code}
use tarmac.Prelude.{
  ℕ, suc, ◌+◌, String, Bool, true, false, not, ◌&&◌, ◌||◌, Option, none, some, List, [], ◌∷◌, ◌++◌,
  map, is_empty, length, eqb, leb, ltb, countb, if◌then◌else◌,
}
use tarmac.Prelude.Int.{ℤ, sub_ℕ}
use tarmac.Prelude.Text.{◌==◌, member, sorted, sort_by, concat, show_ℕ}
use tarmac.Prelude.Dict.{at_key, at_key_or, put_key}
use tarmac.Storage.{Result, ok, err, Error, type_error, key_error}
use tarmac.ChainLog.{LogEntry}
use tarmac.Ledger.Tables.{Ledger}
use tarmac.Ledger.Queries.{allocations_by_resource}
use tarmac.Verify.Checks.{Check, none_of, entry_leb}
use tarmac.Verify.Replay.{replay_manifest}
use tarmac.Airline.Scenario.{
  Flight, Crew, Pax, Scenario, flight_by_id, ferry_required_duty, has_any, has_flag, special_flags,
  is_special,
}

abbrev pub same_day_arr_cutoff : ℕ
same_day_arr_cutoff = 1440

-- A part that raises ends the whole.
unfoldable pub on_ok : {A B : Type 0} → Result A → (A → Result B) → Result B
on_ok (ok a) f = f a
on_ok (err e) f = err e

-- What follows the prefix of a text that starts with it.
unfoldable pub after_prefix : String → String → Option String
after_prefix String.[] s = some s
after_prefix (String.◌∷◌ c p) String.[] = none
after_prefix (String.◌∷◌ c p) (String.◌∷◌ d s) =
    let rest = after_prefix p s in if eqb (code c) (code d) then rest else none

-- A passenger's id and the flight, in the order of insertion.
abbrev pub Assignment : Type 0
Assignment = List (String × String)

abbrev pub seat_all : String → Assignment → List (String × String) → Assignment
seat_all fid out [] = out
seat_all fid out ((beneficiary, claim) ∷ pairs) = seat_all fid (put_key beneficiary fid out) pairs

-- The seats of one resource, if it is a seat of a flight of the scenario.
unfoldable pub seat_entry :
    List String → Assignment → Option String → List (String × String) → Assignment
seat_entry fids out none pairs = out
seat_entry fids out (some fid) pairs = if member fid fids then seat_all fid out pairs else out

abbrev pub seat_entries :
    List String → Assignment → List (String × List (String × String)) → Assignment
seat_entries fids out [] = out
seat_entries fids out ((resource, pairs) ∷ rest) =
    seat_entries fids (seat_entry fids out (after_prefix "seat:" resource) pairs) rest

unfoldable pub seat_assignment : Ledger → Scenario → Assignment
seat_assignment l sc = seat_entries (map (λ f. f.id) sc.flights) [] (allocations_by_resource l)

-- arr <= limit; a comparison with None is a TypeError.
unfoldable pub arrives_by : ℕ → Option ℕ → Result Bool
arrives_by arr none = err type_error
arrives_by arr (some limit) = ok (leb arr limit)

unfoldable pub flight_protects : Scenario → Pax → Flight → Result Bool
flight_protects sc p f =
    if has_flag "MED" p
    then arrives_by f.arr_min p.med_deadline_min
    else if has_flag "UM" p
    then ok (f.nonstop && leb f.dep_min sc.um_curfew_dep_min)
    else if has_flag "WCHR" p
    then ok (f.nonstop && leb f.arr_min sc.wchr_arr_limit_min)
    else if has_flag "TC" p
    then arrives_by f.arr_min p.tc_cutoff_min
    else ok (leb f.arr_min same_day_arr_cutoff)

-- fid is not None and flight_protects(scenario, p, fmap[fid])
unfoldable pub protected_by : Scenario → Pax → Option String → Result Bool
protected_by sc p none = ok false
protected_by sc p (some fid) = elim (at_key fid (flight_by_id sc)) [
  | none ↦ err key_error
  | some f ↦ flight_protects sc p f
]

unfoldable pub is_protected : Ledger → Scenario → Pax → Result Bool
is_protected l sc p = protected_by sc p (at_key p.id (seat_assignment l sc))

abbrev pub duty_of : List Crew → List (String × ℕ) → List (String × ℕ)
duty_of [] known = known
duty_of (c ∷ cs) known = duty_of cs (put_key c.id c.duty_remaining_min known)

-- duty.get(crew_id, 0)
abbrev pub duty_left : Scenario → String → ℕ
duty_left sc crew = at_key_or 0 crew (duty_of sc.crews [])

-- duty.get(crew_id, 0) < required
unfoldable pub exceeds_duty : Scenario → String → Bool
exceeds_duty sc crew = ltb (duty_left sc crew) (ferry_required_duty sc)

abbrev pub is_crew_resource : String → Bool
is_crew_resource r = elim (after_prefix "crew:" r) [ none ↦ false | some _ ↦ true ]

abbrev pub count_violations : Scenario → List (String × List (String × String)) → ℕ
count_violations sc [] = 0
count_violations sc ((resource, pairs) ∷ rest) =
    (if is_crew_resource resource then countb (λ pair. exceeds_duty sc pair.0) pairs else 0)
    + count_violations sc rest

-- I2
unfoldable pub crew_violations : Ledger → Scenario → ℕ
crew_violations l sc = count_violations sc (allocations_by_resource l)

-- f"{b} on {res} ({duty.get(b, 0)} < {required} min)"
unfoldable pub duty_text : Scenario → String → String → String
duty_text sc resource b = concat (
    b
    ∷ " on "
    ∷ resource
    ∷ " ("
    ∷ show_ℕ (duty_left sc b)
    ∷ " < "
    ∷ show_ℕ (ferry_required_duty sc)
    ∷ " min)"
    ∷ [])

-- The offenders of one resource, and of all of them.
abbrev pub over_duty : Scenario → String → List String → List String
over_duty sc resource [] = []
over_duty sc resource (b ∷ bs) =
    if exceeds_duty sc b
    then duty_text sc resource b ∷ over_duty sc resource bs
    else over_duty sc resource bs

abbrev pub all_over_duty : Scenario → List (String × List String) → List String
all_over_duty sc [] = []
all_over_duty sc ((resource, bs) ∷ rest) =
    (if is_crew_resource resource then over_duty sc resource bs else []) ++ all_over_duty sc rest

-- crew_duty_check(scenario), a domain check of the auditor's; what replay_manifest raises, it raises.
unfoldable pub crew_duty_check : Scenario → List LogEntry → Result Check
crew_duty_check sc entries =
    on_ok (replay_manifest entries)
      (λ m. ok (none_of "I2.crew_duty" (all_over_duty sc (sort_by entry_leb m))))

pub record Sla : Type 0 where
  pub met : List String
  pub failed : List String

abbrev pub add_outcome : String → Bool → Sla → Sla
add_outcome id protected s =
    if protected then record s { met = id ∷ s.met } else record s { failed = id ∷ s.failed }

-- The special passengers of a list, by whether their service level is met.
unfoldable pub judge_all : Ledger → Scenario → List Pax → Result Sla
judge_all l sc [] = ok (record { met = []; failed = [] })
judge_all l sc (p ∷ ps) =
    let rest = judge_all l sc ps in
    if is_special p
    then on_ok (is_protected l sc p)
        (λ protected. on_ok rest (λ s. ok (add_outcome p.id protected s)))
    else rest

-- special_needs_sla: `total` is the number of both.
unfoldable pub special_needs_sla : Ledger → Scenario → Result Sla
special_needs_sla l sc =
    on_ok (judge_all l sc sc.pax)
      (λ s. ok (record { met = sorted s.met; failed = sorted s.failed }))

pub record Tally : Type 0 where
  pub stranded : ℕ
  pub saved : ℕ

abbrev pub is_regulated : Pax → Bool
is_regulated p = is_special p || has_flag "TC" p

abbrev pub add_protection : Pax → Bool → Tally → Tally
add_protection p protected t = record {
  stranded = (if protected then 0 else 1) + t.stranded;
  saved = (if has_flag "TC" p && protected then 1 else 0) + t.saved;
}

unfoldable pub tally : Ledger → Scenario → List Pax → Result Tally
tally l sc [] = ok (record { stranded = 0; saved = 0 })
tally l sc (p ∷ ps) =
    let rest = tally l sc ps in
    if is_regulated p
    then on_ok (is_protected l sc p)
        (λ protected. on_ok rest (λ t. ok (add_protection p protected t)))
    else rest

unfoldable pub count_same_day : List (String × Flight) → Assignment → Result ℕ
count_same_day fmap [] = ok 0
count_same_day fmap ((pid, fid) ∷ rest) =
    let later = count_same_day fmap rest in
    elim (at_key fid fmap) [
      | none ↦ err key_error
      | some f ↦ on_ok later (λ n. ok ((if leb f.arr_min same_day_arr_cutoff then 1 else 0) + n))
    ]

-- The metrics row, without the percentage, which is a float.
pub record Metrics : Type 0 where
  pub stranded_overnight : ℤ
  pub unseated : ℤ
  pub not_same_day : ℤ
  pub seated : ℕ
  pub same_day_recovered : ℕ
  pub protected_stranded : ℕ
  pub tight_connections_saved : ℕ
  pub special_needs_failed : List String
  pub crew_violations : ℕ
  pub rounds_to_quiescence : ℕ
  pub quiescent : Bool
  pub contest_spend : ℕ

unfoldable pub metrics_of : Ledger → Scenario → ℕ → ℕ → Bool → ℕ → Tally → Sla → Metrics
metrics_of l sc rounds spend quiescent same_day t sla =
    let seated = length (seat_assignment l sc) in
    record {
      stranded_overnight = sub_ℕ (length sc.pax) seated;
      unseated = sub_ℕ (length sc.pax) seated;
      not_same_day = sub_ℕ (length sc.pax) same_day;
      seated = seated;
      same_day_recovered = same_day;
      protected_stranded = t.stranded;
      tight_connections_saved = t.saved;
      special_needs_failed = sla.failed;
      crew_violations = crew_violations l sc;
      rounds_to_quiescence = rounds;
      quiescent = quiescent;
      contest_spend = spend;
    }

unfoldable pub compute_metrics : Ledger → Scenario → ℕ → ℕ → Bool → Result Metrics
compute_metrics l sc rounds spend quiescent =
    on_ok (count_same_day (flight_by_id sc) (seat_assignment l sc)) (λ same_day.
      on_ok (tally l sc sc.pax) (λ t.
        on_ok (special_needs_sla l sc)
          (λ sla. ok (metrics_of l sc rounds spend quiescent same_day t sla))))
