-- ===== src/Airline/Metrics/Returns.antt =====
-- The metrics of a scenario whose passengers meet their assertions raise nothing.
use tarmac.Prelude.{
  ℕ, ◌+◌, String, ◌≡◌, refl, ap, subst, Bool, true, false, Option, none, some, List, [], ◌∷◌, map,
  is_empty, leb, AllRows, arith, if◌then◌else◌, inl, inr, Bool-cases, Option-cases,
}
use tarmac.Prelude.Text.{◌==◌, member}
use tarmac.Prelude.Dict.{at_key, put_key}
use tarmac.Storage.{ok}
use tarmac.Ledger.Tables.{Ledger}
use tarmac.Ledger.Queries.{allocations_by_resource}
use tarmac.Airline.Scenario.{
  Flight, Pax, Scenario, flight_by_id, add_flights, has_flag, arriving_by, only_qw441,
  only_protecting, valid_pax,
}
use tarmac.Airline.Metrics.{
  on_ok, Assignment, seat_all, seat_entry, seat_entries, seat_assignment, after_prefix, arrives_by,
  flight_protects, protected_by, is_protected, count_same_day, same_day_arr_cutoff,
}

-- Every seat that is assigned is on a flight that the table has.
abbrev Known : List (String × Flight) → Assignment → Type 0
Known fmap out = AllRows (λ entry. (f : Flight) × (at_key entry.1 fmap ≡ some f)) out

Known-put_key :
    (fmap : List (String × Flight)) (b fid : String) (f : Flight) (out : Assignment)
    → at_key fid fmap ≡ some f
    → Known fmap out
    → Known fmap (put_key b fid out)
Known-put_key fmap b fid f [] at h = ((f, at), tt)
Known-put_key fmap b fid f ((i, e) ∷ out) at (first, h) = elim (Bool-cases (i == b)) [
  | inl same ↦ rw same ((f, at), h)
  | inr other ↦ rw other (first, Known-put_key fmap b fid f out at h)
]

Known-seat_all :
    (fmap : List (String × Flight)) (fid : String) (f : Flight) (out : Assignment)
    (pairs : List (String × String))
    → at_key fid fmap ≡ some f
    → Known fmap out
    → Known fmap (seat_all fid out pairs)
Known-seat_all fmap fid f out [] at h = h
Known-seat_all fmap fid f out ((b, c) ∷ pairs) at h =
    Known-seat_all fmap fid f (put_key b fid out) pairs at (Known-put_key fmap b fid f out at h)

module _ (fids : List String) (fmap : List (String × Flight))
    (listed : (fid : String)
      → member fid fids ≡ true
      → (f : Flight) × (at_key fid fmap ≡ some f)) where
  Known-seat_entry :
      (out : Assignment) (o : Option String) (pairs : List (String × String))
      → Known fmap out
      → Known fmap (seat_entry fids out o pairs)
  unfolding seat_entry
  Known-seat_entry out none pairs h = h
  Known-seat_entry out (some fid) pairs h = elim (Bool-cases (member fid fids)) [
    | inl there ↦
        rw there (let (f, at) = listed fid there in Known-seat_all fmap fid f out pairs at h)
    | inr missing ↦ rw missing h
  ]

  Known-seat_entries :
      (out : Assignment) (entries : List (String × List (String × String)))
      → Known fmap out
      → Known fmap (seat_entries fids out entries)
  Known-seat_entries out [] h = h
  Known-seat_entries out ((resource, pairs) ∷ rest) h =
      Known-seat_entries (seat_entry fids out (after_prefix "seat:" resource) pairs) rest
        (Known-seat_entry out (after_prefix "seat:" resource) pairs h)

Known-at_key :
    (fmap : List (String × Flight)) (k fid : String) (out : Assignment)
    → Known fmap out
    → at_key k out ≡ some fid
    → (f : Flight) × (at_key fid fmap ≡ some f)
Known-at_key fmap k fid [] h at = absurd (ground (arith, at))
Known-at_key fmap k fid ((i, e) ∷ out) ((f, first), h) at = elim (Bool-cases (i == k)) [
  | inl same ↦ (f, ground (arith, at, same, first))
  | inr other ↦ Known-at_key fmap k fid out h (ground (arith, at, other))
]

pub count_same_day-returns :
    (fmap : List (String × Flight)) (out : Assignment)
    → Known fmap out
    → (n : ℕ) × (count_same_day fmap out ≡ ok n)
unfolding count_same_day on_ok
count_same_day-returns fmap [] h = (0, refl)
count_same_day-returns fmap ((pid, fid) ∷ out) ((f, at), h) =
    let (n, later) = count_same_day-returns fmap out h in
    ((if leb f.arr_min same_day_arr_cutoff then 1 else 0) + n, rw (count_same_day, at, later) refl)

-- A key that a table has.
abbrev Has : {V : Type 0} → String → List (String × V) → Type 0
Has {V} k known = (v : V) × (at_key k known ≡ some v)

Has-put_key :
    {V : Type 0} (k j : String) (v : V) (known : List (String × V))
    → Has k known
    → Has k (put_key j v known)
Has-put_key k j v [] (w, at) = absurd (ground (arith, at))
Has-put_key k j v ((i, e) ∷ known) (w, at) = elim (Bool-cases (i == j)) [
  | inl same ↦ rw same (elim (Bool-cases (i == k)) [
    | inl here ↦ (v, rw (at_key, here) refl)
    | inr there ↦ (w, rw (at_key, there) (ground (arith, at, there)))
  ])
  | inr other ↦ rw other (elim (Bool-cases (i == k)) [
    | inl here ↦ (e, rw (at_key, here) refl)
    | inr there ↦
        let (x, later) = Has-put_key k j v known (w, ground (arith, at, there)) in
        (x, rw (at_key, there) later)
  ])
]

Has-put : {V : Type 0} (j : String) (v : V) (known : List (String × V)) → Has j (put_key j v known)
Has-put j v [] = (v, ground arith)
Has-put j v ((i, e) ∷ known) = elim (Bool-cases (i == j)) [
  | inl same ↦ rw same (v, rw (at_key, same) refl)
  | inr other ↦ rw other (let (w, at) = Has-put j v known in (w, rw (at_key, other) at))
]

Has-add_flights :
    (k : String) (known : List (String × Flight)) (fs : List Flight)
    → Has k known
    → Has k (add_flights known fs)
unfolding add_flights
Has-add_flights k known [] h = h
Has-add_flights k known (f ∷ fs) h =
    Has-add_flights k (put_key f.id f known) fs (Has-put_key k f.id f known h)

listed_flight :
    (k : String) (known : List (String × Flight)) (fs : List Flight)
    → member k (map (λ f. f.id) fs) ≡ true
    → Has k (add_flights known fs)
unfolding add_flights
listed_flight k known [] h = absurd (ground (arith, h))
listed_flight k known (f ∷ fs) h = elim (Bool-cases (k == f.id)) [
  | inl same ↦
      let eq : k ≡ f.id = ground (arith, same) in
      Has-add_flights k (put_key f.id f known) fs
        (subst (λ x. Has k (put_key x f known)) eq (Has-put k f known))
  | inr other ↦ listed_flight k (put_key f.id f known) fs (ground (arith, h, other))
]

arriving_by-none :
    (fmap : List (String × Flight)) (fids : List String)
    → is_empty fids ≡ false
    → arriving_by none fmap fids ≡ none
unfolding arriving_by
arriving_by-none fmap [] h = absurd (ground (arith, h))
arriving_by-none fmap (fid ∷ fids) h = elim (Option-cases (at_key fid fmap)) [
  | inl missing ↦ rw (arriving_by, missing) refl
  | inr (f, there) ↦ rw (arriving_by, there) refl
]

some_deadline :
    (fmap : List (String × Flight)) (p : Pax) (o : Option ℕ)
    → is_empty p.legal_flights ≡ false
    → only_qw441 (arriving_by o fmap p.legal_flights) ≡ true
    → (n : ℕ) × (o ≡ some n)
some_deadline fmap p none legal h =
    absurd (ground (arith, ap only_qw441 (arriving_by-none fmap p.legal_flights legal), h))
some_deadline fmap p (some n) legal h = (n, refl)

some_cutoff :
    (fmap : List (String × Flight)) (p : Pax) (o : Option ℕ)
    → is_empty p.legal_flights ≡ false
    → only_protecting (arriving_by o fmap p.legal_flights) ≡ true
    → (n : ℕ) × (o ≡ some n)
some_cutoff fmap p none legal h =
    absurd (ground (arith, ap only_protecting (arriving_by-none fmap p.legal_flights legal), h))
some_cutoff fmap p (some n) legal h = (n, refl)

-- What the assertions say of a passenger whose flights' arrivals are compared with a deadline.
record HasDeadlines (p : Pax) : Type 0 where
  courier : has_flag "MED" p ≡ true → (n : ℕ) × (p.med_deadline_min ≡ some n)
  connection : has_flag "TC" p ≡ true → (n : ℕ) × (p.tc_cutoff_min ≡ some n)

valid_pax-HasDeadlines :
    (fmap : List (String × Flight)) (p : Pax) → valid_pax fmap p ≡ true → HasDeadlines p
unfolding valid_pax
valid_pax-HasDeadlines fmap p h = record {
  courier =
      λ med. some_deadline fmap p p.med_deadline_min (ground (arith, h)) (ground (arith, h, med));
  connection = λ tc. some_cutoff fmap p p.tc_cutoff_min (ground (arith, h)) (ground (arith, h, tc));
}

arrives_by-returns :
    (arr : ℕ) (o : Option ℕ) (n : ℕ) → o ≡ some n → (b : Bool) × (arrives_by arr o ≡ ok b)
unfolding arrives_by
arrives_by-returns arr o n at = (leb arr n, rw (arrives_by, at) refl)

flight_protects-returns :
    (sc : Scenario) (p : Pax) (f : Flight)
    → HasDeadlines p
    → (b : Bool) × (flight_protects sc p f ≡ ok b)
unfolding flight_protects
flight_protects-returns sc p f h = elim (Bool-cases (has_flag "MED" p)) [
  | inl med ↦
      rw med (let (n, at) = h.courier med in arrives_by-returns f.arr_min p.med_deadline_min n at)
  | inr no_med ↦ rw no_med (elim (Bool-cases (has_flag "UM" p)) [
    | inl um ↦ rw um (_, refl)
    | inr no_um ↦ rw no_um (elim (Bool-cases (has_flag "WCHR" p)) [
      | inl wchr ↦ rw wchr (_, refl)
      | inr no_wchr ↦ rw no_wchr (elim (Bool-cases (has_flag "TC" p)) [
        | inl tc ↦
            rw tc
              (let (n, at) = h.connection tc in arrives_by-returns f.arr_min p.tc_cutoff_min n at)
        | inr no_tc ↦ rw no_tc (_, refl)
      ])
    ])
  ])
]

seat_assignment-Known :
    (l : Ledger) (sc : Scenario) → Known (flight_by_id sc) (seat_assignment l sc)
unfolding seat_assignment flight_by_id
seat_assignment-Known l sc =
    Known-seat_entries (map (λ f. f.id) sc.flights) (add_flights [] sc.flights)
      (λ fid there. listed_flight fid [] sc.flights there) [] (allocations_by_resource l) tt

protected_by-returns :
    (sc : Scenario) (p : Pax) (o : Option String) (out : Assignment)
    → HasDeadlines p
    → Known (flight_by_id sc) out
    → at_key p.id out ≡ o
    → (b : Bool) × (protected_by sc p o ≡ ok b)
unfolding protected_by
protected_by-returns sc p none out h known at = (false, refl)
protected_by-returns sc p (some fid) out h known at =
    let (f, there) = Known-at_key (flight_by_id sc) p.id fid out known at in
    rw (protected_by, there) (flight_protects-returns sc p f h)

pub is_protected-returns :
    (l : Ledger) (sc : Scenario) (p : Pax)
    → valid_pax (flight_by_id sc) p ≡ true
    → (b : Bool) × (is_protected l sc p ≡ ok b)
unfolding is_protected
is_protected-returns l sc p h =
    protected_by-returns sc p (at_key p.id (seat_assignment l sc)) (seat_assignment l sc)
      (valid_pax-HasDeadlines (flight_by_id sc) p h) (seat_assignment-Known l sc) refl

pub same_day_returns :
    (l : Ledger) (sc : Scenario)
    → (n : ℕ) × (count_same_day (flight_by_id sc) (seat_assignment l sc) ≡ ok n)
same_day_returns l sc =
    count_same_day-returns (flight_by_id sc) (seat_assignment l sc) (seat_assignment-Known l sc)
