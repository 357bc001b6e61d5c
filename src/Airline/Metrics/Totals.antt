-- ===== src/Airline/Metrics/Totals.antt =====
-- The metrics of a scenario whose passengers meet their assertions are computed, and add up.
use tarmac.Prelude.{
  ℕ, suc, ◌+◌, ◌≤◌, ◌≡◌, refl, ◌∙◌, ap, Bool, true, false, List, [], ◌∷◌, map, filterb, length,
  countb, arith, inl, inr, Bool-cases,
}
use tarmac.Prelude.Text.{sorted, sort_by, insert_by, text_leb}
use tarmac.Storage.{Result, ok}
use tarmac.Ledger.Tables.{Ledger}
use tarmac.Airline.Scenario.{
  Pax, Scenario, flight_by_id, has_flag, is_special, tc_ids, special_needs_ids, all_valid,
}
use tarmac.Airline.Metrics.{
  on_ok, is_protected, Sla, add_outcome, judge_all, special_needs_sla, Tally, is_regulated,
  add_protection, tally, Metrics, metrics_of, compute_metrics,
}
use tarmac.Airline.Metrics.Returns.{is_protected-returns, same_day_returns}

on_ok_of : {A B : Type 0} (r : Result A) (f : A → Result B) (a : A) → r ≡ ok a → on_ok r f ≡ f a
unfolding on_ok
on_ok_of r f a at = ap (λ x. on_ok x f) at

length-insert_by :
    {A : Type 0} (le : A → A → Bool) (x : A) (xs : List A)
    → length (insert_by le x xs) ≡ suc (length xs)
unfolding insert_by
length-insert_by le x [] = refl
length-insert_by le x (y ∷ ys) = ground (arith, length-insert_by le x ys)

length-sort_by : {A : Type 0} (le : A → A → Bool) (xs : List A) → length (sort_by le xs) ≡ length xs
unfolding sort_by
length-sort_by le [] = refl
length-sort_by le (x ∷ xs) = length-insert_by le x (sort_by le xs) ∙ ap suc (length-sort_by le xs)

length-ids :
    (p : Pax → Bool) (ps : List Pax) → length (map (λ x. x.id) (filterb p ps)) ≡ countb p ps
length-ids p [] = refl
length-ids p (x ∷ ps) = ground (arith, length-ids p ps)

-- What the two loops over the passengers give, and how their counts compare.
record Totals (l : Ledger) (sc : Scenario) (ps : List Pax) : Type 0 where
  sla : Sla
  counts : Tally
  judged : judge_all l sc ps ≡ ok sla
  tallied : tally l sc ps ≡ ok counts
  all_special : length sla.met + length sla.failed ≡ countb is_special ps
  failed_stranded : length sla.failed ≤ counts.stranded
  stranded_regulated : counts.stranded ≤ countb is_regulated ps
  saved_connections : counts.saved ≤ countb (has_flag "TC") ps

-- A passenger that neither loop looks at.
Totals-skip :
    (l : Ledger) (sc : Scenario) (p : Pax) (ps : List Pax)
    → is_regulated p ≡ false
    → Totals l sc ps
    → Totals l sc (p ∷ ps)
unfolding judge_all tally
Totals-skip l sc p ps other h =
    let not_special : is_special p ≡ false = ground (arith, other) in
    let no_connection : has_flag "TC" p ≡ false = ground (arith, other) in
    record {
      sla = h.sla;
      counts = h.counts;
      judged = rw not_special h.judged;
      tallied = rw (not_special, no_connection) h.tallied;
      all_special = rw not_special h.all_special;
      failed_stranded = h.failed_stranded;
      stranded_regulated = rw (not_special, no_connection) h.stranded_regulated;
      saved_connections = rw no_connection h.saved_connections;
    }

Totals-connection :
    (l : Ledger) (sc : Scenario) (p : Pax) (ps : List Pax) (b : Bool)
    → is_special p ≡ false
    → has_flag "TC" p ≡ true
    → is_protected l sc p ≡ ok b
    → Totals l sc ps
    → Totals l sc (p ∷ ps)
unfolding judge_all tally on_ok
Totals-connection l sc p ps b not_special connection at h = record {
  sla = h.sla;
  counts = add_protection p b h.counts;
  judged = rw not_special h.judged;
  tallied = rw (not_special, connection, at, h.tallied) refl;
  all_special = rw not_special h.all_special;
  failed_stranded = ground (arith, h.failed_stranded);
  stranded_regulated = ground (arith, h.stranded_regulated, not_special, connection);
  saved_connections = ground (arith, h.saved_connections, connection);
}

Totals-special :
    (l : Ledger) (sc : Scenario) (p : Pax) (ps : List Pax) (b : Bool)
    → is_special p ≡ true
    → is_protected l sc p ≡ ok b
    → Totals l sc ps
    → Totals l sc (p ∷ ps)
unfolding judge_all tally on_ok
Totals-special l sc p ps b special at h = record {
  sla = add_outcome p.id b h.sla;
  counts = add_protection p b h.counts;
  judged = rw (special, at, h.judged) refl;
  tallied = rw (special, at, h.tallied) refl;
  all_special = ground (arith, h.all_special, special);
  failed_stranded = ground (arith, h.failed_stranded);
  stranded_regulated = ground (arith, h.stranded_regulated, special);
  saved_connections = ground (arith, h.saved_connections);
}

both_loops :
    (l : Ledger) (sc : Scenario) (ps : List Pax)
    → all_valid (flight_by_id sc) ps ≡ true
    → Totals l sc ps
unfolding judge_all tally
both_loops l sc [] h = record {
  sla = record { met = []; failed = [] };
  counts = record { stranded = 0; saved = 0 };
  judged = refl;
  tallied = refl;
  all_special = refl;
  failed_stranded = omega arith;
  stranded_regulated = omega arith;
  saved_connections = omega arith;
}
both_loops l sc (p ∷ ps) h =
    let rest = both_loops l sc ps (ground (arith, h)) in
    let (b, at) = is_protected-returns l sc p (ground (arith, h)) in
    elim (Bool-cases (is_special p)) [
      | inl special ↦ Totals-special l sc p ps b special at rest
      | inr not_special ↦ elim (Bool-cases (has_flag "TC" p)) [
        | inl connection ↦ Totals-connection l sc p ps b not_special connection at rest
        | inr no_connection ↦
            Totals-skip l sc p ps (ground (arith, not_special, no_connection)) rest
      ]
    ]

-- For a scenario whose passengers meet their assertions, and any ledger: compute_metrics raises
-- nothing and returns metrics in which the special passengers whose service level is missed are at
-- most the stranded protected ones, these are at most the passengers with a regulated flag, the
-- tight connections saved are at most all tight connections; and the two lists of
-- special_needs_sla have together as many passengers as special_needs_ids.
pub compute_metrics-totals :
    (l : Ledger) (sc : Scenario) (rounds spend : ℕ) (quiescent : Bool)
    → all_valid (flight_by_id sc) sc.pax ≡ true
    → (m : Metrics) × (sla : Sla) × (compute_metrics l sc rounds spend quiescent ≡ ok m)
      × (special_needs_sla l sc ≡ ok sla)
      × (m.special_needs_failed ≡ sla.failed)
      × (length m.special_needs_failed ≤ m.protected_stranded)
      × (m.protected_stranded ≤ countb is_regulated sc.pax)
      × (m.tight_connections_saved ≤ length (tc_ids sc))
      × (length sla.met + length sla.failed ≡ length (special_needs_ids sc))
unfolding compute_metrics special_needs_sla on_ok tc_ids special_needs_ids metrics_of sorted
compute_metrics-totals l sc rounds spend quiescent h =
    let totals = both_loops l sc sc.pax h in
    let (n, counted) = same_day_returns l sc in
    let sla : Sla = record { met = sorted totals.sla.met; failed = sorted totals.sla.failed } in
    (
      metrics_of l sc rounds spend quiescent n totals.counts sla,
      sla,
      rw (counted, totals.tallied, totals.judged) refl,
      rw totals.judged refl,
      refl,
      omega (arith, length-sort_by text_leb totals.sla.failed, totals.failed_stranded),
      totals.stranded_regulated,
      omega (
        arith,
        totals.saved_connections,
        length-sort_by text_leb (map (λ p. p.id) (filterb (has_flag "TC") sc.pax)),
        length-ids (has_flag "TC") sc.pax,
      ),
      omega (
        arith,
        totals.all_special,
        length-sort_by text_leb totals.sla.failed,
        length-sort_by text_leb totals.sla.met,
        length-sort_by text_leb (map (λ p. p.id) (filterb is_special sc.pax)),
        length-ids is_special sc.pax,
      ),
    )
