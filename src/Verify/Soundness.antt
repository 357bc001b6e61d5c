-- ===== src/Verify/Soundness.antt =====
-- What a passed audit means.
use tarmac.Prelude.{
  String, ◌≡◌, ◌∙◌, ap, refl, sym, subst, Bool, true, ◌&&◌, Option, some, List, [], ◌∷◌, ◌++◌,
  length, is_empty, findb, arith, inl, inr, ◌⊎◌,
}
use tarmac.Prelude.Text.{◌==◌}
use tarmac.Storage.{Exec, Error, Result, ok, err, ◌>>=◌, ◌>>◌, lift, modify}
use tarmac.Storage.Runs.{bind_ok, bind_err, bind_returned, raised_or_returned}
use tarmac.Storage.Stable.{Stable, Stable-modify}
use tarmac.ChainLog.{LogEntry, verify_chain}
use tarmac.Verify.{
  gathered, add_check, check_holdings, chain_passes, check_replay, check_capacity_and_exclusivity,
  record_manifest, check_statements, check_invariants, check_chain, check_all, verify_log,
  last_manifest,
}
use tarmac.Verify.Replay.{replay_manifest}
use tarmac.Verify.Checks.{
  Check, Report, add, none_of, Terms, terms_entries, over_capacity, double_allocated, terms_of,
}
use tarmac.Verify.Capacity.{Fits, Fits-exceeds, over_capacity-Fits}
use tarmac.Verify.Steps.{
  check_replay-Stable, check_statements-Stable, check_invariants-Stable, check_all-Stable,
}

abbrev pub all_passed : List Check → Bool
all_passed [] = true
all_passed (c ∷ cs) = c.passed && all_passed cs

all_passed-append :
    (cs : List Check) (c : Check) → all_passed (cs ++ c ∷ []) ≡ (all_passed cs && c.passed)
all_passed-append [] c = ground arith
all_passed-append (d ∷ cs) c = ground (arith, all_passed-append cs c)

-- The report that verify_log starts with.
abbrev pub first_report : List LogEntry → Report
first_report entries = record {
  ok = true;
  checks = [];
  manifest = [];
  manifest_hash = "";
  chain_length = length entries;
}

-- `ok` is whether every check passed, of the report that verify_log returns or leaves behind.
pub verify_log-ok_is_all_passed :
    (entries : List LogEntry) (ds : List (List LogEntry → Check))
    → (verify_log entries ds).1.ok ≡ all_passed (verify_log entries ds).1.checks
unfolding verify_log add record_manifest
verify_log-ok_is_all_passed entries ds =
    (check_all-Stable (λ s. s.ok ≡ all_passed s.checks)
        (λ c s h. ground (arith, all_passed-append s.checks c)) (λ m. Stable-modify _ (λ s k. k))
        entries ds).after
      (first_report entries) refl

-- A fact that a passed report vouches for.
abbrev Vouches : Type 0 → Report → Type 0
Vouches fact s = s.ok ≡ true → fact

add-Vouches : (fact : Type 0) (c : Check) (s : Report) → Vouches fact s → Vouches fact (add c s)
unfolding add
add-Vouches fact c s h passed = h (ground (arith, passed))

gathered_cases :
    {T : Type 0} (body : Exec T Unit) (start : T) (s : Report)
    → ((x : Unit {0}) × (t : T) × (body start ≡ (ok x, t))
        × (gathered {S = Report} body start s ≡ (ok t, s)))
      ⊎ ((e : Error) × (gathered {S = Report} body start s ≡ (err e, s)))
unfolding gathered
gathered_cases {T} body start s = by_result (body start) refl
  where
    read : Result (Unit {0}) × T → Result T × Report
    read p = elim p.0 as (λ _. Result T × Report) [ ok _ ↦ (ok p.1, s) | err e ↦ (err e, s) ]

    by_result :
        (p : Result (Unit {0}) × T)
        → body start ≡ p
        → ((x : Unit {0}) × (t : T) × (body start ≡ (ok x, t))
            × (gathered {S = Report} body start s ≡ (ok t, s)))
          ⊎ ((e : Error) × (gathered {S = Report} body start s ≡ (err e, s)))
    by_result (ok x, t) at = inl (x, t, at, ap read at)
    by_result (err e, t) at = inr (e, ap read at)

-- What check_capacity_and_exclusivity does to the report when it returns.
capacity_run :
    (entries : List LogEntry) (s : Report) (x : Unit {0})
    → (check_capacity_and_exclusivity entries s).0 ≡ ok x
    → (terms : List Terms) × (terms_entries entries [] ≡ (ok tt, terms))
      × ((check_capacity_and_exclusivity entries s).1
          ≡ add
              (none_of "I1.exclusivity" (double_allocated terms s.manifest))
              (add (none_of "I1.capacity" (over_capacity terms s.manifest)) s))
unfolding check_capacity_and_exclusivity check_holdings add_check ◌>>=◌
capacity_run entries s x done = elim (gathered_cases (terms_entries entries) [] s) [
  | inl (y, terms, at, run) ↦ (
    terms,
    at,
    ap (λ p. p.1) (bind_ok (gathered (terms_entries entries) []) check_holdings s s terms run),
  )
  | inr (e, run) ↦ absurd (
      raised_or_returned e _ s x
        (bind_err (gathered (terms_entries entries) []) check_holdings s s e run) done)
]

-- What a passed audit says of the log: the chain verifies, the events replay, and what they leave
-- allocated is within each registered capacity and never twice in a group.
pub record Audited (entries : List LogEntry) : Type 0 where
  pub manifest : List (String × List String)
  pub terms : List Terms
  pub chain : chain_passes (verify_chain entries) ≡ true
  pub replayed : replay_manifest entries ≡ ok manifest
  pub registered : terms_entries entries [] ≡ (ok tt, terms)
  pub within :
      (r : String) (entry : String × List String)
      → findb (λ x. x.0 == r) manifest ≡ some entry
      → Fits (length entry.1) (terms_of r terms)
  pub exclusive : double_allocated terms manifest ≡ []

passed_both :
    (c d : Check) (s : Report)
    → (add d (add c s)).ok ≡ true
    → (c.passed ≡ true) × ((d.passed ≡ true) × (s.ok ≡ true))
unfolding add
passed_both c d s h = (ground arith, (ground arith, ground arith))

empty : {A : Type 0} (xs : List A) → is_empty xs ≡ true → xs ≡ []
empty [] h = refl
empty (x ∷ xs) h = absurd (ground arith)

-- The fact that the checks of I1 vouch for.
abbrev Within : List LogEntry → List (String × List String) → Type 0
Within entries m =
    (terms : List Terms) × (terms_entries entries [] ≡ (ok tt, terms))
    × (over_capacity terms m ≡ [])
    × (double_allocated terms m ≡ [])

holdings-Within :
    (entries : List LogEntry) (s : Report) (x : Unit {0})
    → (check_capacity_and_exclusivity entries s).0 ≡ ok x
    → (check_capacity_and_exclusivity entries s).1.ok ≡ true
    → Within entries s.manifest
holdings-Within entries s x done passed =
    let (terms, at, run) = capacity_run entries s x done in
    let (c, (d, _)) = passed_both _ _ s (ap (λ r. r.ok) (sym run) ∙ passed) in
    (terms, at, empty _ c, empty _ d)

replay_keeps :
    (m : List (String × List String)) (e : Option LogEntry)
    → Stable (λ s. s.manifest ≡ m) (check_replay e)
unfolding add
replay_keeps m e = check_replay-Stable (λ s. s.manifest ≡ m) (λ c s h. h) e

invariants-Within :
    (entries : List LogEntry) (ds : List (List LogEntry → Check)) (s : Report) (x : Unit {0})
    → (check_invariants entries ds s).0 ≡ ok x
    → (check_invariants entries ds s).1.ok ≡ true
    → Within entries s.manifest
unfolding check_invariants
invariants-Within entries ds s x done passed =
    let rest : Exec Report Unit =
      check_capacity_and_exclusivity entries >> check_statements entries ds in
    let (_, first, run) =
      bind_returned (check_replay (last_manifest entries)) (λ _. rest) s x done in
    let s1 = (check_replay (last_manifest entries) s).1 in
    let (y, second, run') =
      bind_returned (check_capacity_and_exclusivity entries) (λ _. check_statements entries ds) s1 x
        (subst (λ p. p.0 ≡ ok x) run done) in
    let s2 = (check_capacity_and_exclusivity entries s1).1 in
    let fact : Type 0 = Within entries s1.manifest in
    let found : fact =
      (check_statements-Stable (Vouches fact) (add-Vouches fact) entries ds).after s2
        (holdings-Within entries s1 y second) (subst (λ p. p.1.ok ≡ true) (run ∙ run') passed) in
    subst (Within entries) ((replay_keeps s.manifest (last_manifest entries)).after s refl) found

check_chain_run :
    (entries : List LogEntry) (s : Report)
    → (c : Check) × (check_chain entries s ≡ (ok tt, add c s))
      × (c.passed ≡ chain_passes (verify_chain entries))
unfolding check_chain add_check modify
check_chain_run entries s = (_, refl, refl)

-- A log that verify_log returns a passed report for: the chain verifies, the events replay, and
-- the replayed manifest is within the capacities and groups that the log registers.
pub verify_log-Audited :
    (entries : List LogEntry) (ds : List (List LogEntry → Check)) (x : Unit {0}) (report : Report)
    → verify_log entries ds ≡ (ok x, report)
    → report.ok ≡ true
    → Audited entries
unfolding verify_log check_all lift record_manifest ◌>>=◌ add
verify_log-Audited entries ds x report e passed =
    let s = first_report entries in
    let k : List (String × List String) → Exec Report Unit =
      λ m. record_manifest m >> check_invariants entries ds in
    let (c, run, what) = check_chain_run entries s in
    let start =
      bind_ok (check_chain entries) (λ _. lift (replay_manifest entries) >>= k) s (add c s) tt
        run in
    let (m, replayed, run') =
      bind_returned (lift (replay_manifest entries)) k (add c s) x
        (ap (λ p. p.0) (sym start ∙ e)) in
    let recorded : Report = (record_manifest m (add c s)).1 in
    let final : check_invariants entries ds recorded ≡ (ok x, report) = sym (start ∙ run') ∙ e in
    let ended = ap (λ p. p.1.ok) final ∙ passed in
    let (terms, registered, within, exclusive) =
      invariants-Within entries ds recorded x (ap (λ p. p.0) final) ended in
    let fact : Type 0 = chain_passes (verify_chain entries) ≡ true in
    record {
      manifest = m;
      terms = terms;
      chain =
          (check_invariants-Stable (Vouches fact) (add-Vouches fact) entries ds).after recorded
            (λ h. sym what ∙ ground (arith, h)) ended;
      replayed = replayed;
      registered = registered;
      within = λ r entry found. Fits-exceeds _ _ (over_capacity-Fits terms m r entry within found);
      exclusive = exclusive;
    }
