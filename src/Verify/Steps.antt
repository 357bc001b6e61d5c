-- ===== src/Verify/Steps.antt =====
-- What every check of the auditor keeps: a property of reports that `add` keeps.
use tarmac.Prelude.{String, Option, none, some, List, [], ◌∷◌}
use tarmac.Storage.{Exec, Result, ok, err}
use tarmac.Storage.Stable.{Stable, stable_rules, Stable-bind, Stable-modify}
use tarmac.ChainLog.{LogEntry}
use tarmac.Verify.{
  gathered, add_check, check_holdings, check_replay, check_capacity_and_exclusivity,
  check_rulings_cite, check_reveals, check_domain, record_manifest, check_statements,
  check_invariants, check_chain, check_all,
}
use tarmac.Verify.Replay.{text_item}
use tarmac.Verify.Checks.{Check, Report, add}

-- Every check goes into the report by `add`, whatever it keeps.
module _ (P : Report → Type 0) (kept : (c : Check) (s : Report) → P s → P (add c s)) where
  pub add_check-Stable : (c : Check) → Stable P (add_check c)
  unfolding add_check
  add_check-Stable c = Stable-modify _ (kept c)

  pub gathered-Stable :
      {T : Type 0} (body : Exec T Unit) (start : T) → Stable P (gathered body start)
  unfolding gathered
  gathered-Stable {T} body start = record { after = λ s h. by_result s h (body start) }
    where
      by_result :
          (s : Report)
          → P s
          → (p : Result (Unit {0}) × T)
          → P (elim p.0 as (λ _. Result T × Report) [ ok _ ↦ (ok p.1, s) | err e ↦ (err e, s) ]).1
      by_result s h (ok x, t) = h
      by_result s h (err e, t) = h

  pub check_domain-Stable :
      (ds : List (List LogEntry → Check)) (entries : List LogEntry)
      → Stable P (check_domain ds entries)
  unfolding check_domain
  check_domain-Stable [] entries = search stable_rules
  check_domain-Stable (d ∷ ds) entries =
      Stable-bind _ _ (add_check-Stable (d entries)) (λ _. check_domain-Stable ds entries)

  pub check_replay-Stable : (e : Option LogEntry) → Stable P (check_replay e)
  unfolding check_replay text_item
  check_replay-Stable none = add_check-Stable _
  check_replay-Stable (some e) = search (stable_rules, add_check-Stable) depth 12

  pub check_capacity-Stable :
      (entries : List LogEntry) → Stable P (check_capacity_and_exclusivity entries)
  unfolding check_capacity_and_exclusivity check_holdings
  check_capacity-Stable entries = search (stable_rules, add_check-Stable, gathered-Stable) depth 12

  pub check_rulings-Stable : (entries : List LogEntry) → Stable P (check_rulings_cite entries)
  unfolding check_rulings_cite
  check_rulings-Stable entries = search (stable_rules, add_check-Stable, gathered-Stable) depth 12

  pub check_reveals-Stable : (entries : List LogEntry) → Stable P (check_reveals entries)
  unfolding check_reveals
  check_reveals-Stable entries = search (stable_rules, add_check-Stable, gathered-Stable) depth 12

  pub check_statements-Stable :
      (entries : List LogEntry) (ds : List (List LogEntry → Check))
      → Stable P (check_statements entries ds)
  unfolding check_statements
  check_statements-Stable entries ds =
      search (stable_rules, check_rulings-Stable, check_reveals-Stable, check_domain-Stable) depth
        12

  pub check_invariants-Stable :
      (entries : List LogEntry) (ds : List (List LogEntry → Check))
      → Stable P (check_invariants entries ds)
  unfolding check_invariants
  check_invariants-Stable entries ds =
      search (stable_rules, check_replay-Stable, check_capacity-Stable, check_statements-Stable)
        depth 12

  pub check_chain-Stable : (entries : List LogEntry) → Stable P (check_chain entries)
  unfolding check_chain
  check_chain-Stable entries = add_check-Stable _

  pub check_all-Stable :
      ((m : List (String × List String)) → Stable P (record_manifest m))
      → (entries : List LogEntry) (ds : List (List LogEntry → Check))
      → Stable P (check_all entries ds)
  unfolding check_all
  check_all-Stable recorded entries ds =
      search (stable_rules, check_chain-Stable, recorded, check_invariants-Stable) depth 12
