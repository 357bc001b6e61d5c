-- ===== src/Society/Steps/Run.antt =====
-- A whole run keeps it.
use tarmac.Prelude.{
  ℕ, zero, suc, String, ◌≡◌, refl, Bool, true, false, Option, none, some, List, [], ◌∷◌,
}
use tarmac.Storage.Stable.{Stable, stable_rules, Stable-bind, Stable-modify, Stable-if}
use tarmac.Schemas.{ClaimRecord, Position}
use tarmac.Schemas.Rulings.{SignedRuling}
use tarmac.Currency.Bank.{Contest}
use tarmac.Deadlock.Detector.{Deadlock}
use tarmac.Society.Views.{Mediator, MediatorView}
use tarmac.Society.State.{Setup, Society}
use tarmac.Society.Run.{
  log_deadlocks, scan_round, void_contests, void_claims, quarantine, quarantine_all,
  finalize_safely, rule_on, mediate, finalize_by_fiat, settle_rest, finalize_unquiesced, play_round,
  play_rounds, finish, run,
}
use tarmac.Society.Steps.{
  Rules, round_start-Stable, round_end-Stable, deadlock-Stable, quiescent-Stable, fiat-Stable,
  safety_finalize-Stable, manifest-Stable,
}
use tarmac.Society.Steps.Phases.{phase_commit_reveal-Stable, phase_positions-Stable}
use tarmac.Society.Steps.Mediation.{Admits, sign_and_apply_ruling-Stable}

-- Every ruling that the mediator may give is one that may be recorded.
pub record Obeys (setup : Setup) (Allowed : SignedRuling → Type 0) : Type 0 where
  pub adjudicates :
      (m : Mediator) (d : Deadlock) (ps : List Position) (view : MediatorView)
      → setup.mediator ≡ some m
      → Admits setup Allowed (m.rule d ps view)
  pub decrees :
      (m : Mediator) (view : MediatorView)
      → setup.mediator ≡ some m
      → Admits setup Allowed (m.fiat view)

module _ (Allowed : SignedRuling → Type 0) (P : Society → Type 0) (rules : Rules Allowed P) where
  log_deadlocks-Stable : (ds : List Deadlock) (round : ℕ) → Stable P (log_deadlocks ds round)
  unfolding log_deadlocks
  log_deadlocks-Stable [] round = search stable_rules
  log_deadlocks-Stable (d ∷ ds) round =
      Stable-bind _ _ (deadlock-Stable Allowed P rules _ round) (λ _.
        Stable-bind _ _
          (Stable-modify _ (λ s h.
            rules.own_fields s s.detector s.nonces_drawn s.ruling_seq s.reveal_rejections
              s.positions _ s.rulings h))
          (λ _. log_deadlocks-Stable ds round))

  scan_round-Stable : (round : ℕ) → Stable P (scan_round round)
  unfolding scan_round
  scan_round-Stable round = record {
    after = λ s h.
        rules.own_fields s _ s.nonces_drawn s.ruling_seq s.reveal_rejections s.positions s.deadlocks
          s.rulings h;
  }

  void_contests-Stable : (cs : List Contest) (round : ℕ) → Stable P (void_contests cs round)
  unfolding void_contests
  void_contests-Stable [] round = search stable_rules
  void_contests-Stable (c ∷ cs) round =
      Stable-bind _ _ (rules.refunds c.id round) (λ _. void_contests-Stable cs round)

  void_claims-Stable :
      (recs : List ClaimRecord) (reason : String) (round : ℕ)
      → Stable P (void_claims recs reason round)
  unfolding void_claims
  void_claims-Stable [] reason round = search stable_rules
  void_claims-Stable (rec ∷ recs) reason round =
      Stable-bind _ _ (rules.voids rec.id reason round) (λ _. void_claims-Stable recs reason round)

  quarantine-Stable : (c : Contest) (round : ℕ) → Stable P (quarantine c round)
  unfolding quarantine
  quarantine-Stable c round = search (stable_rules, rules.reads, rules.voids) depth 12

  quarantine_all-Stable : (cs : List Contest) (round : ℕ) → Stable P (quarantine_all cs round)
  unfolding quarantine_all
  quarantine_all-Stable [] round = search stable_rules
  quarantine_all-Stable (c ∷ cs) round =
      Stable-bind _ _ (quarantine-Stable c round)
        (λ _. Stable-bind _ _ (rules.refunds c.id round) (λ _. quarantine_all-Stable cs round))

  finalize_safely-Stable : (round : ℕ) → Stable P (finalize_safely round)
  unfolding finalize_safely
  finalize_safely-Stable round =
      Stable-bind _ _ (safety_finalize-Stable Allowed P rules _ round) (λ _.
        Stable-bind _ _ (search stable_rules) (λ contests.
          Stable-bind _ _ (quarantine_all-Stable contests round) (λ _.
            Stable-bind _ _ (search stable_rules) (λ blocked. void_claims-Stable blocked _ round))))

  module _ (setup : Setup) (obeys : Obeys setup Allowed) where
    rule_on-Stable :
        (m : Mediator) (ds : List Deadlock) (round : ℕ)
        → setup.mediator ≡ some m
        → Stable P (rule_on setup m ds round)
    unfolding rule_on
    rule_on-Stable m [] round at = search stable_rules
    rule_on-Stable m (d ∷ ds) round at = Stable-bind _ _ (search stable_rules) (λ positions.
        Stable-bind _ _ (search stable_rules) (λ view.
          Stable-bind _ _
            (sign_and_apply_ruling-Stable Allowed P rules setup _ (some d) round
              (obeys.adjudicates m d positions view at))
            (λ _. rule_on-Stable m ds round at)))

    mediate-Stable :
        (o : Option Mediator) (ds : List Deadlock) (round : ℕ)
        → setup.mediator ≡ o
        → Stable P (mediate setup o ds round)
    unfolding mediate
    mediate-Stable none ds round at = search stable_rules
    mediate-Stable (some m) ds round at = rule_on-Stable m ds round at

    finalize_by_fiat-Stable :
        (m : Mediator) (round : ℕ)
        → setup.mediator ≡ some m
        → Stable P (finalize_by_fiat setup m round)
    unfolding finalize_by_fiat
    finalize_by_fiat-Stable m round at = Stable-bind _ _ (search stable_rules) (λ d.
        Stable-bind _ _ (search stable_rules) (λ view.
          Stable-bind _ _ (fiat-Stable Allowed P rules _ round) (λ _.
            Stable-bind _ _
              (sign_and_apply_ruling-Stable Allowed P rules setup _ (some d) round
                (obeys.decrees m view at))
              (λ _. Stable-bind _ _ (search stable_rules) (λ contests.
                Stable-bind _ _ (void_contests-Stable contests round) (λ _.
                  Stable-bind _ _ (search stable_rules)
                    (λ blocked. void_claims-Stable blocked _ round)))))))

    settle_rest-Stable :
        (o : Option Mediator) (round : ℕ)
        → setup.mediator ≡ o
        → Stable P (settle_rest setup o round)
    unfolding settle_rest
    settle_rest-Stable none round at = finalize_safely-Stable round
    settle_rest-Stable (some m) round at = finalize_by_fiat-Stable m round at

    finalize_unquiesced-Stable : (round : ℕ) → Stable P (finalize_unquiesced setup round)
    unfolding finalize_unquiesced
    finalize_unquiesced-Stable round =
        Stable-bind _ _ (settle_rest-Stable setup.mediator round refl)
          (λ _. rules.snapshots (suc round))

    play_round-Stable : (round : ℕ) → Stable P (play_round setup round)
    unfolding play_round
    play_round-Stable round = Stable-bind _ _ (search stable_rules) (λ _.
        Stable-bind _ _ (round_start-Stable Allowed P rules _ round) (λ _.
          Stable-bind _ _ (phase_commit_reveal-Stable Allowed P rules setup _ round) (λ counts.
            Stable-bind _ _ (phase_positions-Stable Allowed P rules setup _ round) (λ positions.
              Stable-bind _ _ (scan_round-Stable round) (λ deadlocks.
                Stable-bind _ _ (log_deadlocks-Stable deadlocks round) (λ _.
                  Stable-bind _ _ (mediate-Stable setup.mediator deadlocks round refl) (λ _.
                    Stable-bind _ _ (rules.snapshots round) (λ _.
                      Stable-bind _ _ (search stable_rules) (λ blocked.
                        Stable-bind _ _ (search stable_rules) (λ contests.
                          Stable-bind _ _ (round_end-Stable Allowed P rules _ round)
                            (λ _. search stable_rules)))))))))))

    play_rounds-Stable : (left round : ℕ) → Stable P (play_rounds setup left round)
    unfolding play_rounds
    play_rounds-Stable zero round = search stable_rules
    play_rounds-Stable (suc left) round = Stable-bind _ _ (play_round-Stable round) (λ quiet.
        Stable-if quiet
          (Stable-bind _ _ (quiescent-Stable Allowed P rules _ round) (λ _. search stable_rules))
          (play_rounds-Stable left (suc round)))

    finish-Stable : (round : ℕ) (quiet : Bool) → Stable P (finish setup round quiet)
    unfolding finish
    finish-Stable round true = search stable_rules
    finish-Stable round false = finalize_unquiesced-Stable round

    pub run-Stable : Stable P (run setup)
    unfolding run
    run-Stable = Stable-bind _ _ (play_rounds-Stable setup.max_rounds 1) (λ ending.
        Stable-bind _ _ (finish-Stable ending.0 ending.1) (λ _.
          Stable-bind _ _ (search stable_rules) (λ m. Stable-bind _ _ (search stable_rules) (λ hash.
            Stable-bind _ _ (manifest-Stable Allowed P rules _ ending.0)
              (λ _. search stable_rules)))))
