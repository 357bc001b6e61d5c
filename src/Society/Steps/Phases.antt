-- ===== src/Society/Steps/Phases.antt =====
-- The phases in which agents act keep it.
use tarmac.Prelude.{ℕ, suc, String, Option, none, some, List, [], ◌∷◌}
use tarmac.Storage.{LedgerFault}
use tarmac.Storage.Stable.{Stable, stable_rules, Stable-bind, Stable-modify, Stable-rescue}
use tarmac.Schemas.{ClaimProposal, ClaimRecord, Position, Stance, block, support, yield}
use tarmac.Schemas.Rulings.{SignedRuling}
use tarmac.Society.Views.{Agent}
use tarmac.Society.State.{Setup, Society, try_claim}
use tarmac.Society.Phases.{
  Sealed, note, process_block, process_yield, process_stance, process_target, process_position,
  file_positions, draw_nonce, seal_all, commit_all, claim_error, reveal_one, reveal_all,
  phase_commit_reveal, phase_positions,
}
use tarmac.Society.Steps.{Rules, position_note-Stable, claim_error-Stable, position-Stable}

module _ (Allowed : SignedRuling → Type 0) (P : Society → Type 0) (rules : Rules Allowed P) where
  note-Stable : (p : Position) (text : String) (round : ℕ) → Stable P (note p text round)
  unfolding note
  note-Stable p text round = position_note-Stable Allowed P rules _ round

  process_block-Stable :
      (p : Position) (target : ClaimRecord) (round : ℕ) → Stable P (process_block p target round)
  unfolding process_block
  process_block-Stable p target round = search (stable_rules, note-Stable, rules.contests) depth 12

  process_yield-Stable :
      (p : Position) (target : ClaimRecord) (round : ℕ) → Stable P (process_yield p target round)
  unfolding process_yield
  process_yield-Stable p target round =
      search (stable_rules, rules.releases, rules.withdraws) depth 12

  process_stance-Stable :
      (s : Stance) (p : Position) (target : ClaimRecord) (round : ℕ)
      → Stable P (process_stance s p target round)
  unfolding process_stance
  process_stance-Stable block p target round = process_block-Stable p target round
  process_stance-Stable support p target round = search stable_rules
  process_stance-Stable yield p target round = process_yield-Stable p target round

  process_target-Stable :
      (t : Option ClaimRecord) (p : Position) (round : ℕ) → Stable P (process_target t p round)
  unfolding process_target
  process_target-Stable none p round = note-Stable p _ round
  process_target-Stable (some t) p round = process_stance-Stable p.stance p t round

  process_position-Stable : (p : Position) (round : ℕ) → Stable P (process_position p round)
  unfolding process_position try_claim
  process_position-Stable p round =
      search (stable_rules, rules.reads, process_target-Stable) depth 12

  file_positions-Stable :
      (name : String) (ps : List Position) (round : ℕ) → Stable P (file_positions name ps round)
  unfolding file_positions
  file_positions-Stable name [] round = search stable_rules
  file_positions-Stable name (p ∷ ps) round = Stable-bind _ _ (search stable_rules) (λ _.
      Stable-bind _ _ (position-Stable Allowed P rules _ round) (λ _.
        Stable-bind _ _
          (Stable-modify _ (λ s h.
            rules.own_fields s s.detector s.nonces_drawn s.ruling_seq s.reveal_rejections _
              s.deadlocks s.rulings h))
          (λ _. Stable-bind _ _ (process_position-Stable p round) (λ _.
            Stable-bind _ _ (file_positions-Stable name ps round) (λ _. search stable_rules)))))

  module _ (setup : Setup) where
    draw_nonce-Stable : Stable P (draw_nonce setup)
    unfolding draw_nonce
    draw_nonce-Stable = record {
      after = λ s h.
          rules.own_fields s s.detector (suc s.nonces_drawn) s.ruling_seq s.reveal_rejections
            s.positions s.deadlocks s.rulings h;
    }

    seal_all-Stable :
        (name : String) (ps : List ClaimProposal) (round : ℕ)
        → Stable P (seal_all setup name ps round)
    unfolding seal_all
    seal_all-Stable name [] round = search stable_rules
    seal_all-Stable name (p ∷ ps) round = Stable-bind _ _ (search stable_rules) (λ _.
        Stable-bind _ _ draw_nonce-Stable (λ nonce.
          Stable-bind _ _ (rules.seals p nonce round)
            (λ _. Stable-bind _ _ (seal_all-Stable name ps round) (λ _. search stable_rules))))

    commit_all-Stable : (order : List Agent) (round : ℕ) → Stable P (commit_all setup order round)
    unfolding commit_all
    commit_all-Stable [] round = search stable_rules
    commit_all-Stable (a ∷ order) round = Stable-bind _ _ (search stable_rules) (λ view.
        Stable-bind _ _ (seal_all-Stable a.name (a.propose view) round)
          (λ _. Stable-bind _ _ (commit_all-Stable order round) (λ _. search stable_rules)))

    claim_error_lem :
        (bid : Sealed) (round : ℕ) (f : LedgerFault) → Stable P (claim_error setup bid round f)
    unfolding claim_error
    claim_error_lem bid round f =
        Stable-bind _ _ (claim_error-Stable Allowed P rules _ round) (λ _. search stable_rules)

    reveal_one-Stable : (bid : Sealed) (round : ℕ) → Stable P (reveal_one setup bid round)
    unfolding reveal_one
    reveal_one-Stable bid round =
        Stable-rescue _ _
          (Stable-bind _ _ (rules.reveals bid.commitment_id bid.proposal bid.nonce round)
            (λ _. search stable_rules))
          (claim_error_lem bid round)

    reveal_all-Stable : (bids : List Sealed) (round : ℕ) → Stable P (reveal_all setup bids round)
    unfolding reveal_all
    reveal_all-Stable [] round = search stable_rules
    reveal_all-Stable (bid ∷ bids) round =
        Stable-bind _ _ (reveal_one-Stable bid round)
          (λ _. Stable-bind _ _ (reveal_all-Stable bids round) (λ _. search stable_rules))

    pub phase_commit_reveal-Stable :
        (order : List Agent) (round : ℕ) → Stable P (phase_commit_reveal setup order round)
    unfolding phase_commit_reveal
    phase_commit_reveal-Stable order round =
        Stable-bind _ _ (commit_all-Stable order round) (λ bids.
          Stable-bind _ _ (reveal_all-Stable bids round) (λ k.
            Stable-bind _ _
              (Stable-modify _ (λ s h.
                rules.own_fields s s.detector s.nonces_drawn s.ruling_seq _ s.positions s.deadlocks
                  s.rulings h))
              (λ _. search stable_rules)))

    pub phase_positions-Stable :
        (order : List Agent) (round : ℕ) → Stable P (phase_positions setup order round)
    unfolding phase_positions
    phase_positions-Stable [] round = search stable_rules
    phase_positions-Stable (a ∷ order) round = Stable-bind _ _ (search stable_rules) (λ view.
        Stable-bind _ _ (file_positions-Stable a.name (a.respond view) round)
          (λ _. Stable-bind _ _ (phase_positions-Stable order round) (λ _. search stable_rules)))
