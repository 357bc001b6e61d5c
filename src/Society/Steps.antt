-- ===== src/Society/Steps.antt =====
-- What a whole run keeps: a property of societies that every call of the ledger, the bank and the
-- log keeps, under a condition on the rulings that are recorded.
pub mod Phases
pub mod Mediation
pub mod Run
use tarmac.Prelude.{
  ℕ, zero, suc, String, ◌≡◌, refl, Bool, true, false, Option, none, some, List, [], ◌∷◌, is_empty,
}
use tarmac.Prelude.Text.{◌==◌, text_discrete}
use tarmac.Json.{Json}
use tarmac.Storage.{Exec, ◌>>=◌, ◌>>◌, rescue, LedgerFault, modify}
use tarmac.Storage.Stable.{
  Stable, stable_rules, Stable-bind, Stable-modify, Stable-rescue, Stable-if, Stable-gets,
}
use tarmac.Schemas.{ClaimProposal, ClaimRecord, Position, Stance, block, support, yield, RulingOp}
use tarmac.Schemas.Rulings.{Ruling, SignedRuling, signed_json}
use tarmac.Ledger.Queries.{claim}
use tarmac.Ledger.Methods.{seal_and_commit, reveal, release, withdraw_claim, void_claim}
use tarmac.Ledger.Ruling.{apply_ruling_ops}
use tarmac.Currency.Bank.{Contest}
use tarmac.Currency.Contests.{open_contest, settle, void_contest}
use tarmac.Currency.Reports.{snapshot}
use tarmac.Deadlock.Detector.{Deadlock, Detector}
use tarmac.Society.Views.{Agent, Mediator, MediatorView}
use tarmac.Society.State.{Setup, Society, on_ledger, on_bank, append_log, try_claim}
use tarmac.Society.Phases.{
  Sealed, note, process_block, process_yield, process_stance, process_target, process_position,
  file_positions, draw_nonce, seal_all, commit_all, claim_error, reveal_one, reveal_all,
  phase_commit_reveal, phase_positions,
}
use tarmac.Society.Mediation.{
  next_ruling_id, Cited, cite, cite_all, Decision, pass, win, lose, refund, settle_by, settle_each,
  settle_contests, reset_all, op_rejected, apply_each, signed_ruling, record_ruling, apply_ruling,
  reject_ruling, apply_cited, resolve_and_apply, sign_and_apply_ruling,
}
use tarmac.Society.Run.{
  log_deadlocks, scan_round, void_contests, void_claims, quarantine, quarantine_all,
  finalize_safely, rule_on, mediate, finalize_by_fiat, settle_rest, finalize_unquiesced, play_round,
  play_rounds, finish, run,
}

-- The calls that a society makes. The last field is for what only the society's own fields, and
-- no table and no log, take part in.
pub record Rules (Allowed : SignedRuling → Type 0) (P : Society → Type 0) : Type 0 where
  pub seals :
      (p : ClaimProposal) (nonce : String) (round : ℕ)
      → Stable P (on_ledger (seal_and_commit p nonce round))
  pub reveals :
      (id : String) (p : ClaimProposal) (nonce : String) (round : ℕ)
      → Stable P (on_ledger (reveal id p nonce round))
  pub releases :
      (a c : String) (bs : Option (List String)) (round : ℕ)
      → Stable P (on_ledger (release a c bs round))
  pub withdraws : (a c : String) (round : ℕ) → Stable P (on_ledger (withdraw_claim a c round))
  pub voids : (c reason : String) (round : ℕ) → Stable P (on_ledger (void_claim c reason round))
  pub applies :
      (ops : List RulingOp) (ruling_id : String) (round : ℕ)
      → Stable P (on_ledger (apply_ruling_ops ops ruling_id round))
  pub reads : (c : String) → Stable P (on_ledger (claim c))
  pub contests : (p : Position) (round : ℕ) → Stable P (on_bank (open_contest p round))
  pub settles :
      (id : String) (is_won : Bool) (round : ℕ) → Stable P (on_bank (settle id is_won round))
  pub refunds : (id : String) (round : ℕ) → Stable P (on_bank (void_contest id round))
  pub snapshots : (round : ℕ) → Stable P (on_bank (snapshot round))
  pub notes :
      (kind : String) (body : Json) (round : ℕ)
      → (kind == "ruling") ≡ false
      → Stable P (append_log kind body round)
  pub records :
      (signed : SignedRuling)
      → Allowed signed
      → Stable P (append_log "ruling" (signed_json signed) signed.round)
  pub own_fields :
      (s : Society) (d : Detector) (n m k : ℕ) (ps : List (ℕ × Position)) (ds : List Deadlock)
      (rs : List SignedRuling)
      → P s
      → P (record s {
        detector = d;
        nonces_drawn = n;
        ruling_seq = m;
        positions = ps;
        deadlocks = ds;
        rulings = rs;
        reveal_rejections = k;
      })

module _ (Allowed : SignedRuling → Type 0) (P : Society → Type 0) (rules : Rules Allowed P) where
  -- The entries of the log other than rulings.
  pub position_note-Stable :
      (body : Json) (round : ℕ) → Stable P (append_log "position_note" body round)
  unfolding text_discrete
  position_note-Stable body round = rules.notes "position_note" body round refl

  pub claim_error-Stable :
      (body : Json) (round : ℕ) → Stable P (append_log "claim_error" body round)
  unfolding text_discrete
  claim_error-Stable body round = rules.notes "claim_error" body round refl

  pub position-Stable : (body : Json) (round : ℕ) → Stable P (append_log "position" body round)
  unfolding text_discrete
  position-Stable body round = rules.notes "position" body round refl

  pub ruling_citation_dropped-Stable :
      (body : Json) (round : ℕ) → Stable P (append_log "ruling_citation_dropped" body round)
  unfolding text_discrete
  ruling_citation_dropped-Stable body round = rules.notes "ruling_citation_dropped" body round refl

  pub ruling_rejected-Stable :
      (body : Json) (round : ℕ) → Stable P (append_log "ruling_rejected" body round)
  unfolding text_discrete
  ruling_rejected-Stable body round = rules.notes "ruling_rejected" body round refl

  pub ruling_op_rejected-Stable :
      (body : Json) (round : ℕ) → Stable P (append_log "ruling_op_rejected" body round)
  unfolding text_discrete
  ruling_op_rejected-Stable body round = rules.notes "ruling_op_rejected" body round refl

  pub round_start-Stable :
      (body : Json) (round : ℕ) → Stable P (append_log "round_start" body round)
  unfolding text_discrete
  round_start-Stable body round = rules.notes "round_start" body round refl

  pub round_end-Stable : (body : Json) (round : ℕ) → Stable P (append_log "round_end" body round)
  unfolding text_discrete
  round_end-Stable body round = rules.notes "round_end" body round refl

  pub deadlock-Stable : (body : Json) (round : ℕ) → Stable P (append_log "deadlock" body round)
  unfolding text_discrete
  deadlock-Stable body round = rules.notes "deadlock" body round refl

  pub quiescent-Stable : (body : Json) (round : ℕ) → Stable P (append_log "quiescent" body round)
  unfolding text_discrete
  quiescent-Stable body round = rules.notes "quiescent" body round refl

  pub fiat-Stable : (body : Json) (round : ℕ) → Stable P (append_log "fiat" body round)
  unfolding text_discrete
  fiat-Stable body round = rules.notes "fiat" body round refl

  pub safety_finalize-Stable :
      (body : Json) (round : ℕ) → Stable P (append_log "safety_finalize" body round)
  unfolding text_discrete
  safety_finalize-Stable body round = rules.notes "safety_finalize" body round refl

  pub manifest-Stable : (body : Json) (round : ℕ) → Stable P (append_log "manifest" body round)
  unfolding text_discrete
  manifest-Stable body round = rules.notes "manifest" body round refl
