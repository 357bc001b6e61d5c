-- ===== src/Society/Phases.antt =====
-- The phases of a round in which agents act: sealed bids, then positions.
use tarmac.Prelude.{
  ℕ, suc, ◌+◌, String, not, Option, none, some, List, [], ◌∷◌, ◌++◌, length, if◌then◌else◌,
}
use tarmac.Prelude.Text.{◌==◌, concat}
use tarmac.Json.{dict, str}
use tarmac.Storage.{
  Exec, ok, protocol_error, LedgerFault, pure, raise_if, gets, modify, rescue, ◌>>=◌, ◌>>◌,
}
use tarmac.Schemas.{
  ClaimStatus, ClaimProposal, ClaimRecord, Position, Stance, block, support, yield, is_granted,
  is_blocked,
}
use tarmac.Schemas.Rulings.{position_json}
use tarmac.Ledger.Methods.{seal_and_commit, reveal, release, withdraw_claim}
use tarmac.Ledger.Faults.{fault_text}
use tarmac.Currency.Contests.{open_contest}
use tarmac.Society.Views.{Agent}
use tarmac.Society.State.{Setup, Society, on_ledger, on_bank, append_log, try_claim, view_for}

-- A sealed bid: who made it, the proposal, and the commitment with its nonce.
pub record Sealed : Type 0 where
  pub agent : String
  pub proposal : ClaimProposal
  pub commitment_id : String
  pub nonce : String

abbrev pub rejected_count : ClaimStatus → ℕ
rejected_count ClaimStatus.reveal_rejected = 1
rejected_count _ = 0

-- A claim that is recorded only: a note in the log.
unfoldable pub note : Position → String → ℕ → Exec Society Unit
note p text round =
    append_log "position_note" (dict (("agent", str p.agent) ∷ ("note", str text) ∷ [])) round

-- A block of somebody else's granted claim opens a paid contest.
unfoldable pub process_block : Position → ClaimRecord → ℕ → Exec Society Unit
process_block p target round =
    if target.proposal.agent == p.agent
    then note p "cannot contest own claim; recorded only" round
    else if not (is_granted target.status)
    then pure tt
    else (on_bank (open_contest p round) >>= λ _. pure tt)

-- A yield gives one's own claim back.
unfoldable pub process_yield : Position → ClaimRecord → ℕ → Exec Society Unit
process_yield p target round =
    if not (target.proposal.agent == p.agent)
    then pure tt
    else if is_granted target.status
    then on_ledger (release p.agent target.id p.release round)
    else if is_blocked target.status
    then on_ledger (withdraw_claim p.agent target.id round)
    else pure tt

unfoldable pub process_stance : Stance → Position → ClaimRecord → ℕ → Exec Society Unit
process_stance block p target round = process_block p target round
process_stance support p target round = pure tt
process_stance yield p target round = process_yield p target round

unfoldable pub process_target : Option ClaimRecord → Position → ℕ → Exec Society Unit
process_target none p round =
    note p (concat ("target " ∷ p.target_claim ∷ " unknown; recorded only" ∷ [])) round
process_target (some target) p round = process_stance p.stance p target round

unfoldable pub process_position : Position → ℕ → Exec Society Unit
process_position p round = try_claim p.target_claim >>= λ target. process_target target p round

unfoldable pub file_positions : String → List Position → ℕ → Exec Society ℕ
file_positions name [] round = pure 0
file_positions name (p ∷ ps) round = do
  raise_if (not (p.agent == name)) protocol_error
  append_log "position" (position_json p) round
  modify (λ s. record s { positions = s.positions ++ (round, p) ∷ [] })
  process_position p round
  n ← file_positions name ps round
  pure (suc n)

module _ (setup : Setup) where
  -- make_nonce
  unfoldable pub draw_nonce : Exec Society String
  draw_nonce s = (ok (setup.nonce s.nonces_drawn), record s { nonces_drawn = suc s.nonces_drawn })

  unfoldable pub seal_all : String → List ClaimProposal → ℕ → Exec Society (List Sealed)
  seal_all name [] round = pure []
  seal_all name (p ∷ ps) round = do
    raise_if (not (p.agent == name)) protocol_error
    nonce ← draw_nonce
    (id, kept) ← on_ledger (seal_and_commit p nonce round)
    rest ← seal_all name ps round
    pure (record { agent = name; proposal = p; commitment_id = id; nonce = kept } ∷ rest)

  unfoldable pub commit_all : List Agent → ℕ → Exec Society (List Sealed)
  commit_all [] round = pure []
  commit_all (a ∷ rest) round = do
    view ← gets (view_for setup a.name round)
    first ← seal_all a.name (a.propose view) round
    later ← commit_all rest round
    pure (first ++ later)

  unfoldable pub claim_error : Sealed → ℕ → LedgerFault → Exec Society ℕ
  claim_error bid round fault = do
    append_log "claim_error"
        (dict (
          ("agent", str bid.agent)
          ∷ ("commitment_id", str bid.commitment_id)
          ∷ ("error", str (fault_text setup.repr fault))
          ∷ []))
        round
    pure 0

  -- Whether the reveal was rejected, as a count.
  unfoldable pub reveal_one : Sealed → ℕ → Exec Society ℕ
  reveal_one bid round =
      rescue
        (on_ledger (reveal bid.commitment_id bid.proposal bid.nonce round) >>= λ rec.
          pure (rejected_count rec.status))
        (claim_error bid round)

  unfoldable pub reveal_all : List Sealed → ℕ → Exec Society ℕ
  reveal_all [] round = pure 0
  reveal_all (bid ∷ bids) round = do
    n ← reveal_one bid round
    m ← reveal_all bids round
    pure (n + m)

  unfoldable pub phase_commit_reveal : List Agent → ℕ → Exec Society (ℕ × ℕ)
  phase_commit_reveal order round = do
    sealed ← commit_all order round
    rejected ← reveal_all sealed round
    modify (λ s. record s { reveal_rejections = s.reveal_rejections + rejected })
    pure (length sealed, rejected)

  unfoldable pub phase_positions : List Agent → ℕ → Exec Society ℕ
  phase_positions [] round = pure 0
  phase_positions (a ∷ rest) round = do
    view ← gets (view_for setup a.name round)
    n ← file_positions a.name (a.respond view) round
    m ← phase_positions rest round
    pure (n + m)
