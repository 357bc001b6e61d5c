-- ===== src/Society/Run.antt =====
-- The rounds of a society, up to quiescence or the cap, and its final state.
use tarmac.Prelude.{
  ℕ, zero, suc, ◌-◌, ◌%◌, String, Bool, true, false, ◌&&◌, ◌||◌, Option, none, some, List, [], ◌∷◌,
  ◌++◌, map, filterb, is_empty, length, eqb, take, drop, if◌then◌else◌,
}
use tarmac.Prelude.Text.{member, concat}
use tarmac.Json.{Json, dict, str, number, bool, texts}
use tarmac.Storage.{
  Exec, Result, ok, err, zero_division, protocol_error, pure, raise_if, gets, modify, rescue, ◌>>=◌,
  ◌>>◌,
}
use tarmac.Schemas.{ClaimRecord, Position, all_distinct, is_granted}
use tarmac.Schemas.Rulings.{SignedRuling}
use tarmac.Ledger.Queries.{blocked_claims, claim, manifest, manifest_hash, manifest_json}
use tarmac.Ledger.Methods.{void_claim}
use tarmac.Currency.Bank.{Contest}
use tarmac.Currency.Contests.{open_contests, void_contest}
use tarmac.Currency.Reports.{snapshot}
use tarmac.Deadlock.Cycles.{sorted_set}
use tarmac.Deadlock.Detector.{Deadlock, Kind, cycle, contested, scan}
use tarmac.Society.Views.{Agent, Mediator}
use tarmac.Society.State.{Setup, Society, on_ledger, on_bank, append_log, mediator_view}
use tarmac.Society.Phases.{phase_commit_reveal, phase_positions}
use tarmac.Society.Mediation.{sign_and_apply_ruling}

abbrev pub kind_text : Kind → String
kind_text cycle = "cycle"
kind_text contested = "contested"

unfoldable pub deadlock_json : Deadlock → Json
deadlock_json d = dict (
    ("id", str d.id)
    ∷ ("kind", str (kind_text d.kind))
    ∷ ("round", number d.round)
    ∷ ("resources", texts d.resources)
    ∷ ("agents", texts d.agents)
    ∷ ("claims", texts d.claims)
    ∷ ("detail", str d.detail)
    ∷ [])

pub record RunResult : Type 0 where
  pub manifest : List (String × List String)
  pub manifest_hash : String
  pub rounds_used : ℕ
  pub quiescent : Bool
  pub quiescent_round : Option ℕ
  pub deadlocks : List Deadlock
  pub rulings : List SignedRuling
  pub chain_head : String
  pub chain_length : ℕ
  pub reveal_rejections : ℕ

-- The order of a round: the agents from the (round - 1) % n-th on, then the others.
unfoldable pub order_of : List Agent → ℕ → List Agent
order_of agents round = let k = (round - 1) % length agents in drop k agents ++ take k agents

unfoldable pub log_deadlocks : List Deadlock → ℕ → Exec Society Unit
log_deadlocks [] round = pure tt
log_deadlocks (d ∷ ds) round = do
  append_log "deadlock" (deadlock_json d) round
  modify (λ s. record s { deadlocks = s.deadlocks ++ d ∷ [] })
  log_deadlocks ds round

-- detector.scan, on the ledger and the open contests of now.
unfoldable pub scan_round : ℕ → Exec Society (List Deadlock)
scan_round round s =
    let (found, d) = scan s.ledger (open_contests s.bank) round s.detector in
    (ok found, record s { detector = d })

-- The positions on a deadlock's claims or by its agents.
abbrev pub relevant_to : Deadlock → Position → Bool
relevant_to d p = member p.target_claim d.claims || member p.agent d.agents

abbrev pub all_positions : Society → List Position
all_positions s = map (λ entry. entry.1) s.positions

unfoldable pub void_contests : List Contest → ℕ → Exec Society Unit
void_contests [] round = pure tt
void_contests (c ∷ cs) round = on_bank (void_contest c.id round) >> void_contests cs round

unfoldable pub void_claims : List ClaimRecord → String → ℕ → Exec Society Unit
void_claims [] reason round = pure tt
void_claims (rec ∷ recs) reason round =
    on_ledger (void_claim rec.id reason round) >> void_claims recs reason round

-- A granted claim under an open contest is voided; a LedgerError is passed over.
unfoldable pub quarantine : Contest → ℕ → Exec Society Unit
quarantine c round =
    rescue
      (on_ledger (claim c.target_claim) >>= λ target.
        if is_granted target.status
        then on_ledger
            (void_claim target.id (concat ("unadjudicated challenge " ∷ c.id ∷ [])) round)
        else pure tt)
      (λ _. pure tt)

unfoldable pub quarantine_all : List Contest → ℕ → Exec Society Unit
quarantine_all [] round = pure tt
quarantine_all (c ∷ cs) round = do
  quarantine c round
  on_bank (void_contest c.id round)
  quarantine_all cs round

-- The deadlock that stands for everything still contested at the cap.
unfoldable pub fiat_deadlock : ℕ → Society → Deadlock
fiat_deadlock round s =
    let blocked = blocked_claims s.ledger in
    let contests = open_contests s.bank in
    record {
      id = "d-fiat";
      kind = contested;
      round = round;
      resources = sorted_set (map (λ c. c.proposal.resource) blocked);
      agents = sorted_set (map (λ c. c.proposal.agent) blocked ++ map (λ c. c.agent) contests);
      claims = sorted_set (map (λ c. c.id) blocked ++ map (λ c. c.target_claim) contests);
      detail = "round cap reached without quiescence";
    }

-- Safety finalization, without a mediator.
unfoldable pub finalize_safely : ℕ → Exec Society Unit
finalize_safely round = do
  append_log "safety_finalize" (dict (("round", number round) ∷ [])) round
  contests ← gets (λ s. open_contests s.bank)
  quarantine_all contests round
  blocked ← gets (λ s. blocked_claims s.ledger)
  void_claims blocked "unresolved at round cap (no mediator)" round

module _ (setup : Setup) where
  unfoldable pub rule_on : Mediator → List Deadlock → ℕ → Exec Society Unit
  rule_on m [] round = pure tt
  rule_on m (d ∷ ds) round = do
    positions ← gets (λ s. filterb (relevant_to d) (all_positions s))
    view ← gets (mediator_view setup round positions (d ∷ []))
    signed ← sign_and_apply_ruling setup (m.rule d positions view) (some d) round
    rule_on m ds round

  unfoldable pub mediate : Option Mediator → List Deadlock → ℕ → Exec Society Unit
  mediate none ds round = pure tt
  mediate (some m) ds round = rule_on m ds round

  -- The mediator's final ruling, and the end of what it leaves.
  unfoldable pub finalize_by_fiat : Mediator → ℕ → Exec Society Unit
  finalize_by_fiat m round = do
    d ← gets (fiat_deadlock round)
    view ← gets (λ s. mediator_view setup round (all_positions s) (d ∷ []) s)
    append_log "fiat" (dict (("round", number round) ∷ [])) round
    signed ← sign_and_apply_ruling setup (m.fiat view) (some d) round
    contests ← gets (λ s. open_contests s.bank)
    void_contests contests round
    blocked ← gets (λ s. blocked_claims s.ledger)
    void_claims blocked "unresolved at round cap (post-fiat)" round

  unfoldable pub settle_rest : Option Mediator → ℕ → Exec Society Unit
  settle_rest none round = finalize_safely round
  settle_rest (some m) round = finalize_by_fiat m round

  -- _finalize_unquiesced
  unfoldable pub finalize_unquiesced : ℕ → Exec Society Unit
  finalize_unquiesced round = settle_rest setup.mediator round >> on_bank (snapshot (suc round))

  -- One round: whether it was quiet.
  unfoldable pub play_round : ℕ → Exec Society Bool
  play_round round = do
    raise_if (is_empty setup.agents) zero_division
    let order = order_of setup.agents round
    append_log "round_start"
        (dict (("round", number round) ∷ ("order", texts (map (λ a. a.name) order)) ∷ [])) round
    (commits, rejected) ← phase_commit_reveal setup order round
    positions ← phase_positions setup order round
    deadlocks ← scan_round round
    log_deadlocks deadlocks round
    mediate setup.mediator deadlocks round
    on_bank (snapshot round)
    blocked ← gets (λ s. blocked_claims s.ledger)
    contests ← gets (λ s. open_contests s.bank)
    append_log "round_end"
        (dict (
          ("round", number round)
          ∷ ("commits", number commits)
          ∷ ("reveals_rejected", number rejected)
          ∷ ("positions", number positions)
          ∷ ("blocked", number (length blocked))
          ∷ ("open_contests", number (length contests))
          ∷ ("deadlocks", number (length deadlocks))
          ∷ []))
        round
    pure (eqb commits 0 && (eqb positions 0 && (is_empty blocked && is_empty contests)))

  -- `left` more rounds from `round` on: the last round played, and whether it was quiet.
  unfoldable pub play_rounds : ℕ → ℕ → Exec Society (ℕ × Bool)
  play_rounds zero round = pure (round - 1, false)
  play_rounds (suc left) round =
      let rest = play_rounds left (suc round) in
      play_round round >>= λ quiet.
      if quiet
      then append_log "quiescent" (dict (("round", number round) ∷ [])) round >> pure (round, true)
      else rest

  unfoldable pub finish : ℕ → Bool → Exec Society Unit
  finish round true = pure tt
  finish round false = finalize_unquiesced round

  unfoldable pub run_result : List (String × List String) → String → ℕ → Bool → Society → RunResult
  run_result m hash round quiet s = record {
    manifest = m;
    manifest_hash = hash;
    rounds_used = round;
    quiescent = quiet;
    quiescent_round = if quiet then some round else none;
    deadlocks = s.deadlocks;
    rulings = s.rulings;
    chain_head = s.log.head;
    chain_length = s.log.length;
    reveal_rejections = s.reveal_rejections;
  }

  unfoldable pub run : Exec Society RunResult
  run = do
    (rounds, quiet) ← play_rounds setup.max_rounds 1
    finish rounds quiet
    m ← gets (λ s. manifest s.ledger)
    hash ← gets (λ s. manifest_hash s.ledger)
    append_log "manifest"
        (dict (
          ("manifest", manifest_json m)
          ∷ ("manifest_hash", str hash)
          ∷ ("rounds_used", number rounds)
          ∷ ("quiescent", bool quiet)
          ∷ []))
        rounds
    gets (run_result m hash rounds quiet)

-- Society.__post_init__: a ProtocolError for two agents of one name, or the fields of a new one.
unfoldable pub new_society : Setup → Society → Result Society
new_society setup s =
    if all_distinct (map (λ a. a.name) setup.agents)
    then ok (record s {
      ruling_seq = 0;
      positions = [];
      deadlocks = [];
      rulings = [];
      reveal_rejections = 0;
    })
    else err protocol_error
