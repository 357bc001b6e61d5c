-- ===== src/Society/State.antt =====
-- The society's collaborators and fields, and the calls of the ledger and the bank, which write
-- to the society's own log.
use tarmac.Prelude.{ℕ, String, Bool, Option, none, some, List, map, filterb}
use tarmac.Prelude.Int.{sub_ℕ}
use tarmac.Prelude.Text.{◌==◌, text_leb, sort_by}
use tarmac.Json.{Json}
use tarmac.Storage.{Exec, Result, ok, err, pure, rescue, ◌>>=◌}
use tarmac.ChainLog.{ChainLog, LogEntry, append}
use tarmac.Schemas.{ClaimRecord, Position}
use tarmac.Schemas.Rulings.{SignedRuling}
use tarmac.Signing.{Ed25519}
use tarmac.Ledger.Tables.{Ledger, Resource, used}
use tarmac.Ledger.Queries.{blocked_claims, granted_claims, claim}
use tarmac.Currency.Bank.{Bank}
use tarmac.Currency.Contests.{open_contests}
use tarmac.Currency.Reports.{sorted_balances}
use tarmac.Deadlock.Detector.{Detector, Deadlock}
use tarmac.Society.Views.{Agent, Mediator, AgentView, MediatorView, ResourceView}

-- What a society is made with. `nonce` is the sequence that make_nonce draws from the ledger's
-- generator, `repr` Python's for a text, `sha256_of` the "sha256" of what the resolver returns.
pub record Setup : Type 1 where
  pub agents : List Agent
  pub mediator : Option Mediator
  pub crypto : Ed25519
  pub keypair : crypto.SigningKey
  pub scenario : Json
  pub private_view : String → Json
  pub sha256_of : Option (String → Option String)
  pub max_rounds : ℕ
  pub nonce : ℕ → String
  pub repr : String → String

-- The log is the one object that the ledger and the bank hold too.
pub record Society : Type 0 where
  pub ledger : Ledger
  pub bank : Bank
  pub detector : Detector
  pub log : ChainLog
  pub nonces_drawn : ℕ
  pub ruling_seq : ℕ
  pub positions : List (ℕ × Position)
  pub deadlocks : List Deadlock
  pub rulings : List SignedRuling
  pub reveal_rejections : ℕ

abbrev pub shared_log : ChainLog → Option ChainLog → ChainLog
shared_log log none = log
shared_log log (some after) = after

unfoldable pub on_ledger : {A : Type 0} → Exec Ledger A → Exec Society A
on_ledger body s =
    let (r, l) = body (record s.ledger { log = some s.log }) in
    (r, record s { ledger = l; log = shared_log s.log l.log })

unfoldable pub on_bank : {A : Type 0} → Exec Bank A → Exec Society A
on_bank body s =
    let (r, b) = body (record s.bank { log = some s.log }) in
    (r, record s { bank = b; log = shared_log s.log b.log })

unfoldable pub keep_entry : Society → Result LogEntry × ChainLog → Result (Unit {0}) × Society
keep_entry s (ok entry, log) = (ok tt, record s { log = log })
keep_entry s (err e, log) = (err e, record s { log = log })

-- self.chainlog.append
unfoldable pub append_log : String → Json → ℕ → Exec Society Unit
unfolding keep_entry
append_log kind body round s = keep_entry s (append kind body round s.log)

-- The claim, or `none` for a LedgerError.
unfoldable pub try_claim : String → Exec Society (Option ClaimRecord)
try_claim c = rescue (on_ledger (claim c) >>= λ rec. pure (some rec)) (λ _. pure none)

resource_leb : Resource → Resource → Bool
resource_leb x y = text_leb x.id y.id

-- _resources_view: every resource, by id, with its free units.
unfoldable pub resources_view : Ledger → List ResourceView
unfolding resource_leb
resources_view l =
    map
      (λ x. record {
        id = x.id;
        capacity = x.capacity;
        group = x.group;
        free = sub_ℕ x.capacity (used x.id l);
      })
      (sort_by resource_leb l.resources)

abbrev pub of_agent : String → List ClaimRecord → List ClaimRecord
of_agent name recs = filterb (λ rec. rec.proposal.agent == name) recs

module _ (setup : Setup) where
  unfoldable pub view_for : String → ℕ → Society → AgentView
  view_for name round s = record {
    round = round;
    agent = name;
    resources = resources_view s.ledger;
    granted_claims = granted_claims s.ledger;
    blocked_claims = blocked_claims s.ledger;
    my_granted = of_agent name (granted_claims s.ledger);
    my_blocked = of_agent name (blocked_claims s.ledger);
    open_contests = open_contests s.bank;
    rulings = s.rulings;
    balances = sorted_balances s.bank;
    scenario = setup.scenario;
    own = setup.private_view name;
  }

  unfoldable pub mediator_view : ℕ → List Position → List Deadlock → Society → MediatorView
  mediator_view round positions deadlocks s = record {
    base = view_for "__mediator__" round s;
    positions = positions;
    deadlocks = deadlocks;
  }
