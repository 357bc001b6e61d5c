-- ===== src/Ledger/Calls.antt =====
-- A client's calls of the ledger's public methods, one after the other. An exception ends its own
-- call, and the next call finds the ledger as the exception left it.
use tarmac.Prelude.{ℕ, String, Option, List, [], ◌∷◌}
use tarmac.Prelude.Int.{ℤ}
use tarmac.ChainLog.{ChainLog}
use tarmac.Schemas.{ClaimProposal, RulingOp}
use tarmac.Ledger.Tables.{Ledger}
use tarmac.Ledger.Methods.{
  register_resource, commit, seal_and_commit, reveal, submit_plain, release, withdraw_claim,
  void_claim,
}
use tarmac.Ledger.Ruling.{apply_ruling_ops}

pub data Call : Type 0 where
  register : String → ℤ → Option String → Call
  commit_digest : String → String → ℕ → Call
  seal : ClaimProposal → String → ℕ → Call
  reveal_bid : String → ClaimProposal → String → ℕ → Call
  submit : ClaimProposal → ℕ → Call
  release_claim : String → String → Option (List String) → ℕ → Call
  rule : List RulingOp → String → ℕ → Call
  withdraw : String → String → ℕ → Call
  kill : String → String → ℕ → Call

-- The ledger after a call.
unfoldable pub perform : Call → Ledger → Ledger
perform (register id capacity group) l = (register_resource id capacity group l).1
perform (commit_digest agent digest round) l = (commit agent digest round l).1
perform (seal p nonce round) l = (seal_and_commit p nonce round l).1
perform (reveal_bid id p nonce round) l = (reveal id p nonce round l).1
perform (submit p round) l = (submit_plain p round l).1
perform (release_claim agent c bs round) l = (release agent c bs round l).1
perform (rule ops ruling_id round) l = (apply_ruling_ops ops ruling_id round l).1
perform (withdraw agent c round) l = (withdraw_claim agent c round l).1
perform (kill c reason round) l = (void_claim c reason round l).1

unfoldable pub perform_all : List Call → Ledger → Ledger
perform_all [] l = l
perform_all (c ∷ cs) l = perform_all cs (perform c l)

-- ClaimLedger(storage, log) on a fresh database.
abbrev pub new_ledger : Option ChainLog → Ledger
new_ledger log = record {
  resources = [];
  allocations = [];
  claims = [];
  commitments = [];
  claim_seq = 0;
  commit_seq = 0;
  log = log;
}
