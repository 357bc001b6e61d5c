-- ===== src/Ledger/Faults.antt =====
-- str(exc) of a LedgerError. `repr` is Python's, of a text.
use tarmac.Prelude.{String, [], ◌∷◌}
use tarmac.Prelude.Text.{concat}
use tarmac.Schemas.{status_text}
use tarmac.Storage.{
  LedgerFault, negative_capacity, agent_mismatch, already_registered, unknown_resource,
  unknown_commitment, already_revealed, unknown_claim, cannot_release, cannot_revoke, cannot_grant,
  cannot_withdraw, not_owner, not_withdrawer, no_allocation, grant_violates,
}

unfoldable pub fault_text : (String → String) → LedgerFault → String
fault_text repr negative_capacity = "capacity must be >= 0"
fault_text repr agent_mismatch = "reveal agent does not match commitment agent"
fault_text repr (already_registered r) = concat ("resource " ∷ repr r ∷ " already registered" ∷ [])
fault_text repr (unknown_resource r) = concat ("unknown resource " ∷ repr r ∷ [])
fault_text repr (unknown_commitment c) = concat ("unknown commitment " ∷ repr c ∷ [])
fault_text repr (already_revealed c) = concat ("commitment " ∷ repr c ∷ " already revealed" ∷ [])
fault_text repr (unknown_claim c) = concat ("unknown claim " ∷ repr c ∷ [])
fault_text repr (cannot_release c status) =
    concat ("claim " ∷ c ∷ " is " ∷ status_text status ∷ ", not granted" ∷ [])
fault_text repr (cannot_revoke c status) =
    concat ("cannot revoke " ∷ c ∷ ": status " ∷ status_text status ∷ [])
fault_text repr (cannot_grant c status) =
    concat ("cannot grant " ∷ c ∷ ": status " ∷ status_text status ∷ [])
fault_text repr (cannot_withdraw c status) =
    concat ("only blocked claims can be withdrawn (" ∷ c ∷ " is " ∷ status_text status ∷ ")" ∷ [])
fault_text repr (not_owner agent c owner) =
    concat (agent ∷ " cannot release claim " ∷ c ∷ " owned by " ∷ owner ∷ [])
fault_text repr (not_withdrawer agent c owner) =
    concat (agent ∷ " cannot withdraw claim " ∷ c ∷ " owned by " ∷ owner ∷ [])
fault_text repr (no_allocation r b c) =
    concat ("no allocation of " ∷ r ∷ " to " ∷ b ∷ " under claim " ∷ c ∷ [])
fault_text repr (grant_violates c reason) =
    concat ("ruling grant of " ∷ c ∷ " violates constraints: " ∷ reason ∷ [])
