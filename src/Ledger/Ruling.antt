-- ===== src/Ledger/Ruling.antt =====
-- apply_ruling_ops: a mediator's binding mutations, in order, under the same constraints.
use tarmac.Prelude.{ℕ, String, not, Option, some, List, [], ◌∷◌}
use tarmac.Prelude.Text.{concat}
use tarmac.Json.{dict, str, texts, optional}
use tarmac.Schemas.{
  ClaimStatus, ClaimRecord, RulingOp, OpKind, revoke, grant, void, op_text, is_granted, is_blocked,
}
use tarmac.Storage.{
  Exec, ledger_error, key_error, cannot_revoke, cannot_grant, grant_violates, pure, raise_if, gets,
  expect, transaction, ◌>>=◌, ◌>>◌,
}
use tarmac.Ledger.Tables.{Ledger, restore, find_resource}
use tarmac.Ledger.Queries.{claim}
use tarmac.Ledger.Allocate.{emit, emit_each, try_allocate, deallocate, set_status}
use tarmac.Ledger.Methods.{or_else, close_if_empty, void_claim}

unfoldable pub revoke_op : String → Option (List String) → ClaimRecord → ℕ → Exec Ledger Unit
revoke_op claim_id beneficiaries rec round = do
  raise_if (not (is_granted rec.status)) (ledger_error (cannot_revoke claim_id rec.status))
  deallocate claim_id rec.proposal.resource (or_else beneficiaries rec.holders) round
  close_if_empty claim_id ClaimStatus.revoked round

-- The transaction of a grant: a grant that the constraints refuse raises.
unfoldable pub allocate_granted :
    String → String → Option String → List String → ℕ → Exec Ledger Unit
allocate_granted claim_id r group targets round = do
  (granted, reason) ← try_allocate claim_id r group targets round
  raise_if (not granted) (ledger_error (grant_violates claim_id reason))
  set_status claim_id ClaimStatus.granted (some round)

unfoldable pub grant_op : String → Option (List String) → ClaimRecord → ℕ → Exec Ledger Unit
grant_op claim_id beneficiaries rec round = do
  raise_if (not (is_blocked rec.status)) (ledger_error (cannot_grant claim_id rec.status))
  let targets = or_else beneficiaries rec.proposal.beneficiaries
  res ← expect (← gets (find_resource rec.proposal.resource)) key_error
  transaction restore (allocate_granted claim_id rec.proposal.resource res.group targets round)
  emit_each "alloc" rec.proposal.resource claim_id round targets

unfoldable pub dispatch : RulingOp → OpKind → ClaimRecord → String → ℕ → Exec Ledger Unit
dispatch o revoke rec ruling_id round = revoke_op o.claim_id o.beneficiaries rec round
dispatch o grant rec ruling_id round = grant_op o.claim_id o.beneficiaries rec round
dispatch o void rec ruling_id round =
    void_claim o.claim_id (concat ("voided by ruling " ∷ ruling_id ∷ [])) round

unfoldable pub apply_ruling_op : String → ℕ → RulingOp → Exec Ledger Unit
apply_ruling_op ruling_id round o = do
  rec ← claim o.claim_id
  dispatch o o.op rec ruling_id round
  emit "ruling_op"
      (dict (
        ("ruling_id", str ruling_id)
        ∷ ("op", str (op_text o.op))
        ∷ ("claim_id", str o.claim_id)
        ∷ ("beneficiaries", optional texts o.beneficiaries)
        ∷ []))
      round

unfoldable pub apply_ruling_ops : List RulingOp → String → ℕ → Exec Ledger Unit
apply_ruling_ops [] ruling_id round = pure tt
apply_ruling_ops (o ∷ ops) ruling_id round =
    apply_ruling_op ruling_id round o >> apply_ruling_ops ops ruling_id round
