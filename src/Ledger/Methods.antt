-- ===== src/Ledger/Methods.antt =====
-- The operations of the ledger that agents use. A sealed bid is committed, then revealed; a
-- revealed or plain claim is granted or blocked at once.
use tarmac.Prelude.{
  ℕ, suc, String, Bool, true, false, not, ◌&&◌, Option, none, some, List, [], ◌∷◌, is_empty,
  updateb, if◌then◌else◌,
}
use tarmac.Prelude.Int.{ℤ, pos, negsuc}
use tarmac.Prelude.Text.{◌==◌}
use tarmac.Json.{dict, str, number, texts, optional}
use tarmac.Schemas.{ClaimStatus, ClaimProposal, ClaimRecord, canonical_dict, is_granted, is_blocked}
use tarmac.Commitment.{commitment_digest, verify_commitment}
use tarmac.Storage.{
  Exec, ok, ledger_error, negative_capacity, agent_mismatch, already_registered, unknown_resource,
  unknown_commitment, already_revealed, cannot_release, cannot_withdraw, not_owner, not_withdrawer,
  pure, raise, raise_if, lift, gets, expect, modify, transaction, ◌>>=◌, ◌>>◌,
}
use tarmac.Ledger.Tables.{
  Resource, Claim, Ledger, restore, find_resource, find_commitment, is_some, insert_resource,
  insert_claim, insert_commitment,
}
use tarmac.Ledger.Queries.{claim_id_text, commit_id_text, claim}
use tarmac.Ledger.Allocate.{emit, emit_each, try_allocate, deallocate, set_status}

unfoldable pub next_claim_id : Exec Ledger String
next_claim_id l = let n = suc l.claim_seq in (ok (claim_id_text n), record l { claim_seq = n })

unfoldable pub next_commit_id : Exec Ledger String
next_commit_id l = let n = suc l.commit_seq in (ok (commit_id_text n), record l { commit_seq = n })

-- The transaction of register_resource.
unfoldable pub add_resource : Resource → Exec Ledger Unit
add_resource r = do
  known ← gets (λ l. is_some (find_resource r.id l))
  raise_if known (ledger_error (already_registered r.id))
  insert_resource r

unfoldable pub register_resource : String → ℤ → Option String → Exec Ledger Unit
register_resource id (negsuc n) group = raise (ledger_error negative_capacity)
register_resource id (pos capacity) group = do
  transaction restore (add_resource (record { id = id; capacity = capacity; group = group }))
  emit "resource"
      (dict (("id", str id) ∷ ("capacity", number capacity) ∷ ("group", optional str group) ∷ [])) 0

unfoldable pub commit : String → String → ℕ → Exec Ledger String
commit agent digest round = do
  id ← next_commit_id
  transaction restore (
      insert_commitment (record {
        id = id;
        agent = agent;
        digest = digest;
        round = round;
        revealed = false;
        accepted = none;
        nonce_hex = none;
        claim_id = none;
      }))
  emit "commit"
      (dict (("commitment_id", str id) ∷ ("agent", str agent) ∷ ("digest", str digest) ∷ [])) round
  pure id

-- `nonce` is what make_nonce draws.
unfoldable pub seal_and_commit : ClaimProposal → String → ℕ → Exec Ledger (String × String)
seal_and_commit p nonce round = do
  digest ← lift (commitment_digest (canonical_dict p) nonce)
  id ← commit p.agent digest round
  pure (id, nonce)

new_claim : String → ClaimProposal → ℕ → Option String → Claim
new_claim claim_id p round commitment_id = record {
  id = claim_id;
  agent = p.agent;
  resource = p.resource;
  qty = p.qty;
  beneficiaries = p.beneficiaries;
  basis = p.basis;
  revocable = p.revocable;
  payload = p.payload;
  status = ClaimStatus.revealed;
  round_committed = round;
  round_resolved = none;
  commitment_id = commitment_id;
}

-- The transaction of _insert_and_apply: the row, the allocation, the status.
unfoldable pub insert_and_allocate :
    String → ClaimProposal → Option String → ℕ → Option String → Exec Ledger (Bool × String)
unfolding new_claim
insert_and_allocate claim_id p group round commitment_id = do
  insert_claim (new_claim claim_id p round commitment_id)
  (granted, reason) ← try_allocate claim_id p.resource group p.beneficiaries round
  set_status claim_id (if granted then ClaimStatus.granted else ClaimStatus.blocked)
      (if granted then some round else none)
  pure (granted, reason)

-- The events of _insert_and_apply.
unfoldable pub emit_outcome : String → ClaimProposal → ℕ → Bool × String → Exec Ledger Unit
emit_outcome claim_id p round (true, reason) =
    emit "claim_granted"
      (dict (
        ("claim_id", str claim_id)
        ∷ ("agent", str p.agent)
        ∷ ("resource", str p.resource)
        ∷ ("beneficiaries", texts p.beneficiaries)
        ∷ []))
      round
    >> emit_each "alloc" p.resource claim_id round p.beneficiaries
emit_outcome claim_id p round (false, reason) =
    emit "claim_blocked"
      (dict (
        ("claim_id", str claim_id)
        ∷ ("agent", str p.agent)
        ∷ ("resource", str p.resource)
        ∷ ("qty", number p.qty)
        ∷ ("reason", str reason)
        ∷ []))
      round

unfoldable pub insert_and_apply :
    String → ClaimProposal → ℕ → Option String → Exec Ledger ClaimRecord
insert_and_apply claim_id p round commitment_id = do
  res ← expect (← gets (find_resource p.resource)) (ledger_error (unknown_resource p.resource))
  outcome ← transaction restore (insert_and_allocate claim_id p res.group round commitment_id)
  emit_outcome claim_id p round outcome
  claim claim_id

-- UPDATE commitments SET revealed=1, ... WHERE id=?
unfoldable pub mark_revealed : String → Bool → String → Option String → Exec Ledger Unit
mark_revealed id accepted nonce claim_id = modify (λ l. record l {
  commitments =
      updateb (λ c. c.id == id)
        (λ c. record c {
          revealed = true;
          accepted = some accepted;
          nonce_hex = some nonce;
          claim_id = elim claim_id [ none ↦ c.claim_id | some x ↦ some x ];
        })
        l.commitments;
})

unfoldable pub reject_reveal :
    String → ClaimProposal → String → String → ℕ → Exec Ledger ClaimRecord
reject_reveal id p nonce digest round = do
  transaction restore (mark_revealed id false nonce none)
  emit "reveal_reject"
      (dict (
        ("commitment_id", str id)
        ∷ ("agent", str p.agent)
        ∷ ("claim", canonical_dict p)
        ∷ ("nonce", str nonce)
        ∷ ("expected_digest", str digest)
        ∷ []))
      round
  pure (record {
    id = "";
    proposal = p;
    status = ClaimStatus.reveal_rejected;
    round_committed = round;
    round_resolved = none;
    commitment_id = some id;
    holders = [];
  })

unfoldable pub accept_reveal : String → ClaimProposal → String → ℕ → Exec Ledger ClaimRecord
accept_reveal id p nonce round = do
  claim_id ← next_claim_id
  transaction restore (mark_revealed id true nonce (some claim_id))
  emit "reveal_ok"
      (dict (
        ("commitment_id", str id)
        ∷ ("claim_id", str claim_id)
        ∷ ("agent", str p.agent)
        ∷ ("claim", canonical_dict p)
        ∷ ("nonce", str nonce)
        ∷ []))
      round
  insert_and_apply claim_id p round (some id)

unfoldable pub reveal : String → ClaimProposal → String → ℕ → Exec Ledger ClaimRecord
reveal id p nonce round = do
  row ← expect (← gets (find_commitment id)) (ledger_error (unknown_commitment id))
  raise_if row.revealed (ledger_error (already_revealed id))
  raise_if (not (row.agent == p.agent)) (ledger_error agent_mismatch)
  matches ← lift (verify_commitment (canonical_dict p) nonce row.digest)
  if matches then accept_reveal id p nonce round else reject_reveal id p nonce row.digest round

unfoldable pub submit_plain : ClaimProposal → ℕ → Exec Ledger ClaimRecord
submit_plain p round = do
  claim_id ← next_claim_id
  emit "claim_plain"
      (dict
        (("claim_id", str claim_id) ∷ ("agent", str p.agent) ∷ ("claim", canonical_dict p) ∷ []))
      round
  insert_and_apply claim_id p round none

abbrev pub or_else {ℓ} : {A : Type ℓ} → Option A → A → A
or_else none a = a
or_else (some b) a = b

-- The update after a release or a revocation that left the claim no holder.
unfoldable pub close_if_empty : String → ClaimStatus → ℕ → Exec Ledger Unit
close_if_empty claim_id status round = do
  left ← claim claim_id
  if is_empty left.holders
      then transaction restore (set_status claim_id status (some round))
      else pure tt

unfoldable pub release : String → String → Option (List String) → ℕ → Exec Ledger Unit
release agent claim_id beneficiaries round = do
  rec ← claim claim_id
  raise_if (not (rec.proposal.agent == agent))
      (ledger_error (not_owner agent claim_id rec.proposal.agent))
  raise_if (not (is_granted rec.status)) (ledger_error (cannot_release claim_id rec.status))
  deallocate claim_id rec.proposal.resource (or_else beneficiaries rec.holders) round
  close_if_empty claim_id ClaimStatus.released round
  emit "release"
      (dict (
        ("claim_id", str claim_id)
        ∷ ("agent", str agent)
        ∷ ("beneficiaries", texts (or_else beneficiaries rec.holders))
        ∷ []))
      round

unfoldable pub withdraw_claim : String → String → ℕ → Exec Ledger Unit
withdraw_claim agent claim_id round = do
  rec ← claim claim_id
  raise_if (not (rec.proposal.agent == agent))
      (ledger_error (not_withdrawer agent claim_id rec.proposal.agent))
  raise_if (not (is_blocked rec.status)) (ledger_error (cannot_withdraw claim_id rec.status))
  transaction restore (set_status claim_id ClaimStatus.withdrawn (some round))
  emit "withdraw" (dict (("claim_id", str claim_id) ∷ ("agent", str agent) ∷ [])) round

-- void_claim on a claim that is voided, revoked or released does nothing.
abbrev pub is_dead : ClaimStatus → Bool
is_dead ClaimStatus.voided = true
is_dead ClaimStatus.revoked = true
is_dead ClaimStatus.released = true
is_dead _ = false

unfoldable pub kill_claim : String → String → ClaimRecord → ℕ → Exec Ledger Unit
kill_claim claim_id reason rec round = do
  if is_granted rec.status && not (is_empty rec.holders)
      then deallocate claim_id rec.proposal.resource rec.holders round
      else pure tt
  transaction restore (set_status claim_id ClaimStatus.voided (some round))
  emit "void" (dict (("claim_id", str claim_id) ∷ ("reason", str reason) ∷ [])) round

unfoldable pub void_claim : String → String → ℕ → Exec Ledger Unit
void_claim claim_id reason round = do
  rec ← claim claim_id
  if is_dead rec.status then pure tt else kill_claim claim_id reason rec round
