-- ===== src/Ledger/Constraints/Operations.antt =====
-- Every operation of the ledger keeps the constraint invariant, whether it returns or raises.
use tarmac.Prelude.{ℕ, String, ◌≡◌, Bool, true, false, Option, some, List, [], ◌∷◌, arith}
use tarmac.Schemas.{ClaimStatus, ClaimProposal, ClaimRecord, RulingOp, OpKind, revoke, grant, void}
use tarmac.Storage.{Exec, modify, transaction}
use tarmac.Storage.Stable.{Stable, stable_rules, Stable-bind, Stable-raise_if, Stable-transaction}
use tarmac.Ledger.Tables.{Resource, Commitment, Ledger, resource_in, insert_commitment, restore}
use tarmac.Ledger.Queries.{claim}
use tarmac.Ledger.Methods.{
  next_claim_id, next_commit_id, commit, seal_and_commit, insert_and_allocate, emit_outcome,
  insert_and_apply, mark_revealed, reject_reveal, accept_reveal, reveal, submit_plain,
  close_if_empty, release, withdraw_claim, kill_claim, void_claim,
}
use tarmac.Ledger.Ruling.{
  revoke_op, allocate_granted, grant_op, dispatch, apply_ruling_op, apply_ruling_ops,
}
use tarmac.Ledger.Constraints.Steps.{
  Within, Within-restore, try_allocate-Stable, emit-Stable, emit_each-Stable, set_status-Stable,
  insert_claim-Stable, deallocate-Stable, with_resource-Stable,
}

module _ (rs : List Resource) where
  ruleset step_rules = (
    stable_rules, emit-Stable, emit_each-Stable, set_status-Stable, insert_claim-Stable,
    deallocate-Stable,
  )

  in_transaction :
      {A : Type 0} (m : Exec Ledger A)
      → Stable (Within rs) m
      → Stable (Within rs) (transaction restore m)
  in_transaction m km = Stable-transaction restore m (Within-restore rs) km

  pub claim-Stable : (c : String) → Stable (Within rs) (claim c)
  unfolding claim
  claim-Stable c = search stable_rules

  next_claim_id-Stable : Stable (Within rs) next_claim_id
  unfolding next_claim_id
  next_claim_id-Stable = record { after = λ l h. h }

  next_commit_id-Stable : Stable (Within rs) next_commit_id
  unfolding next_commit_id
  next_commit_id-Stable = record { after = λ l h. h }

  insert_commitment-Stable : (c : Commitment) → Stable (Within rs) (insert_commitment c)
  unfolding insert_commitment
  insert_commitment-Stable c = record { after = λ l h. ground arith }

  pub commit-Stable :
      (agent digest : String) (round : ℕ) → Stable (Within rs) (commit agent digest round)
  unfolding commit
  commit-Stable agent digest round =
      search (step_rules, in_transaction, next_commit_id-Stable, insert_commitment-Stable) depth 8

  pub seal_and_commit-Stable :
      (p : ClaimProposal) (nonce : String) (round : ℕ)
      → Stable (Within rs) (seal_and_commit p nonce round)
  unfolding seal_and_commit
  seal_and_commit-Stable p nonce round = search (stable_rules, commit-Stable) depth 8

  insert_and_allocate-Stable :
      (claim_id : String) (p : ClaimProposal) (x : Resource) (round : ℕ)
      (commitment : Option String)
      → resource_in p.resource rs ≡ some x
      → Stable (Within rs) (insert_and_allocate claim_id p x.group round commitment)
  unfolding insert_and_allocate
  insert_and_allocate-Stable claim_id p x round commitment known =
      search (step_rules, try_allocate-Stable) depth 8

  emit_outcome-Stable :
      (claim_id : String) (p : ClaimProposal) (round : ℕ) (outcome : Bool × String)
      → Stable (Within rs) (emit_outcome claim_id p round outcome)
  unfolding emit_outcome
  emit_outcome-Stable claim_id p round (true, reason) = search step_rules
  emit_outcome-Stable claim_id p round (false, reason) = search step_rules

  insert_and_apply-Stable :
      (claim_id : String) (p : ClaimProposal) (round : ℕ) (commitment : Option String)
      → Stable (Within rs) (insert_and_apply claim_id p round commitment)
  unfolding insert_and_apply
  insert_and_apply-Stable claim_id p round commitment =
      with_resource-Stable rs p.resource _ _ λ x known.
        search
          (
            stable_rules, in_transaction, insert_and_allocate-Stable, emit_outcome-Stable,
            claim-Stable,
          )
          depth 8

  mark_revealed-Stable :
      (id : String) (accepted : Bool) (nonce : String) (c : Option String)
      → Stable (Within rs) (mark_revealed id accepted nonce c)
  unfolding mark_revealed modify
  mark_revealed-Stable id accepted nonce c = record { after = λ l h. h }

  reject_reveal-Stable :
      (id : String) (p : ClaimProposal) (nonce digest : String) (round : ℕ)
      → Stable (Within rs) (reject_reveal id p nonce digest round)
  unfolding reject_reveal
  reject_reveal-Stable id p nonce digest round =
      search (step_rules, in_transaction, mark_revealed-Stable) depth 8

  accept_reveal-Stable :
      (id : String) (p : ClaimProposal) (nonce : String) (round : ℕ)
      → Stable (Within rs) (accept_reveal id p nonce round)
  unfolding accept_reveal
  accept_reveal-Stable id p nonce round =
      search
        (
          step_rules, in_transaction, next_claim_id-Stable, mark_revealed-Stable,
          insert_and_apply-Stable,
        )
        depth 8

  pub reveal-Stable :
      (id : String) (p : ClaimProposal) (nonce : String) (round : ℕ)
      → Stable (Within rs) (reveal id p nonce round)
  unfolding reveal
  reveal-Stable id p nonce round =
      search (stable_rules, accept_reveal-Stable, reject_reveal-Stable) depth 10

  pub submit_plain-Stable :
      (p : ClaimProposal) (round : ℕ) → Stable (Within rs) (submit_plain p round)
  unfolding submit_plain
  submit_plain-Stable p round =
      search (step_rules, next_claim_id-Stable, insert_and_apply-Stable) depth 8

  close_if_empty-Stable :
      (c : String) (status : ClaimStatus) (round : ℕ)
      → Stable (Within rs) (close_if_empty c status round)
  unfolding close_if_empty
  close_if_empty-Stable c status round = search (step_rules, in_transaction, claim-Stable) depth 8

  pub release-Stable :
      (agent c : String) (bs : Option (List String)) (round : ℕ)
      → Stable (Within rs) (release agent c bs round)
  unfolding release
  release-Stable agent c bs round =
      search (step_rules, claim-Stable, close_if_empty-Stable) depth 12

  pub withdraw_claim-Stable :
      (agent c : String) (round : ℕ) → Stable (Within rs) (withdraw_claim agent c round)
  unfolding withdraw_claim
  withdraw_claim-Stable agent c round = search (step_rules, in_transaction, claim-Stable) depth 12

  kill_claim-Stable :
      (c reason : String) (rec : ClaimRecord) (round : ℕ)
      → Stable (Within rs) (kill_claim c reason rec round)
  unfolding kill_claim
  kill_claim-Stable c reason rec round = search (step_rules, in_transaction) depth 8

  pub void_claim-Stable :
      (c reason : String) (round : ℕ) → Stable (Within rs) (void_claim c reason round)
  unfolding void_claim
  void_claim-Stable c reason round = search (stable_rules, claim-Stable, kill_claim-Stable) depth 8

  revoke_op-Stable :
      (c : String) (bs : Option (List String)) (rec : ClaimRecord) (round : ℕ)
      → Stable (Within rs) (revoke_op c bs rec round)
  unfolding revoke_op
  revoke_op-Stable c bs rec round = search (step_rules, close_if_empty-Stable) depth 8

  allocate_granted-Stable :
      (c r : String) (x : Resource) (bs : List String) (round : ℕ)
      → resource_in r rs ≡ some x
      → Stable (Within rs) (allocate_granted c r x.group bs round)
  unfolding allocate_granted
  allocate_granted-Stable c r x bs round known = search (step_rules, try_allocate-Stable) depth 8

  grant_op-Stable :
      (c : String) (bs : Option (List String)) (rec : ClaimRecord) (round : ℕ)
      → Stable (Within rs) (grant_op c bs rec round)
  unfolding grant_op
  grant_op-Stable c bs rec round = Stable-bind _ _ (Stable-raise_if _ _) λ _.
      with_resource-Stable rs rec.proposal.resource _ _
        λ x known. search (step_rules, in_transaction, allocate_granted-Stable) depth 8

  dispatch-Stable :
      (o : RulingOp) (k : OpKind) (rec : ClaimRecord) (ruling_id : String) (round : ℕ)
      → Stable (Within rs) (dispatch o k rec ruling_id round)
  unfolding dispatch
  dispatch-Stable o revoke rec ruling_id round =
      revoke_op-Stable o.claim_id o.beneficiaries rec round
  dispatch-Stable o grant rec ruling_id round = grant_op-Stable o.claim_id o.beneficiaries rec round
  dispatch-Stable o void rec ruling_id round = void_claim-Stable o.claim_id _ round

  apply_ruling_op-Stable :
      (ruling_id : String) (round : ℕ) (o : RulingOp)
      → Stable (Within rs) (apply_ruling_op ruling_id round o)
  unfolding apply_ruling_op
  apply_ruling_op-Stable ruling_id round o =
      search (step_rules, claim-Stable, dispatch-Stable) depth 8

  pub apply_ruling_ops-Stable :
      (ops : List RulingOp) (ruling_id : String) (round : ℕ)
      → Stable (Within rs) (apply_ruling_ops ops ruling_id round)
  unfolding apply_ruling_ops
  apply_ruling_ops-Stable [] ruling_id round = search stable_rules
  apply_ruling_ops-Stable (o ∷ ops) ruling_id round =
      Stable-bind _ _ (apply_ruling_op-Stable ruling_id round o)
        (λ _. apply_ruling_ops-Stable ops ruling_id round)
