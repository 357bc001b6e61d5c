-- ===== src/Ledger/Log/Operations.antt =====
-- Each method of the ledger keeps every property of its log that entries other than rulings keep.
use tarmac.Prelude.{ℕ, String, Bool, true, false, Option, List, [], ◌∷◌, arith}
use tarmac.Schemas.{ClaimStatus, ClaimProposal, ClaimRecord, RulingOp, OpKind, revoke, grant, void}
use tarmac.Storage.Stable.{Stable, stable_rules, Stable-bind}
use tarmac.ChainLog.{ChainLog}
use tarmac.ChainLog.Kept.{Keeps}
use tarmac.Ledger.Tables.{Resource, insert_resource}
use tarmac.Prelude.Int.{ℤ, pos, negsuc}
use tarmac.Ledger.Methods.{
  submit_plain, add_resource, register_resource, commit, seal_and_commit, insert_and_allocate,
  emit_outcome, insert_and_apply, reject_reveal, accept_reveal, reveal, close_if_empty, release,
  withdraw_claim, kill_claim, void_claim,
}
use tarmac.Ledger.Ruling.{
  revoke_op, allocate_granted, grant_op, dispatch, apply_ruling_op, apply_ruling_ops,
}
use tarmac.Ledger.Log.{Logged, log_rules, resource_entry}

module _ (Q : ChainLog → Type 0) (keeps : Keeps Q) where
  pub commit-Logged :
      (agent digest : String) (round : ℕ) → Stable (Logged Q keeps) (commit agent digest round)
  unfolding commit
  commit-Logged agent digest round = search log_rules depth 12

  pub seal_and_commit-Logged :
      (p : ClaimProposal) (nonce : String) (round : ℕ)
      → Stable (Logged Q keeps) (seal_and_commit p nonce round)
  unfolding seal_and_commit
  seal_and_commit-Logged p nonce round = search (stable_rules, commit-Logged) depth 12

  insert_and_allocate-Logged :
      (c : String) (p : ClaimProposal) (group : Option String) (round : ℕ)
      (commitment : Option String)
      → Stable (Logged Q keeps) (insert_and_allocate c p group round commitment)
  unfolding insert_and_allocate
  insert_and_allocate-Logged c p group round commitment = search log_rules depth 12

  emit_outcome-Logged :
      (c : String) (p : ClaimProposal) (round : ℕ) (outcome : Bool × String)
      → Stable (Logged Q keeps) (emit_outcome c p round outcome)
  unfolding emit_outcome
  emit_outcome-Logged c p round (true, reason) = search log_rules
  emit_outcome-Logged c p round (false, reason) = search log_rules

  insert_and_apply-Logged :
      (c : String) (p : ClaimProposal) (round : ℕ) (commitment : Option String)
      → Stable (Logged Q keeps) (insert_and_apply c p round commitment)
  unfolding insert_and_apply
  insert_and_apply-Logged c p round commitment =
      search (log_rules, insert_and_allocate-Logged, emit_outcome-Logged) depth 12

  reject_reveal-Logged :
      (id : String) (p : ClaimProposal) (nonce digest : String) (round : ℕ)
      → Stable (Logged Q keeps) (reject_reveal id p nonce digest round)
  unfolding reject_reveal
  reject_reveal-Logged id p nonce digest round = search log_rules depth 12

  accept_reveal-Logged :
      (id : String) (p : ClaimProposal) (nonce : String) (round : ℕ)
      → Stable (Logged Q keeps) (accept_reveal id p nonce round)
  unfolding accept_reveal
  accept_reveal-Logged id p nonce round = search (log_rules, insert_and_apply-Logged) depth 12

  pub reveal-Logged :
      (id : String) (p : ClaimProposal) (nonce : String) (round : ℕ)
      → Stable (Logged Q keeps) (reveal id p nonce round)
  unfolding reveal
  reveal-Logged id p nonce round =
      search (stable_rules, accept_reveal-Logged, reject_reveal-Logged) depth 12

  close_if_empty-Logged :
      (c : String) (status : ClaimStatus) (round : ℕ)
      → Stable (Logged Q keeps) (close_if_empty c status round)
  unfolding close_if_empty
  close_if_empty-Logged c status round = search log_rules depth 12

  pub release-Logged :
      (agent c : String) (bs : Option (List String)) (round : ℕ)
      → Stable (Logged Q keeps) (release agent c bs round)
  unfolding release
  release-Logged agent c bs round = search (log_rules, close_if_empty-Logged) depth 12

  pub withdraw_claim-Logged :
      (agent c : String) (round : ℕ) → Stable (Logged Q keeps) (withdraw_claim agent c round)
  unfolding withdraw_claim
  withdraw_claim-Logged agent c round = search log_rules depth 12

  kill_claim-Logged :
      (c reason : String) (rec : ClaimRecord) (round : ℕ)
      → Stable (Logged Q keeps) (kill_claim c reason rec round)
  unfolding kill_claim
  kill_claim-Logged c reason rec round = search log_rules depth 12

  pub void_claim-Logged :
      (c reason : String) (round : ℕ) → Stable (Logged Q keeps) (void_claim c reason round)
  unfolding void_claim
  void_claim-Logged c reason round = search (log_rules, kill_claim-Logged) depth 12

  revoke_op-Logged :
      (c : String) (bs : Option (List String)) (rec : ClaimRecord) (round : ℕ)
      → Stable (Logged Q keeps) (revoke_op c bs rec round)
  unfolding revoke_op
  revoke_op-Logged c bs rec round = search (log_rules, close_if_empty-Logged) depth 12

  allocate_granted-Logged :
      (c r : String) (group : Option String) (bs : List String) (round : ℕ)
      → Stable (Logged Q keeps) (allocate_granted c r group bs round)
  unfolding allocate_granted
  allocate_granted-Logged c r group bs round = search log_rules depth 12

  grant_op-Logged :
      (c : String) (bs : Option (List String)) (rec : ClaimRecord) (round : ℕ)
      → Stable (Logged Q keeps) (grant_op c bs rec round)
  unfolding grant_op
  grant_op-Logged c bs rec round = search (log_rules, allocate_granted-Logged) depth 12

  dispatch-Logged :
      (o : RulingOp) (k : OpKind) (rec : ClaimRecord) (ruling_id : String) (round : ℕ)
      → Stable (Logged Q keeps) (dispatch o k rec ruling_id round)
  unfolding dispatch
  dispatch-Logged o revoke rec ruling_id round =
      revoke_op-Logged o.claim_id o.beneficiaries rec round
  dispatch-Logged o grant rec ruling_id round = grant_op-Logged o.claim_id o.beneficiaries rec round
  dispatch-Logged o void rec ruling_id round = void_claim-Logged o.claim_id _ round

  apply_ruling_op-Logged :
      (ruling_id : String) (round : ℕ) (o : RulingOp)
      → Stable (Logged Q keeps) (apply_ruling_op ruling_id round o)
  unfolding apply_ruling_op
  apply_ruling_op-Logged ruling_id round o = search (log_rules, dispatch-Logged) depth 12

  pub apply_ruling_ops-Logged :
      (ops : List RulingOp) (ruling_id : String) (round : ℕ)
      → Stable (Logged Q keeps) (apply_ruling_ops ops ruling_id round)
  unfolding apply_ruling_ops
  apply_ruling_ops-Logged [] ruling_id round = search stable_rules
  apply_ruling_ops-Logged (o ∷ ops) ruling_id round =
      Stable-bind _ _ (apply_ruling_op-Logged ruling_id round o)
        (λ _. apply_ruling_ops-Logged ops ruling_id round)

  insert_resource-Logged : (x : Resource) → Stable (Logged Q keeps) (insert_resource x)
  unfolding insert_resource
  insert_resource-Logged x = record { after = λ l h. ground arith }

  add_resource-Logged : (x : Resource) → Stable (Logged Q keeps) (add_resource x)
  unfolding add_resource
  add_resource-Logged x = search (stable_rules, insert_resource-Logged) depth 10

  pub register_resource-Logged :
      (id : String) (capacity : ℤ) (group : Option String)
      → Stable (Logged Q keeps) (register_resource id capacity group)
  unfolding register_resource
  register_resource-Logged id (negsuc n) group = search stable_rules
  register_resource-Logged id (pos capacity) group =
      search (log_rules, add_resource-Logged, resource_entry) depth 10

  pub submit_plain-Logged :
      (p : ClaimProposal) (round : ℕ) → Stable (Logged Q keeps) (submit_plain p round)
  unfolding submit_plain
  submit_plain-Logged p round = search (log_rules, insert_and_apply-Logged) depth 10
