-- ===== src/Ledger/Log.antt =====
-- What the ledger's methods write to the log is never a ruling: each keeps every property of the
-- log that the other entries keep.
pub mod Operations
use tarmac.Prelude.{
  ℕ, String, ◌≡◌, refl, sym, subst, Bool, true, false, Option, none, some, List, [], ◌∷◌, arith,
}
use tarmac.Prelude.Text.{◌==◌, text_discrete}
use tarmac.Json.{Json}
use tarmac.Schemas.{ClaimStatus, ClaimProposal, ClaimRecord, RulingOp, OpKind, revoke, grant, void}
use tarmac.Storage.{Exec, Result, ok, err, transaction}
use tarmac.Storage.Stable.{Stable, stable_rules, Stable-bind, Stable-modify, Stable-transaction}
use tarmac.ChainLog.{ChainLog, LogEntry, append}
use tarmac.ChainLog.Kept.{Keeps, OfLog}
use tarmac.Ledger.Tables.{
  Resource, insert_resource, Allocation, Claim, Commitment, Ledger, insert_allocation, insert_claim,
  insert_commitment, restore,
}
use tarmac.Ledger.Allocate.{
  keep_log, emit, emit_each, insert_all, insert_unless, try_allocate, delete_all, deallocate,
  set_status,
}
use tarmac.Ledger.Queries.{claim}
use tarmac.Prelude.Int.{ℤ, pos, negsuc}
use tarmac.Ledger.Methods.{
  add_resource, register_resource, next_claim_id, next_commit_id, commit, seal_and_commit,
  insert_and_allocate, emit_outcome, insert_and_apply, mark_revealed, reject_reveal, accept_reveal,
  reveal, close_if_empty, release, withdraw_claim, kill_claim, void_claim,
}
use tarmac.Ledger.Ruling.{
  revoke_op, allocate_granted, grant_op, dispatch, apply_ruling_op, apply_ruling_ops,
}

module _ (Q : ChainLog → Type 0) (keeps : Keeps Q) where
  -- The property of the ledger's log.
  abbrev pub Logged : Ledger → Type 0
  Logged l = OfLog Q l.log

  emit-Logged :
      (kind : String) (body : Json) (round : ℕ)
      → (kind == "ruling") ≡ false
      → Stable Logged (emit kind body round)
  unfolding emit keep_log
  emit-Logged kind body round other = record { after = λ l h. by_log l l.log refl h }
    where
      by_result : (l : Ledger) (r : Result LogEntry × ChainLog) → Q r.1 → Logged (keep_log l r).1
      by_result l (ok entry, log) h = h
      by_result l (err e, log) h = h

      by_log :
          (l : Ledger) (o : Option ChainLog)
          → l.log ≡ o
          → OfLog Q o
          → Logged
              (elim o as (λ _. Result (Unit {0}) × Ledger) [
                | none ↦ (ok tt, l)
                | some log ↦ keep_log l (append kind body round log)
              ]).1
      by_log l none at h = absurd h
      by_log l (some log) at h = by_result l _ (keeps.appends kind body round log other h)

  emit_each-Logged :
      (kind r c : String) (round : ℕ) (bs : List String)
      → (kind == "ruling") ≡ false
      → Stable Logged (emit_each kind r c round bs)
  unfolding emit_each
  emit_each-Logged kind r c round [] other = search stable_rules
  emit_each-Logged kind r c round (b ∷ bs) other =
      Stable-bind _ _ (emit-Logged kind _ round other)
        (λ _. emit_each-Logged kind r c round bs other)

  pub in_transaction :
      {A : Type 0} (m : Exec Ledger A) → Stable Logged m → Stable Logged (transaction restore m)
  in_transaction m km = Stable-transaction restore m (λ before after h k. k) km

  -- The steps on the tables.
  pub claim-Logged : (c : String) → Stable Logged (claim c)
  unfolding claim
  claim-Logged c = search stable_rules

  pub next_claim_id-Logged : Stable Logged next_claim_id
  unfolding next_claim_id
  next_claim_id-Logged = record { after = λ l h. h }

  pub next_commit_id-Logged : Stable Logged next_commit_id
  unfolding next_commit_id
  next_commit_id-Logged = record { after = λ l h. h }

  pub insert_commitment-Logged : (c : Commitment) → Stable Logged (insert_commitment c)
  unfolding insert_commitment
  insert_commitment-Logged c = record { after = λ l h. ground arith }

  pub insert_claim-Logged : (c : Claim) → Stable Logged (insert_claim c)
  unfolding insert_claim
  insert_claim-Logged c = record { after = λ l h. ground arith }

  insert_allocation-Logged : (a : Allocation) → Stable Logged (insert_allocation a)
  unfolding insert_allocation
  insert_allocation-Logged a = record { after = λ l h. ground arith }

  pub set_status-Logged :
      (c : String) (status : ClaimStatus) (resolved : Option ℕ)
      → Stable Logged (set_status c status resolved)
  unfolding set_status
  set_status-Logged c status resolved = Stable-modify _ (λ l h. h)

  pub mark_revealed-Logged :
      (id : String) (accepted : Bool) (nonce : String) (c : Option String)
      → Stable Logged (mark_revealed id accepted nonce c)
  unfolding mark_revealed
  mark_revealed-Logged id accepted nonce c = Stable-modify _ (λ l h. h)

  insert_all-Logged :
      (r : String) (group : Option String) (c : String) (round : ℕ) (bs : List String)
      → Stable Logged (insert_all r group c round bs)
  unfolding insert_all
  insert_all-Logged r group c round [] = search stable_rules
  insert_all-Logged r group c round (b ∷ bs) =
      Stable-bind _ _ (insert_allocation-Logged _) (λ _. insert_all-Logged r group c round bs)

  insert_unless-Logged :
      (o : Option (String × Allocation)) (c r : String) (group : Option String) (bs : List String)
      (round : ℕ)
      → Stable Logged (insert_unless o c r group bs round)
  unfolding insert_unless
  insert_unless-Logged (some held) c r group bs round = search stable_rules
  insert_unless-Logged none c r group bs round = search (stable_rules, insert_all-Logged)

  pub try_allocate-Logged :
      (c r : String) (group : Option String) (bs : List String) (round : ℕ)
      → Stable Logged (try_allocate c r group bs round)
  unfolding try_allocate
  try_allocate-Logged c r group bs round = search (stable_rules, insert_unless-Logged) depth 10

  delete_all-Logged : (c r : String) (bs : List String) → Stable Logged (delete_all c r bs)
  unfolding delete_all
  delete_all-Logged c r [] = search stable_rules
  delete_all-Logged c r (b ∷ bs) = Stable-bind _ _ (search stable_rules) (λ _.
      Stable-bind _ _ (search stable_rules)
        (λ _. Stable-bind _ _ (Stable-modify _ (λ l h. h)) (λ _. delete_all-Logged c r bs)))

  pub deallocate-Logged :
      (c r : String) (bs : List String) (round : ℕ) → Stable Logged (deallocate c r bs round)
  unfolding deallocate text_discrete
  deallocate-Logged c r bs round =
      Stable-bind _ _ (in_transaction _ (delete_all-Logged c r bs))
        (λ _. emit_each-Logged "dealloc" r c round bs refl)

  pub resource_entry : (body : Json) (round : ℕ) → Stable Logged (emit "resource" body round)
  unfolding text_discrete
  resource_entry body round = emit-Logged "resource" body round refl

  pub manifest_entry : (body : Json) (round : ℕ) → Stable Logged (emit "manifest" body round)
  unfolding text_discrete
  manifest_entry body round = emit-Logged "manifest" body round refl

  pub commit_entry : (body : Json) (round : ℕ) → Stable Logged (emit "commit" body round)
  unfolding text_discrete
  commit_entry body round = emit-Logged "commit" body round refl

  pub claim_granted_entry :
      (body : Json) (round : ℕ) → Stable Logged (emit "claim_granted" body round)
  unfolding text_discrete
  claim_granted_entry body round = emit-Logged "claim_granted" body round refl

  pub claim_blocked_entry :
      (body : Json) (round : ℕ) → Stable Logged (emit "claim_blocked" body round)
  unfolding text_discrete
  claim_blocked_entry body round = emit-Logged "claim_blocked" body round refl

  pub reveal_reject_entry :
      (body : Json) (round : ℕ) → Stable Logged (emit "reveal_reject" body round)
  unfolding text_discrete
  reveal_reject_entry body round = emit-Logged "reveal_reject" body round refl

  pub reveal_ok_entry : (body : Json) (round : ℕ) → Stable Logged (emit "reveal_ok" body round)
  unfolding text_discrete
  reveal_ok_entry body round = emit-Logged "reveal_ok" body round refl

  pub claim_plain_entry : (body : Json) (round : ℕ) → Stable Logged (emit "claim_plain" body round)
  unfolding text_discrete
  claim_plain_entry body round = emit-Logged "claim_plain" body round refl

  pub release_entry : (body : Json) (round : ℕ) → Stable Logged (emit "release" body round)
  unfolding text_discrete
  release_entry body round = emit-Logged "release" body round refl

  pub withdraw_entry : (body : Json) (round : ℕ) → Stable Logged (emit "withdraw" body round)
  unfolding text_discrete
  withdraw_entry body round = emit-Logged "withdraw" body round refl

  pub void_entry : (body : Json) (round : ℕ) → Stable Logged (emit "void" body round)
  unfolding text_discrete
  void_entry body round = emit-Logged "void" body round refl

  pub ruling_op_entry : (body : Json) (round : ℕ) → Stable Logged (emit "ruling_op" body round)
  unfolding text_discrete
  ruling_op_entry body round = emit-Logged "ruling_op" body round refl

  pub alloc_entries :
      (r c : String) (round : ℕ) (bs : List String) → Stable Logged (emit_each "alloc" r c round bs)
  unfolding text_discrete
  alloc_entries r c round bs = emit_each-Logged "alloc" r c round bs refl

pub ruleset log_rules = (
  stable_rules, in_transaction, claim-Logged, next_claim_id-Logged, next_commit_id-Logged,
  insert_commitment-Logged, insert_claim-Logged, set_status-Logged, mark_revealed-Logged,
  try_allocate-Logged, deallocate-Logged, commit_entry, claim_granted_entry, claim_blocked_entry,
  reveal_reject_entry, reveal_ok_entry, claim_plain_entry, release_entry, withdraw_entry,
  void_entry, ruling_op_entry, alloc_entries,
)
