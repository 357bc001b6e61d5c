-- ===== src/Ledger/Safety.antt =====
-- I1 for every history of the ledger: whatever calls a client makes, failing ones among them.
use tarmac.Prelude.{
  ℕ, String, refl, sym, subst, Option, List, [], ◌∷◌, arith, Option-cases, inl, inr,
}
use tarmac.Prelude.Int.{ℤ, pos, negsuc}
use tarmac.Json.{Json}
use tarmac.ChainLog.{ChainLog}
use tarmac.Storage.{◌>>=◌, Exec}
use tarmac.Storage.Stable.{Stable, stable_rules, Stable-bind, Stable-transaction}
use tarmac.Ledger.Tables.{restore, Resource, Ledger, resource_in, insert_resource}
use tarmac.Ledger.Methods.{add_resource, register_resource}
use tarmac.Ledger.Allocate.{emit}
use tarmac.Ledger.Calls.{
  Call, register, commit_digest, seal, reveal_bid, submit, release_claim, rule, withdraw, kill,
  perform, perform_all, new_ledger,
}
use tarmac.Ledger.Frames.{emit_frame}
use tarmac.Ledger.Constraints.{IsConsistent, Consistent, IsConsistent-register}
use tarmac.Ledger.Constraints.Steps.{Within}
use tarmac.Ledger.Constraints.Operations.{
  commit-Stable, seal_and_commit-Stable, reveal-Stable, submit_plain-Stable, release-Stable,
  withdraw_claim-Stable, void_claim-Stable, apply_ruling_ops-Stable,
}

add_resource-Consistent : (x : Resource) → Stable Consistent (add_resource x)
unfolding add_resource insert_resource ◌>>=◌
add_resource-Consistent x = record {
  after = λ l h. elim (Option-cases (resource_in x.id l.resources)) [
    | inl fresh ↦
        rw (fresh, insert_resource, fresh)
          (IsConsistent-register l.resources l.allocations x fresh h)
    | inr (y, known) ↦ rw known h
  ];
}

pub emit-Consistent :
    (kind : String) (body : Json) (round : ℕ) → Stable Consistent (emit kind body round)
emit-Consistent kind body round = record { after = λ l h. rw emit_frame h }

pub register-Consistent :
    (id : String) (capacity : ℤ) (group : Option String)
    → Stable Consistent (register_resource id capacity group)
unfolding register_resource
register-Consistent id (negsuc n) group = search stable_rules
register-Consistent id (pos capacity) group =
    Stable-bind _ _
      (Stable-transaction restore _ (λ before after h k. h) (add_resource-Consistent _))
      (λ _. emit-Consistent "resource" _ 0)

-- A method that stays within its resources keeps the invariant.
pub kept :
    {A : Type 0} (m : Exec Ledger A) (l : Ledger)
    → Stable (Within l.resources) m
    → Consistent l
    → Consistent (m l).1
kept m l km h =
    let (same, after) = km.after l (refl, h) in
    subst (λ rs. IsConsistent rs (m l).1.allocations) (sym same) after

pub perform-Consistent : (c : Call) (l : Ledger) → Consistent l → Consistent (perform c l)
unfolding perform
perform-Consistent (register id capacity group) l h =
    (register-Consistent id capacity group).after l h
perform-Consistent (commit_digest agent digest round) l h =
    kept _ l (commit-Stable _ agent digest round) h
perform-Consistent (seal p nonce round) l h = kept _ l (seal_and_commit-Stable _ p nonce round) h
perform-Consistent (reveal_bid id p nonce round) l h = kept _ l (reveal-Stable _ id p nonce round) h
perform-Consistent (submit p round) l h = kept _ l (submit_plain-Stable _ p round) h
perform-Consistent (release_claim agent c bs round) l h =
    kept _ l (release-Stable _ agent c bs round) h
perform-Consistent (rule ops ruling_id round) l h =
    kept _ l (apply_ruling_ops-Stable _ ops ruling_id round) h
perform-Consistent (withdraw agent c round) l h = kept _ l (withdraw_claim-Stable _ agent c round) h
perform-Consistent (kill c reason round) l h = kept _ l (void_claim-Stable _ c reason round) h

pub perform_all-Consistent :
    (cs : List Call) (l : Ledger) → Consistent l → Consistent (perform_all cs l)
unfolding perform_all
perform_all-Consistent [] l h = h
perform_all-Consistent (c ∷ cs) l h =
    perform_all-Consistent cs (perform c l) (perform-Consistent c l h)

pub new_ledger-Consistent : (log : Option ChainLog) → Consistent (new_ledger log)
new_ledger-Consistent log = record {
  capacity = λ r x found. cc;
  registered = tt;
  unit = λ r b. omega arith;
  exclusive = λ g b. omega arith;
}

-- I1. After any sequence of calls on a fresh ledger, with or without a log, calls that raise
-- among them: no registered resource has more allocations than its capacity, every allocation
-- stands on a registered resource and carries its group, and no beneficiary holds two units of one
-- resource or two units in one exclusivity group.
pub perform_all-IsConsistent :
    (calls : List Call) (log : Option ChainLog)
    → let l = perform_all calls (new_ledger log) in IsConsistent l.resources l.allocations
perform_all-IsConsistent calls log =
    perform_all-Consistent calls (new_ledger log) (new_ledger-Consistent log)
