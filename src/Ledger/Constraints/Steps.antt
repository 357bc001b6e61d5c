-- ===== src/Ledger/Constraints/Steps.antt =====
-- The steps of an allocation and of its reverse keep the constraint invariant, and leave the
-- registered resources as they are.
use tarmac.Prelude.{
  ℕ, String, ◌≡◌, refl, sym, subst, Bool, Option, none, some, List, [], ◌∷◌, ◌++◌, arith, inl, inr,
  ◌⊎◌, filterb,
}
use tarmac.Json.{Json}
use tarmac.Schemas.{ClaimStatus}
use tarmac.Storage.{Exec, ok, gets, expect, modify, ◌>>=◌, Error}
use tarmac.Storage.Stable.{
  Stable, stable_rules, Stable-bind, Stable-gets, Stable-raise_if, Stable-transaction,
  Stable-modify,
}
use tarmac.Ledger.Tables.{
  Resource, Allocation, Claim, Ledger, resource_in, find_resource, insert_allocation, insert_claim,
  restore,
}
use tarmac.Ledger.Allocate.{
  emit, emit_each, insert_all, insert_unless, try_allocate, delete_all, deallocate, set_status,
}
use tarmac.Ledger.Frames.{emit_frame}
use tarmac.Ledger.Constraints.{
  IsConsistent, Insertable, insert_allocation-Insertable, IsConsistent-insertion,
  IsConsistent-filterb,
}

-- The invariant, with the registered resources given.
abbrev pub Within : List Resource → Ledger → Type 0
Within rs l = (l.resources ≡ rs) × IsConsistent rs l.allocations

pub Within-restore :
    (rs : List Resource) (before after : Ledger)
    → Within rs before
    → Within rs after
    → Within rs (restore before after)
Within-restore rs before after h k = h

insert_allocation_cases :
    (a : Allocation) (l : Ledger)
    → ((insert_allocation a l).1 ≡ l) ⊎ (insert_allocation a l ≡ (ok tt, (insert_allocation a l).1))
unfolding insert_allocation
insert_allocation_cases a l = ground arith

insert_allocation-Stable :
    (rs : List Resource) (a : Allocation) (x : Resource)
    → resource_in a.resource rs ≡ some x
    → x.group ≡ a.group
    → Stable (Within rs) (insert_allocation a)
insert_allocation-Stable rs a x known same = record {
  after = λ l h. elim (insert_allocation_cases a l) [
    | inl refused ↦ subst (Within rs) (sym refused) h
    | inr done ↦ inserted l h (insert_allocation-Insertable l (insert_allocation a l).1 a done)
  ];
}
  where
    group_of : {rows : List Allocation} (y : Resource) → Insertable rs rows a y → y.group ≡ a.group
    group_of y may = ground (arith, may.known)

    inserted :
        (l : Ledger)
        → Within rs l
        → (y : Resource) × Insertable l.resources l.allocations a y
          × ((insert_allocation a l).1 ≡ record l { allocations = l.allocations ++ a ∷ [] })
        → Within rs (insert_allocation a l).1
    inserted l (at, h) (y, may, after) =
        let may' : Insertable rs l.allocations a y =
          subst (λ u. Insertable u l.allocations a y) at may in
        subst (Within rs) (sym after)
          (at, IsConsistent-insertion rs l.allocations a y h may' (group_of y may'))

insert_all-Stable :
    (rs : List Resource) (r claim_id : String) (x : Resource) (round : ℕ) (bs : List String)
    → resource_in r rs ≡ some x
    → Stable (Within rs) (insert_all r x.group claim_id round bs)
unfolding insert_all
insert_all-Stable rs r claim_id x round [] known = search stable_rules
insert_all-Stable rs r claim_id x round (b ∷ bs) known =
    Stable-bind _ _ (insert_allocation-Stable rs _ x known refl)
      (λ _. insert_all-Stable rs r claim_id x round bs known)

insert_unless-Stable :
    (rs : List Resource) (conflict : Option (String × Allocation)) (claim_id r : String)
    (x : Resource) (bs : List String) (round : ℕ)
    → resource_in r rs ≡ some x
    → Stable (Within rs) (insert_unless conflict claim_id r x.group bs round)
unfolding insert_unless
insert_unless-Stable rs (some held) claim_id r x bs round known = search stable_rules
insert_unless-Stable rs none claim_id r x bs round known =
    search (stable_rules, insert_all-Stable rs r claim_id x round bs known)

pub try_allocate-Stable :
    (rs : List Resource) (claim_id r : String) (x : Resource) (bs : List String) (round : ℕ)
    → resource_in r rs ≡ some x
    → Stable (Within rs) (try_allocate claim_id r x.group bs round)
unfolding try_allocate
try_allocate-Stable rs claim_id r x bs round known =
    search
      (
        stable_rules,
        λ (c : Option (String × Allocation)). insert_unless-Stable rs c claim_id r x bs round known,
      )
      depth 9

delete_row-Within :
    (rs : List Resource) (keep : Allocation → Bool) (l : Ledger)
    → Within rs l
    → Within rs (record l { allocations = filterb keep l.allocations })
delete_row-Within rs keep l h = (h.0, IsConsistent-filterb rs l.allocations keep h.1)

delete_all-Stable :
    (rs : List Resource) (claim_id r : String) (bs : List String)
    → Stable (Within rs) (delete_all claim_id r bs)
unfolding delete_all
delete_all-Stable rs claim_id r [] = search stable_rules
delete_all-Stable rs claim_id r (b ∷ bs) = Stable-bind _ _ (Stable-gets _) λ found.
    Stable-bind _ _ (Stable-raise_if _ _) λ _.
      Stable-bind _ _ (Stable-modify _ (delete_row-Within rs _))
        λ _. delete_all-Stable rs claim_id r bs

pub emit-Stable :
    (rs : List Resource) (kind : String) (body : Json) (round : ℕ)
    → Stable (Within rs) (emit kind body round)
emit-Stable rs kind body round = record { after = λ l h. rw emit_frame h }

pub emit_each-Stable :
    (rs : List Resource) (kind r claim_id : String) (round : ℕ) (bs : List String)
    → Stable (Within rs) (emit_each kind r claim_id round bs)
unfolding emit_each
emit_each-Stable rs kind r claim_id round [] = search stable_rules
emit_each-Stable rs kind r claim_id round (b ∷ bs) =
    Stable-bind _ _ (emit-Stable rs kind _ round)
      (λ _. emit_each-Stable rs kind r claim_id round bs)

pub set_status-Stable :
    (rs : List Resource) (claim_id : String) (status : ClaimStatus) (resolved : Option ℕ)
    → Stable (Within rs) (set_status claim_id status resolved)
unfolding set_status modify
set_status-Stable rs claim_id status resolved = record { after = λ l h. h }

pub insert_claim-Stable : (rs : List Resource) (c : Claim) → Stable (Within rs) (insert_claim c)
unfolding insert_claim
insert_claim-Stable rs c = record { after = λ l h. ground arith }

pub deallocate-Stable :
    (rs : List Resource) (claim_id r : String) (bs : List String) (round : ℕ)
    → Stable (Within rs) (deallocate claim_id r bs round)
unfolding deallocate
deallocate-Stable rs claim_id r bs round =
    Stable-bind _ _
      (Stable-transaction restore _ (Within-restore rs) (delete_all-Stable rs claim_id r bs))
      (λ _. emit_each-Stable rs "dealloc" r claim_id round bs)

-- What follows a read of a registered resource may use that it is registered.
pub with_resource-Stable :
    {A : Type 0} (rs : List Resource) (r : String) (e : Error) (f : Resource → Exec Ledger A)
    → ((x : Resource) → resource_in r rs ≡ some x → Stable (Within rs) (f x))
    → Stable (Within rs) (gets (find_resource r) >>= λ o. expect o e >>= f)
unfolding ◌>>=◌
with_resource-Stable rs r e f kf = record {
  after = λ l h. by_row l h (resource_in r l.resources) refl;
}
  where
    by_row :
        (l : Ledger)
        → Within rs l
        → (o : Option Resource) → resource_in r l.resources ≡ o
        → Within rs ((expect o e >>= f) l).1
    by_row l h none missing = h
    by_row l h (some x) found = (kf x (subst (λ u. resource_in r u ≡ some x) h.0 found)).after l h
