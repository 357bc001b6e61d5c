-- ===== src/Ledger/Allocate.antt =====
-- The all-or-nothing allocation of a claim's units, and its reverse.
use tarmac.Prelude.{
  ℕ, suc, ◌+◌, String, Bool, true, false, ◌&&◌, not, Option, none, some, List, [], ◌∷◌, length, ltb,
  findb, filterb, updateb, if◌then◌else◌,
}
use tarmac.Prelude.Int.{ℤ, pos, negsuc, sub_ℕ}
use tarmac.Prelude.Text.{◌==◌, concat, show_ℕ}
use tarmac.Json.{Json, dict, str}
use tarmac.ChainLog.{ChainLog, LogEntry, append}
use tarmac.Schemas.{ClaimStatus}
use tarmac.Storage.{
  Exec, ledger_error, no_allocation, index_error, pure, raise_if, gets, expect, modify, transaction,
  Result, ok, err, ◌>>=◌, ◌>>◌,
}
use tarmac.Ledger.Tables.{
  Allocation, Ledger, restore, find_resource, used, is_some, holds_in_group, under_claim, holds,
  insert_allocation,
}

-- self._emit: nothing without a log.
unfoldable pub keep_log : Ledger → Result LogEntry × ChainLog → Result (Unit {0}) × Ledger
keep_log l (ok entry, log) = (ok tt, record l { log = some log })
keep_log l (err e, log) = (err e, record l { log = some log })

unfoldable pub emit : String → Json → ℕ → Exec Ledger Unit
unfolding keep_log
emit kind body round l = elim l.log [
  | none ↦ (ok tt, l)
  | some log ↦ keep_log l (append kind body round log)
]

-- One low-level event for each beneficiary.
unfoldable pub emit_each : String → String → String → ℕ → List String → Exec Ledger Unit
emit_each kind r claim_id round [] = pure tt
emit_each kind r claim_id round (b ∷ bs) =
    emit kind
      (dict (("resource", str r) ∷ ("beneficiary", str b) ∷ ("claim_id", str claim_id) ∷ [])) round
    >> emit_each kind r claim_id round bs

show_ℤ : ℤ → String
show_ℤ (pos n) = show_ℕ n
show_ℤ (negsuc n) = concat ("-" ∷ show_ℕ (suc n) ∷ [])

-- The first beneficiary that holds a unit in the group, with the allocation.
unfoldable pub first_held : String → List String → List Allocation → Option (String × Allocation)
first_held g [] rows = none
first_held g (b ∷ bs) rows =
    let later = first_held g bs rows in
    elim (findb (holds_in_group g b) rows) [ none ↦ later | some a ↦ some (b, a) ]

-- The check of the exclusivity group; a resource without one has none.
unfoldable pub group_conflict :
    Option String → List String → List Allocation → Option (String × Allocation)
unfolding first_held
group_conflict none bs rows = none
group_conflict (some g) bs rows = first_held g bs rows

unfoldable pub insert_all : String → Option String → String → ℕ → List String → Exec Ledger Unit
insert_all r group claim_id round [] = pure tt
insert_all r group claim_id round (b ∷ bs) =
    insert_allocation
      (record { resource = r; beneficiary = b; claim_id = claim_id; round = round; group = group })
    >> insert_all r group claim_id round bs

pub capacity_reason : ℕ → ℕ → ℕ → String
capacity_reason capacity n wanted =
    concat
      ("capacity (" ∷ show_ℤ (sub_ℕ capacity n) ∷ " free < " ∷ show_ℕ wanted ∷ " requested)" ∷ [])

pub group_reason : Option String → String × Allocation → String
group_reason none held = ""
group_reason (some g) (b, a) =
    concat ("beneficiary " ∷ b ∷ " already holds " ∷ a.resource ∷ " in group " ∷ g ∷ [])

-- The end of _try_allocate: a conflict, or the insertions.
unfoldable pub insert_unless :
    Option (String × Allocation)
    → String
    → String
    → Option String
    → List String
    → ℕ
    → Exec Ledger (Bool × String)
insert_unless (some held) claim_id r group bs round = pure (false, group_reason group held)
insert_unless none claim_id r group bs round =
    insert_all r group claim_id round bs >> pure (true, "ok")

-- _try_allocate: the capacity check, the group check, then the insertions. An insertion that the
-- table refuses raises.
unfoldable pub try_allocate :
    String → String → Option String → List String → ℕ → Exec Ledger (Bool × String)
try_allocate claim_id r group bs round = do
  res ← expect (← gets (find_resource r)) index_error
  n ← gets (used r)
  conflict ← gets (λ l. group_conflict group bs l.allocations)
  if ltb res.capacity (n + length bs)
      then pure (false, capacity_reason res.capacity n (length bs))
      else insert_unless conflict claim_id r group bs round

-- WHERE resource_id=? AND beneficiary=? AND claim_id=?
abbrev pub is_allocation : String → String → String → Allocation → Bool
is_allocation r b claim_id a = holds r b a && under_claim claim_id a

unfoldable pub delete_all : String → String → List String → Exec Ledger Unit
delete_all claim_id r [] = pure tt
delete_all claim_id r (b ∷ bs) = do
  found ← gets (λ l. is_some (findb (is_allocation r b claim_id) l.allocations))
  raise_if (not found) (ledger_error (no_allocation r b claim_id))
  modify (λ l. record l {
    allocations = filterb (λ a. not (is_allocation r b claim_id a)) l.allocations;
  })
  delete_all claim_id r bs

-- _deallocate: all the deletions or none, then the events.
unfoldable pub deallocate : String → String → List String → ℕ → Exec Ledger Unit
deallocate claim_id r bs round =
    transaction restore (delete_all claim_id r bs) >> emit_each "dealloc" r claim_id round bs

-- UPDATE claims SET status=?, round_resolved=? WHERE id=?
unfoldable pub set_status : String → ClaimStatus → Option ℕ → Exec Ledger Unit
set_status claim_id status resolved = modify (λ l. record l {
  claims =
      updateb (λ c. c.id == claim_id) (λ c. record c { status = status; round_resolved = resolved })
        l.claims;
})
