-- ===== src/Ledger/Constraints.antt =====
-- The constraint invariant of the tables (I1), under one insertion and one deletion.
pub mod Steps
pub mod Operations
use tarmac.Prelude.{
  ℕ, ◌+◌, ◌≤◌, ◌<◌, String, ◌≡◌, refl, Bool, true, false, not, ◌&&◌, ◌||◌, Option, none, some, List,
  [], ◌∷◌, ◌++◌, arith, Option-cases, inl, inr, Bool-cases, countb, findb, filterb, countb-append,
  countb-filterb-le, findb-append_none, findb-append_some, countb_of_none, findb_holds, AllRows,
  AllRows-append, AllRows-filterb, AllRows-mono, if◌then◌else◌,
}
use tarmac.Prelude.Text.{◌==◌}
use tarmac.Storage.{ok, err}
use tarmac.Ledger.Tables.{
  Resource, Allocation, Ledger, on_resource, holds_in_group, holds, resource_in, is_some,
  group_taken, same_group, insert_allocation,
}

-- The allocation's resource is registered, with the allocation's group.
abbrev pub IsRegistered : List Resource → Allocation → Type 0
IsRegistered rs a = (x : Resource) × (resource_in a.resource rs ≡ some x) × (x.group ≡ a.group)

-- No resource over capacity, every allocation on a registered resource and in its group, at most
-- one unit of a resource for a beneficiary, and at most one unit of a group.
pub record IsConsistent (rs : List Resource) (rows : List Allocation) : Type 0 where
  pub capacity :
      (r : String) (x : Resource)
      → resource_in r rs ≡ some x
      → countb (on_resource r) rows ≤ x.capacity
  pub registered : AllRows (IsRegistered rs) rows
  pub unit : (r b : String) → countb (holds r b) rows ≤ 1
  pub exclusive : (g b : String) → countb (holds_in_group g b) rows ≤ 1

abbrev pub Consistent : Ledger → Type 0
Consistent l = IsConsistent l.resources l.allocations

-- What the table's constraints ask of a new row.
pub record Insertable (rs : List Resource) (rows : List Allocation) (a : Allocation) (x : Resource)
    : Type 0 where
  pub known : resource_in a.resource rs ≡ some x
  pub room : countb (on_resource a.resource) rows < x.capacity
  pub fresh : findb (holds a.resource a.beneficiary) rows ≡ none
  pub free_in_group : group_taken a.group a.beneficiary rows ≡ false

-- An insertion that the table takes met its constraints, and adds the row.
pub insert_allocation-Insertable :
    (l l' : Ledger) (a : Allocation)
    → insert_allocation a l ≡ (ok tt, l')
    → (x : Resource) × Insertable l.resources l.allocations a x
      × (l' ≡ record l { allocations = l.allocations ++ a ∷ [] })
unfolding insert_allocation
insert_allocation-Insertable l l' a e = elim (Option-cases (resource_in a.resource l.resources)) [
  | inl missing ↦ absurd (ground arith)
  | inr (x, known) ↦ (x, ground arith, ground arith)
]

module _ (rs : List Resource) (rows : List Allocation) (a : Allocation) (x : Resource)
    (h : IsConsistent rs rows) (may : Insertable rs rows a x) where
  capacity_after :
      (r : String) (y : Resource)
      → resource_in r rs ≡ some y
      → countb (on_resource r) (rows ++ a ∷ []) ≤ y.capacity
  capacity_after r y found =
      rw countb-append (ground (arith, h.capacity r y found, may.known, may.room))

  unit_after : (r b : String) → countb (holds r b) (rows ++ a ∷ []) ≤ 1
  unit_after r b =
      rw countb-append
        (ground (arith, h.unit r b, countb_of_none (holds a.resource a.beneficiary) rows may.fresh))

  exclusive_after : (g b : String) → countb (holds_in_group g b) (rows ++ a ∷ []) ≤ 1
  exclusive_after g b =
      rw countb-append (
        ground
          (arith, h.exclusive g b, countb_of_none (holds_in_group g b) rows, may.free_in_group))

  pub IsConsistent-insertion : x.group ≡ a.group → IsConsistent rs (rows ++ a ∷ [])
  IsConsistent-insertion same = record {
    capacity = capacity_after;
    registered =
        AllRows-append (IsRegistered rs) rows (a ∷ []) h.registered ((x, may.known, same), tt);
    unit = unit_after;
    exclusive = exclusive_after;
  }

pub IsConsistent-filterb :
    (rs : List Resource) (rows : List Allocation) (keep : Allocation → Bool)
    → IsConsistent rs rows
    → IsConsistent rs (filterb keep rows)
IsConsistent-filterb rs rows keep h = record {
  capacity =
      λ r x found. omega (arith, h.capacity r x found, countb-filterb-le (on_resource r) keep rows);
  registered = AllRows-filterb (IsRegistered rs) keep rows h.registered;
  unit = λ r b. omega (arith, h.unit r b, countb-filterb-le (holds r b) keep rows);
  exclusive =
      λ g b. omega (arith, h.exclusive g b, countb-filterb-le (holds_in_group g b) keep rows);
}

-- A resource that is not registered has no allocation.
unregistered_unused :
    (r : String) (rs : List Resource) (rows : List Allocation)
    → resource_in r rs ≡ none
    → AllRows (IsRegistered rs) rows
    → countb (on_resource r) rows ≡ 0
unregistered_unused r rs [] missing h = refl
unregistered_unused r rs (a ∷ rows) missing h =
    ground (arith, unregistered_unused r rs rows missing h.1, h.0.1)

IsRegistered-append :
    (rs : List Resource) (y : Resource) (a : Allocation)
    → IsRegistered rs a
    → IsRegistered (rs ++ y ∷ []) a
IsRegistered-append rs y a (x, known, same) =
    (x, findb-append_some (λ z. z.id == a.resource) rs (y ∷ []) x known, same)

pub IsConsistent-register :
    (rs : List Resource) (rows : List Allocation) (y : Resource)
    → resource_in y.id rs ≡ none
    → IsConsistent rs rows
    → IsConsistent (rs ++ y ∷ []) rows
IsConsistent-register rs rows y missing h = record {
  capacity = λ r x found. elim (Option-cases (resource_in r rs)) [
    | inl absent ↦ omega (arith, unregistered_unused r rs rows absent h.registered)
    | inr (z, present) ↦
        ground
          (arith, h.capacity r z present, findb-append_some (λ u. u.id == r) rs (y ∷ []) z present)
  ];
  registered = AllRows-mono (IsRegistered-append rs y) rows h.registered;
  unit = h.unit;
  exclusive = h.exclusive;
}
