-- ===== src/Ledger/Tables.antt =====
-- The tables of the ledger's SCHEMA, their keys, unique index and trigger, and the ledger object.
use tarmac.Prelude.{
  ℕ, String, Bool, true, false, ◌&&◌, ◌||◌, Option, none, some, List, [], ◌∷◌, ◌++◌, countb, findb,
  leb, if◌then◌else◌,
}
use tarmac.Prelude.Text.{◌==◌}
use tarmac.Json.{Json}
use tarmac.Schemas.{ClaimStatus}
use tarmac.ChainLog.{ChainLog}
use tarmac.Storage.{Exec, integrity_violation, ok, err}

pub record Resource : Type 0 where
  pub id : String
  pub capacity : ℕ
  pub group : Option String

pub record Allocation : Type 0 where
  pub resource : String
  pub beneficiary : String
  pub claim_id : String
  pub round : ℕ
  pub group : Option String

pub record Claim : Type 0 where
  pub id : String
  pub agent : String
  pub resource : String
  pub qty : ℕ
  pub beneficiaries : List String
  pub basis : String
  pub revocable : Bool
  pub payload : Json
  pub status : ClaimStatus
  pub round_committed : ℕ
  pub round_resolved : Option ℕ
  pub commitment_id : Option String

pub record Commitment : Type 0 where
  pub id : String
  pub agent : String
  pub digest : String
  pub round : ℕ
  pub revealed : Bool
  pub accepted : Option Bool
  pub nonce_hex : Option String
  pub claim_id : Option String

-- The four tables, in the order of insertion, and the object's own fields.
pub record Ledger : Type 0 where
  pub resources : List Resource
  pub allocations : List Allocation
  pub claims : List Claim
  pub commitments : List Commitment
  pub claim_seq : ℕ
  pub commit_seq : ℕ
  pub log : Option ChainLog

-- A rollback: the tables of `before`, the object's fields of `after`.
abbrev pub restore : Ledger → Ledger → Ledger
restore before after = record after {
  resources = before.resources;
  allocations = before.allocations;
  claims = before.claims;
  commitments = before.commitments;
}

-- WHERE tests.
abbrev pub on_resource : String → Allocation → Bool
on_resource r a = a.resource == r

abbrev pub under_claim : String → Allocation → Bool
under_claim c a = a.claim_id == c

abbrev pub same_group : String → Option String → Bool
same_group g none = false
same_group g (some h) = h == g

abbrev pub holds_in_group : String → String → Allocation → Bool
holds_in_group g b a = same_group g a.group && (a.beneficiary == b)

abbrev pub holds : String → String → Allocation → Bool
holds r b a = (a.resource == r) && (a.beneficiary == b)

abbrev pub resource_in : String → List Resource → Option Resource
resource_in r rows = findb (λ x. x.id == r) rows

abbrev pub find_resource : String → Ledger → Option Resource
find_resource r l = resource_in r l.resources

abbrev pub find_claim : String → Ledger → Option Claim
find_claim c l = findb (λ x. x.id == c) l.claims

abbrev pub find_commitment : String → Ledger → Option Commitment
find_commitment c l = findb (λ x. x.id == c) l.commitments

-- COUNT(*) of a resource's allocations.
abbrev pub used : String → Ledger → ℕ
used r l = countb (on_resource r) l.allocations

abbrev pub is_some {ℓ} : {A : Type ℓ} → Option A → Bool
is_some none = false
is_some (some a) = true

-- Whether the unique index ux_alloc_group refuses the row.
abbrev pub group_taken : Option String → String → List Allocation → Bool
group_taken none b rows = false
group_taken (some g) b rows = is_some (findb (holds_in_group g b) rows)

-- Whether trg_alloc_capacity aborts the insertion: no such resource, or it is full.
abbrev pub trigger_aborts : Option Resource → ℕ → Bool
trigger_aborts none n = true
trigger_aborts (some r) n = leb r.capacity n

-- INSERT INTO allocations: the trigger, the primary key and the unique index.
unfoldable pub insert_allocation : Allocation → Exec Ledger Unit
insert_allocation a l =
    if trigger_aborts (find_resource a.resource l) (used a.resource l)
      || (is_some (findb (holds a.resource a.beneficiary) l.allocations)
          || group_taken a.group a.beneficiary l.allocations)
    then (err integrity_violation, l)
    else (ok tt, record l { allocations = l.allocations ++ a ∷ [] })

unfoldable pub insert_resource : Resource → Exec Ledger Unit
insert_resource r l =
    if is_some (find_resource r.id l)
    then (err integrity_violation, l)
    else (ok tt, record l { resources = l.resources ++ r ∷ [] })

unfoldable pub insert_claim : Claim → Exec Ledger Unit
insert_claim c l =
    if is_some (find_claim c.id l)
    then (err integrity_violation, l)
    else (ok tt, record l { claims = l.claims ++ c ∷ [] })

unfoldable pub insert_commitment : Commitment → Exec Ledger Unit
insert_commitment c l =
    if is_some (find_commitment c.id l)
    then (err integrity_violation, l)
    else (ok tt, record l { commitments = l.commitments ++ c ∷ [] })
