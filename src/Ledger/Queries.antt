-- ===== src/Ledger/Queries.antt =====
-- What the ledger reads: ids, free units, claims with their holders, and the manifest.
use tarmac.Prelude.{
  ℕ, max, String, Bool, Option, none, some, List, [], ◌∷◌, ◌++◌, map, filterb, findb, if◌then◌else◌,
}
use tarmac.Prelude.Int.{ℤ, sub_ℕ}
use tarmac.Prelude.Text.{◌==◌, padded, parse_int, second_part, sorted, text_leb, sort_by}
use tarmac.Json.{Json, Fields, end, field, obj, texts}
use tarmac.Canonical.{hash_obj}
use tarmac.Schemas.{ClaimStatus, ClaimRecord, is_granted, is_blocked}
use tarmac.Storage.{Exec, ledger_error, unknown_resource, unknown_claim, gets, expect, ◌>>=◌}
use tarmac.Ledger.Tables.{
  Allocation, Claim, Ledger, find_resource, find_claim, used, under_claim, holds_in_group,
}

-- f"c-{n:03d}" and f"m-{n:03d}"
unfoldable pub claim_id_text : ℕ → String
claim_id_text n = String.◌∷◌ "c" (String.◌∷◌ "-" (padded 3 n))

unfoldable pub commit_id_text : ℕ → String
commit_id_text n = String.◌∷◌ "m" (String.◌∷◌ "-" (padded 3 n))

-- int(id.split("-")[1]), where an IndexError or a ValueError skips the id.
unfoldable pub sequence_of : String → Option ℕ
sequence_of id = elim (second_part id) [ none ↦ none | some part ↦ parse_int part ]

-- The loop of _max_seq.
unfoldable pub max_seq_from : ℕ → List String → ℕ
max_seq_from best [] = best
max_seq_from best (id ∷ ids) =
    max_seq_from (elim (sequence_of id) [ none ↦ best | some n ↦ max best n ]) ids

-- ClaimLedger(storage, log) over existing tables: the counters go on from the largest id.
unfoldable pub reopen : Ledger → Ledger
reopen l = record l {
  claim_seq = max_seq_from 0 (map (λ c. c.id) l.claims);
  commit_seq = max_seq_from 0 (map (λ c. c.id) l.commitments);
}

-- The units of a resource that are left: capacity - used, on Python's integers.
unfoldable pub free : String → Exec Ledger ℤ
free r = do
  res ← expect (← gets (find_resource r)) (ledger_error (unknown_resource r))
  gets (λ l. sub_ℕ res.capacity (used r l))

-- SELECT beneficiary FROM allocations WHERE claim_id=? ORDER BY beneficiary
unfoldable pub holders_of : String → List Allocation → List String
holders_of c rows = sorted (map (λ a. a.beneficiary) (filterb (under_claim c) rows))

unfoldable pub record_of : Ledger → Claim → ClaimRecord
record_of l c = record {
  id = c.id;
  proposal = record {
    agent = c.agent;
    resource = c.resource;
    qty = c.qty;
    beneficiaries = c.beneficiaries;
    basis = c.basis;
    revocable = c.revocable;
    payload = c.payload;
  };
  status = c.status;
  round_committed = c.round_committed;
  round_resolved = c.round_resolved;
  commitment_id = c.commitment_id;
  holders = holders_of c.id l.allocations;
}

unfoldable pub claim : String → Exec Ledger ClaimRecord
claim c = do
  row ← expect (← gets (find_claim c)) (ledger_error (unknown_claim c))
  gets (λ l. record_of l row)

unfoldable pub claim_leb : Claim → Claim → Bool
claim_leb c d = text_leb c.id d.id

-- SELECT ... WHERE status IN (...) ORDER BY id
unfoldable pub claims_with_status : (ClaimStatus → Bool) → Ledger → List ClaimRecord
claims_with_status wanted l =
    map (record_of l) (sort_by claim_leb (filterb (λ c. wanted c.status) l.claims))

unfoldable pub blocked_claims : Ledger → List ClaimRecord
blocked_claims l = claims_with_status is_blocked l

unfoldable pub granted_claims : Ledger → List ClaimRecord
granted_claims l = claims_with_status is_granted l

-- resource -> claims' ids and beneficiaries, as a dict in the order of its first insertions.
unfoldable pub append_to {ℓ} :
    {V : Type ℓ} → String → V → List (String × List V) → List (String × List V)
append_to k v [] = (k, v ∷ []) ∷ []
append_to k v ((j, vs) ∷ rest) =
    if j == k then (j, vs ++ v ∷ []) ∷ rest else (j, vs) ∷ append_to k v rest

unfoldable pub allocation_leb : Allocation → Allocation → Bool
allocation_leb a b =
    if a.resource == b.resource
    then text_leb a.beneficiary b.beneficiary
    else text_leb a.resource b.resource

unfoldable pub by_resource :
    List (String × List (String × String))
    → List Allocation
    → List (String × List (String × String))
by_resource out [] = out
by_resource out (a ∷ rows) = by_resource (append_to a.resource (a.beneficiary, a.claim_id) out) rows

-- The dict of `allocations()`.
unfoldable pub allocations_by_resource : Ledger → List (String × List (String × String))
allocations_by_resource l = by_resource [] (sort_by allocation_leb l.allocations)

unfoldable pub beneficiary_resource : String → String → Ledger → Option String
beneficiary_resource g b l = elim (findb (holds_in_group g b) l.allocations) [
  | none ↦ none
  | some a ↦ some a.resource
]

-- resource -> sorted beneficiaries
unfoldable pub manifest : Ledger → List (String × List String)
manifest l =
    map (λ entry. (entry.0, sorted (map (λ pair. pair.0) entry.1))) (allocations_by_resource l)

unfoldable pub manifest_fields : List (String × List String) → Fields
manifest_fields [] = end
manifest_fields ((r, bs) ∷ rest) = field r (texts bs) (manifest_fields rest)

-- The manifest as the JSON that is logged and hashed.
unfoldable pub manifest_json : List (String × List String) → Json
manifest_json m = obj (manifest_fields m)

unfoldable pub manifest_hash : Ledger → String
manifest_hash l = hash_obj (manifest_json (manifest l))
