-- ===== src/Schemas.antt =====
-- schemas.py: the wire types, and the validators that pydantic runs on them.
pub mod Rulings
use tarmac.Prelude.{
  ℕ, String, Bool, true, false, not, ◌&&◌, Option, List, [], ◌∷◌, length, ltb, eqb, is_empty,
}
use tarmac.Prelude.Text.{◌==◌, member}
use tarmac.Json.{Json, dict, number, str, bool, texts}

pub data ClaimStatus : Type 0 where
  proposed committed revealed granted blocked reveal_rejected : ClaimStatus
  revoked released voided withdrawn : ClaimStatus

-- The value of a StrEnum member, which is also its text.
abbrev pub status_text : ClaimStatus → String
status_text proposed = "proposed"
status_text committed = "committed"
status_text revealed = "revealed"
status_text granted = "granted"
status_text blocked = "blocked"
status_text reveal_rejected = "reveal_rejected"
status_text revoked = "revoked"
status_text released = "released"
status_text voided = "voided"
status_text withdrawn = "withdrawn"

abbrev pub is_granted : ClaimStatus → Bool
is_granted granted = true
is_granted _ = false

abbrev pub is_blocked : ClaimStatus → Bool
is_blocked blocked = true
is_blocked _ = false

pub record ClaimProposal : Type 0 where
  pub agent : String
  pub resource : String
  pub qty : ℕ
  pub beneficiaries : List String
  pub basis : String
  pub revocable : Bool
  pub payload : Json

-- len(set(texts)) == len(texts)
unfoldable pub all_distinct : List String → Bool
all_distinct [] = true
all_distinct (s ∷ ss) = not (member s ss) && all_distinct ss

-- The field constraints and `_qty_matches`: whether the constructor accepts the values.
unfoldable pub valid_proposal : ClaimProposal → Bool
valid_proposal p =
    ltb 0 p.qty
    && not (is_empty p.beneficiaries)
    && not (p.basis == "")
    && eqb (length p.beneficiaries) p.qty
    && all_distinct p.beneficiaries

-- canonical_dict: the dict that a commitment seals.
unfoldable pub canonical_dict : ClaimProposal → Json
canonical_dict p = dict (
    ("agent", str p.agent)
    ∷ ("resource", str p.resource)
    ∷ ("qty", number p.qty)
    ∷ ("beneficiaries", texts p.beneficiaries)
    ∷ ("basis", str p.basis)
    ∷ ("revocable", bool p.revocable)
    ∷ ("payload", p.payload)
    ∷ [])

pub record ClaimRecord : Type 0 where
  pub id : String
  pub proposal : ClaimProposal
  pub status : ClaimStatus
  pub round_committed : ℕ
  pub round_resolved : Option ℕ
  pub commitment_id : Option String
  pub holders : List String

pub data Stance : Type 0 where
  block support yield : Stance

pub record Position : Type 0 where
  pub agent : String
  pub stance : Stance
  pub target_claim : String
  pub argument : String
  pub citations : List String
  pub concession : Option String
  pub release : Option (List String)

abbrev pub is_block : Stance → Bool
is_block block = true
is_block _ = false

-- `argument` is not empty, and `_block_needs_citation`.
unfoldable pub valid_position : Position → Bool
valid_position p = not (p.argument == "") && not (is_block p.stance && is_empty p.citations)

pub data OpKind : Type 0 where
  revoke grant void : OpKind

pub record RulingOp : Type 0 where
  pub op : OpKind
  pub claim_id : String
  pub beneficiaries : Option (List String)

abbrev pub op_text : OpKind → String
op_text revoke = "revoke"
op_text grant = "grant"
op_text void = "void"
