-- ===== src/Society/Views.antt =====
-- mediator.py: the views that agents and mediators decide by.
use tarmac.Prelude.{ℕ, String, Bool, Option, none, some, List, [], ◌∷◌, ◌++◌, findb, if◌then◌else◌}
use tarmac.Prelude.Int.{ℤ, pos}
use tarmac.Prelude.Text.{◌==◌}
use tarmac.Json.{Json}
use tarmac.Schemas.{ClaimRecord, ClaimProposal, Position}
use tarmac.Schemas.Rulings.{Ruling, SignedRuling}
use tarmac.Currency.Bank.{Account, Contest}
use tarmac.Deadlock.Detector.{Deadlock}

pub record ResourceView : Type 0 where
  pub id : String
  pub capacity : ℕ
  pub group : Option String
  pub free : ℤ

-- Of the rulings the view has the JSON, which the signed rulings determine.
pub record AgentView : Type 0 where
  pub round : ℕ
  pub agent : String
  pub resources : List ResourceView
  pub granted_claims : List ClaimRecord
  pub blocked_claims : List ClaimRecord
  pub my_granted : List ClaimRecord
  pub my_blocked : List ClaimRecord
  pub open_contests : List Contest
  pub rulings : List SignedRuling
  pub balances : List Account
  pub scenario : Json
  pub own : Json

abbrev pub resource_view : String → List ResourceView → Option ResourceView
resource_view r rows = findb (λ x. x.id == r) rows

-- AgentView.free
unfoldable pub view_free : String → AgentView → ℤ
view_free r view = elim (resource_view r view.resources) [ none ↦ pos 0 | some x ↦ x.free ]

-- Whether a claim's resource is in the group that is asked for, if one is.
unfoldable pub in_view_group : Option String → String → AgentView → Bool
in_view_group none r view = Bool.true
in_view_group (some g) r view = elim (resource_view r view.resources) [
  | none ↦ Bool.false
  | some x ↦ elim x.group [ none ↦ Bool.false | some h ↦ h == g ]
]

unfoldable pub allocated_from : Option String → AgentView → List ClaimRecord → List String
allocated_from group view [] = []
allocated_from group view (rec ∷ recs) =
    let rest = allocated_from group view recs in
    if in_view_group group rec.proposal.resource view then rec.holders ++ rest else rest

-- AgentView.allocated_beneficiaries
unfoldable pub allocated_beneficiaries : Option String → AgentView → List String
allocated_beneficiaries group view = allocated_from group view view.granted_claims

pub record MediatorView : Type 0 where
  pub base : AgentView
  pub positions : List Position
  pub deadlocks : List Deadlock

-- An agent decides by what it sees.
pub record Agent : Type 0 where
  pub name : String
  pub propose : AgentView → List ClaimProposal
  pub respond : AgentView → List Position

pub record Mediator : Type 0 where
  pub rule : Deadlock → List Position → MediatorView → Ruling
  pub fiat : MediatorView → Ruling
