-- ===== src/Schemas/Rulings.antt =====
-- Rulings, signed rulings, and the JSON that the log keeps of them and of positions.
use tarmac.Prelude.{ℕ, String, Bool, false, not, ◌&&◌, ◌||◌, List, [], ◌∷◌}
use tarmac.Prelude.Text.{◌==◌, codes, all_blank, text_leb, sort_by}
use tarmac.Json.{
  Json, Items, Fields, nil, cons, end, field, arr, obj, dict, number, str, texts, optional,
}
use tarmac.Schemas.{Position, Stance, block, support, yield, RulingOp, op_text}

pub record Ruling : Type 0 where
  pub deadlock_id : String
  pub decision : String
  pub rationale : String
  pub citations : List String
  pub ops : List RulingOp
  pub winners : List String
  pub losers : List String

-- any(c.strip() for c in v)
abbrev pub any_text : List String → Bool
any_text [] = false
any_text (c ∷ cs) = not (all_blank (codes c)) || any_text cs

-- The field constraints and `_nonempty_citations`: whether the constructor accepts the values.
unfoldable pub valid_ruling : Ruling → Bool
valid_ruling r = not (r.decision == "") && not (r.rationale == "") && any_text r.citations

pub record SignedRuling : Type 0 where
  pub ruling_id : String
  pub round : ℕ
  pub body : Ruling
  pub citation_hashes : List (String × String)
  pub signature : String
  pub signer_public_hex : String

abbrev pub stance_text : Stance → String
stance_text block = "block"
stance_text support = "support"
stance_text yield = "yield"

-- model_dump(mode="json")
unfoldable pub position_json : Position → Json
position_json p = dict (
    ("agent", str p.agent)
    ∷ ("stance", str (stance_text p.stance))
    ∷ ("target_claim", str p.target_claim)
    ∷ ("argument", str p.argument)
    ∷ ("citations", texts p.citations)
    ∷ ("concession", optional str p.concession)
    ∷ ("release", optional texts p.release)
    ∷ [])

unfoldable pub op_json : RulingOp → Json
op_json o = dict (
    ("op", str (op_text o.op))
    ∷ ("claim_id", str o.claim_id)
    ∷ ("beneficiaries", optional texts o.beneficiaries)
    ∷ [])

abbrev pub op_items : List RulingOp → Items
op_items [] = nil
op_items (o ∷ os) = cons (op_json o) (op_items os)

unfoldable pub ruling_json : Ruling → Json
ruling_json r = dict (
    ("deadlock_id", str r.deadlock_id)
    ∷ ("decision", str r.decision)
    ∷ ("rationale", str r.rationale)
    ∷ ("citations", texts r.citations)
    ∷ ("ops", arr (op_items r.ops))
    ∷ ("winners", texts r.winners)
    ∷ ("losers", texts r.losers)
    ∷ [])

abbrev pub text_fields : List (String × String) → Fields
text_fields [] = end
text_fields ((k, v) ∷ rest) = field k (str v) (text_fields rest)

hash_leb : String × String → String × String → Bool
hash_leb (c, _) (d, _) = text_leb c d

-- SignedRuling.signable_body
unfoldable pub signable_body : SignedRuling → Json
unfolding hash_leb
signable_body s = dict (
    ("ruling_id", str s.ruling_id)
    ∷ ("round", number s.round)
    ∷ ("body", ruling_json s.body)
    ∷ ("citation_hashes", obj (text_fields (sort_by hash_leb s.citation_hashes)))
    ∷ [])

unfoldable pub signed_json : SignedRuling → Json
signed_json s = dict (
    ("ruling_id", str s.ruling_id)
    ∷ ("round", number s.round)
    ∷ ("body", ruling_json s.body)
    ∷ ("citation_hashes", obj (text_fields s.citation_hashes))
    ∷ ("signature", str s.signature)
    ∷ ("signer_public_hex", str s.signer_public_hex)
    ∷ [])
