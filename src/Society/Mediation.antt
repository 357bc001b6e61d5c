-- ===== src/Society/Mediation.antt =====
-- A ruling of the mediator: its citations are resolved, it is signed and logged, its operations
-- are applied one by one, and the contests that it decides are settled.
use tarmac.Prelude.{
  ℕ, suc, String, true, false, not, ◌&&◌, ◌||◌, Option, none, some, List, [], ◌∷◌, ◌++◌, map,
  is_empty, if◌then◌else◌,
}
use tarmac.Prelude.Text.{member, padded}
use tarmac.Prelude.Dict.{put_key}
use tarmac.Json.{dict, str, texts}
use tarmac.Storage.{Exec, ok, LedgerFault, pure, gets, modify, rescue, ◌>>=◌, ◌>>◌}
use tarmac.Schemas.{RulingOp}
use tarmac.Schemas.Rulings.{Ruling, SignedRuling, op_json, signed_json, signable_body}
use tarmac.Signing.{sign_body, public_hex}
use tarmac.Ledger.Ruling.{apply_ruling_ops}
use tarmac.Ledger.Faults.{fault_text}
use tarmac.Currency.Bank.{Contest}
use tarmac.Currency.Contests.{open_contests, settle, void_contest}
use tarmac.Deadlock.Detector.{Deadlock, reset_resource}
use tarmac.Society.State.{Setup, Society, on_ledger, on_bank, append_log}

-- f"r-{n:02d}"
abbrev pub ruling_id_text : ℕ → String
ruling_id_text n = String.◌∷◌ "r" (String.◌∷◌ "-" (padded 2 n))

unfoldable pub next_ruling_id : Exec Society String
next_ruling_id s = let n = suc s.ruling_seq in (ok (ruling_id_text n), record s { ruling_seq = n })

-- The hash of each citation that resolves, and those citations; the others are noted.
pub record Cited : Type 0 where
  pub hashes : List (String × String)
  pub valid : List String

unfoldable pub cite : String → Option String → Cited → String → ℕ → Exec Society Cited
cite c none cited ruling_id round =
    append_log "ruling_citation_dropped"
      (dict (("ruling_id", str ruling_id) ∷ ("citation", str c) ∷ [])) round
    >> pure cited
cite c (some sha256) cited ruling_id round =
    pure (record { hashes = put_key c sha256 cited.hashes; valid = cited.valid ++ c ∷ [] })

unfoldable pub cite_all :
    (String → Option String) → List String → Cited → String → ℕ → Exec Society Cited
cite_all sha256_of [] cited ruling_id round = pure cited
cite_all sha256_of (c ∷ cs) cited ruling_id round =
    cite c (sha256_of c) cited ruling_id round >>= λ more.
    cite_all sha256_of cs more ruling_id round

-- What of the contests a ruling decides.
pub data Decision : Type 0 where
  pass win lose refund : Decision

abbrev pub deadlock_claims : Option Deadlock → List String
deadlock_claims none = []
deadlock_claims (some d) = d.claims

abbrev pub deadlock_resources : Option Deadlock → List String
deadlock_resources none = []
deadlock_resources (some d) = d.resources

unfoldable pub decision_on : Ruling → Option Deadlock → Contest → Decision
decision_on r deadlock c =
    let relevant =
      member c.target_claim (map (λ o. o.claim_id) r.ops)
      || member c.target_claim (deadlock_claims deadlock) in
    if not relevant && not (member c.agent r.winners || member c.agent r.losers)
    then pass
    else if member c.agent r.winners
    then win
    else if member c.agent r.losers
    then lose
    else if relevant
    then refund
    else pass

unfoldable pub settle_by : Decision → String → ℕ → Exec Society Unit
settle_by pass id round = pure tt
settle_by win id round = on_bank (settle id true round)
settle_by lose id round = on_bank (settle id false round)
settle_by refund id round = on_bank (void_contest id round)

unfoldable pub settle_each : Ruling → Option Deadlock → List Contest → ℕ → Exec Society Unit
settle_each r deadlock [] round = pure tt
settle_each r deadlock (c ∷ cs) round =
    settle_by (decision_on r deadlock c) c.id round >> settle_each r deadlock cs round

-- _settle_contests
unfoldable pub settle_contests : Ruling → Option Deadlock → ℕ → Exec Society Unit
settle_contests r deadlock round =
    gets (λ s. open_contests s.bank) >>= λ contests. settle_each r deadlock contests round

unfoldable pub reset_all : List String → Exec Society Unit
reset_all [] = pure tt
reset_all (r ∷ rs) =
    modify (λ s. record s { detector = reset_resource r s.detector }) >> reset_all rs

unfoldable pub record_ruling : SignedRuling → Exec Society Unit
record_ruling signed =
    append_log "ruling" (signed_json signed) signed.round
    >> modify (λ s. record s { rulings = s.rulings ++ signed ∷ [] })

module _ (setup : Setup) where
  unfoldable pub op_rejected : String → RulingOp → ℕ → LedgerFault → Exec Society Unit
  op_rejected ruling_id o round fault =
      append_log "ruling_op_rejected"
        (dict (
          ("ruling_id", str ruling_id)
          ∷ ("op", op_json o)
          ∷ ("error", str (fault_text setup.repr fault))
          ∷ []))
        round

  -- Each operation by itself: one that the ledger refuses is noted.
  unfoldable pub apply_each : List RulingOp → String → ℕ → Exec Society Unit
  apply_each [] ruling_id round = pure tt
  apply_each (o ∷ os) ruling_id round =
      rescue (on_ledger (apply_ruling_ops (o ∷ []) ruling_id round)) (op_rejected ruling_id o round)
      >> apply_each os ruling_id round

  unfoldable pub signed_ruling : Ruling → List (String × String) → String → ℕ → SignedRuling
  signed_ruling r hashes ruling_id round =
      let unsigned : SignedRuling = record {
        ruling_id = ruling_id;
        round = round;
        body = r;
        citation_hashes = hashes;
        signature = "";
        signer_public_hex = public_hex setup.crypto setup.keypair;
      } in
      record unsigned { signature = sign_body setup.crypto (signable_body unsigned) setup.keypair }

  -- The second half of _sign_and_apply_ruling.
  unfoldable pub apply_ruling :
      Ruling
      → List (String × String)
      → String
      → Option Deadlock
      → ℕ
      → Exec Society (Option SignedRuling)
  apply_ruling r hashes ruling_id deadlock round = do
    let signed = signed_ruling r hashes ruling_id round
    record_ruling signed
    apply_each r.ops ruling_id round
    settle_contests r deadlock round
    reset_all (deadlock_resources deadlock)
    pure (some signed)

  unfoldable pub reject_ruling : Ruling → String → ℕ → Exec Society (Option SignedRuling)
  reject_ruling r ruling_id round =
      append_log "ruling_rejected"
        (dict (
          ("ruling_id", str ruling_id)
          ∷ ("reason", str "no resolvable citations")
          ∷ ("cited", texts r.citations)
          ∷ []))
        round
      >> pure none

  unfoldable pub apply_cited :
      Ruling → Cited → String → Option Deadlock → ℕ → Exec Society (Option SignedRuling)
  apply_cited r cited ruling_id deadlock round =
      if is_empty cited.valid
      then reject_ruling r ruling_id round
      else apply_ruling (record r { citations = cited.valid }) cited.hashes ruling_id deadlock round

  unfoldable pub resolve_and_apply :
      Option (String → Option String)
      → Ruling
      → String
      → Option Deadlock
      → ℕ
      → Exec Society (Option SignedRuling)
  resolve_and_apply none r ruling_id deadlock round = apply_ruling r [] ruling_id deadlock round
  resolve_and_apply (some sha256_of) r ruling_id deadlock round =
      cite_all sha256_of r.citations (record { hashes = []; valid = [] }) ruling_id round
      >>= λ cited. apply_cited r cited ruling_id deadlock round

  -- _sign_and_apply_ruling
  unfoldable pub sign_and_apply_ruling :
      Ruling → Option Deadlock → ℕ → Exec Society (Option SignedRuling)
  sign_and_apply_ruling r deadlock round =
      next_ruling_id >>= λ ruling_id. resolve_and_apply setup.sha256_of r ruling_id deadlock round
