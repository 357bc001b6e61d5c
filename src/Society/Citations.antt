-- ===== src/Society/Citations.antt =====
-- I3: what the log of a run says of rulings.
use tarmac.Prelude.{
  ℕ, String, ◌≡◌, ◌∙◌, refl, subst, ap, true, false, not, ◌&&◌, Option, none, some, List, [], ◌∷◌,
  AllRows, AllRows-append, arith, is_empty, inl, inr, Bool-cases, eqb,
}
use tarmac.Prelude.Text.{◌==◌, text_discrete, codes, all_blank}
use tarmac.Json.{Json, get, texts, dict}
use tarmac.Storage.{ok, ◌>>=◌, pure, lift}
use tarmac.Storage.Runs.{bind_ok}
use tarmac.ChainLog.{ChainLog, LogEntry, append, genesis_kind}
use tarmac.ChainLog.Kept.{Keeps}
use tarmac.Signing.{verify_body, public_hex}
use tarmac.Signing.RoundTrip.{IsLawful, verify_body-sign_body}
use tarmac.Schemas.Rulings.{Ruling, SignedRuling, signable_body, signed_json, ruling_json}
use tarmac.Verify.Reveals.{cites, any_cites, ruling_cites, cite_entry, cite_entries}
use tarmac.Ledger.Constraints.{Consistent}
use tarmac.Currency.Conservation.Books.{opening, opening-Balanced}
use tarmac.Society.State.{Setup, Society}
use tarmac.Society.Mediation.{signed_ruling}
use tarmac.Society.Run.{run}
use tarmac.Society.Safety.{run-Sound}
use tarmac.Society.Steps.Run.{Obeys}
use tarmac.Society.Steps.Mediation.{Resolves, Admits}

module _ (setup : Setup) (f : String → Option String) where
  -- A ruling that may be in the log: it has citations, each resolves to the hash that is
  -- recorded, and the signature is the society's.
  pub record IsCited (signed : SignedRuling) : Type 0 where
    pub some_source : is_empty signed.body.citations ≡ false
    pub sources : AllRows (Resolves f signed.citation_hashes) signed.body.citations
    pub signer : signed.signer_public_hex ≡ public_hex setup.crypto setup.keypair
    pub signature :
        verify_body setup.crypto (signable_body signed) signed.signature signed.signer_public_hex
        ≡ true

  -- An entry of kind "ruling" is such a ruling.
  abbrev pub IsCitedEntry : LogEntry → Type 0
  IsCitedEntry e =
      (e.kind == "ruling") ≡ true
      → (signed : SignedRuling) × (e.body ≡ signed_json signed) × IsCited signed

  abbrev pub AllCited : ChainLog → Type 0
  AllCited log = AllRows IsCitedEntry log.rows

  append-AllCited :
      (kind : String) (body : Json) (round : ℕ) (log : ChainLog)
      → ((kind == "ruling") ≡ true
          → (signed : SignedRuling) × (body ≡ signed_json signed) × IsCited signed)
      → AllCited log
      → AllCited (append kind body round log).1
  unfolding append
  append-AllCited kind body round log is_cited h =
      elim (Bool-cases (eqb log.length 0 && not (kind == genesis_kind))) [
        | inl refused ↦ rw refused h
        | inr fine ↦ rw fine (AllRows-append IsCitedEntry log.rows _ h (is_cited, tt))
      ]

  AllCited-Keeps : Keeps AllCited
  AllCited-Keeps = record {
    appends = λ kind body round log other h.
        append-AllCited kind body round log (λ same. absurd (ground (arith, same, other))) h;
  }

  signed_ruling-IsCited :
      IsLawful setup.crypto
      → (r : Ruling) (hashes : List (String × String)) (id : String) (round : ℕ)
      → is_empty r.citations ≡ false
      → AllRows (Resolves f hashes) r.citations
      → IsCited (signed_ruling setup r hashes id round)
  unfolding signed_ruling signable_body
  signed_ruling-IsCited law r hashes id round left h = record {
    some_source = left;
    sources = h;
    signer = refl;
    signature = (verify_body-sign_body setup.crypto _ setup.keypair law).0;
  }

  any_ruling :
      setup.sha256_of ≡ some f → IsLawful setup.crypto → (r : Ruling) → Admits setup IsCited r
  any_ruling given law r = record {
    plain = λ none_given. absurd (ground (arith, given, none_given));
    resolved = λ g cited given' h left id round.
        signed_ruling-IsCited law (record r { citations = cited.valid }) cited.hashes id round left
          (subst (λ k. AllRows (Resolves k cited.hashes) cited.valid) (cc (given, given')) h);
  }

  obeys_citations : setup.sha256_of ≡ some f → IsLawful setup.crypto → Obeys setup IsCited
  obeys_citations given law = record {
    adjudicates = λ m d ps view at. any_ruling given law _;
    decrees = λ m view at. any_ruling given law _;
  }

  -- With a resolver `f` and a lawful Ed25519, from a ledger that meets its constraints, a bank
  -- without contests and a log whose rulings are as below: whatever the agents and the mediator
  -- do, after the run every entry of kind "ruling" is a signed ruling that has a citation, all of
  -- whose citations resolve to the hash that it records for them, and whose signature verifies
  -- under the society's public key.
  pub run-AllCited :
      (s : Society)
      → setup.sha256_of ≡ some f
      → IsLawful setup.crypto
      → Consistent s.ledger
      → s.bank.contests ≡ []
      → AllCited s.log
      → AllCited (run setup s).1.log
  run-AllCited s given law consistent no_contests log =
      (run-Sound AllCited AllCited-Keeps (opening s.bank) s.bank.premium IsCited
        (λ signed log may h.
          append-AllCited "ruling" (signed_json signed) signed.round log
            (λ same. (signed, refl, may)) h)
        setup (obeys_citations given law) s
        (consistent, opening-Balanced s.bank no_contests, log)).2

-- A citation that resolves is one of the texts that are not blank.
abbrev pub SkipsBlank : (String → Option String) → Type 0
SkipsBlank f = (c : String) → all_blank (codes c) ≡ true → f c ≡ none

any_cites-texts :
    (f : String → Option String) (hashes : List (String × String)) (cs : List String)
    → SkipsBlank f
    → is_empty cs ≡ false
    → AllRows (Resolves f hashes) cs
    → ruling_cites (some (dict (("citations", texts cs) ∷ []))) ≡ ok true
unfolding ruling_cites any_cites cites get text_discrete
any_cites-texts f hashes [] skips left h = absurd (ground (arith, left))
any_cites-texts f hashes (c ∷ cs) skips left ((sha256, at, _), h) =
    elim (Bool-cases (all_blank (codes c))) [
      | inl blank ↦ absurd (ground (arith, skips c blank, at))
      | inr fine ↦ rw fine refl
    ]

ruling_cites-ruling_json :
    (r : Ruling)
    → ruling_cites (some (ruling_json r))
      ≡ ruling_cites (some (dict (("citations", texts r.citations) ∷ [])))
unfolding ruling_cites ruling_json get text_discrete
ruling_cites-ruling_json r = refl

body_of_signed :
    (signed : SignedRuling) → get "body" (signed_json signed) ≡ some (ruling_json signed.body)
unfolding get signed_json text_discrete
body_of_signed signed = refl

-- The auditor finds nothing in such an entry, and nothing in such a log.
cite_entry-IsCited :
    (setup : Setup) (f : String → Option String) (e : LogEntry)
    → SkipsBlank f
    → IsCitedEntry setup f e
    → cite_entry e [] ≡ (ok tt, [])
unfolding cite_entry ◌>>=◌ pure lift
cite_entry-IsCited setup f e skips h = elim (Bool-cases (e.kind == "ruling")) [
  | inr other ↦ rw other refl
  | inl same ↦
      let (signed, at, cited) = h same in
      let body : get "body" e.body ≡ some (ruling_json signed.body) =
        ap (get "body") at ∙ body_of_signed signed in
      let found : ruling_cites (some (ruling_json signed.body)) ≡ ok true =
        ruling_cites-ruling_json signed.body
        ∙ any_cites-texts f signed.citation_hashes signed.body.citations skips cited.some_source
            cited.sources in
      rw (same, body, found) refl
]

cite_entries-AllCited :
    (setup : Setup) (f : String → Option String) (es : List LogEntry)
    → SkipsBlank f
    → AllRows (IsCitedEntry setup f) es
    → cite_entries es [] ≡ (ok tt, [])
unfolding cite_entries ◌>>=◌ pure
cite_entries-AllCited setup f [] skips h = refl
cite_entries-AllCited setup f (e ∷ es) skips (first, rest) =
    bind_ok (cite_entry e) (λ _. cite_entries es) [] [] tt
      (cite_entry-IsCited setup f e skips first)
    ∙ cite_entries-AllCited setup f es skips rest

-- With a resolver that knows no blank source, the same start, and the same agents and mediator:
-- the auditor's check I3, over the log that the run leaves, reads every ruling without an exception
-- and finds none that cites nothing.
pub run-passes_citation_check :
    (setup : Setup) (f : String → Option String) (s : Society)
    → setup.sha256_of ≡ some f
    → IsLawful setup.crypto
    → SkipsBlank f
    → Consistent s.ledger
    → s.bank.contests ≡ []
    → AllCited setup f s.log
    → cite_entries (run setup s).1.log.rows [] ≡ (ok tt, [])
run-passes_citation_check setup f s given law skips consistent no_contests log =
    cite_entries-AllCited setup f _ skips
      (run-AllCited setup f s given law consistent no_contests log)
