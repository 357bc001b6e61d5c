-- ===== src/Society/Steps/Mediation.antt =====
-- The mediation of a round keeps it.
use tarmac.Prelude.{
  ℕ, suc, String, ◌≡◌, refl, true, false, Option, none, some, List, [], ◌∷◌, ◌++◌, is_empty,
  AllRows, AllRows-append, subst, sym, ap, ◌∙◌, arith, Bool-cases, inl, inr,
}
use tarmac.Prelude.Dict.{at_key, put_key, at_key-put_key}
use tarmac.Prelude.Text.{◌==◌}
use tarmac.Storage.Runs.{bind_returned}
use tarmac.Storage.{ok, pure}
use tarmac.Storage.Stable.{
  Stable, stable_rules, Stable-bind, Stable-bind_knowing, Stable-modify, Stable-rescue,
}
use tarmac.Schemas.{RulingOp}
use tarmac.Schemas.Rulings.{Ruling, SignedRuling}
use tarmac.Currency.Bank.{Contest}
use tarmac.Deadlock.Detector.{Deadlock}
use tarmac.Society.State.{Setup, Society, append_log}
use tarmac.Society.Mediation.{
  next_ruling_id, Cited, cite, cite_all, Decision, pass, win, lose, refund, settle_by, settle_each,
  settle_contests, reset_all, op_rejected, apply_each, signed_ruling, record_ruling, apply_ruling,
  reject_ruling, apply_cited, resolve_and_apply, sign_and_apply_ruling,
}
use tarmac.Society.Run.{run}
use tarmac.Society.Steps.{
  Rules, ruling_citation_dropped-Stable, ruling_rejected-Stable, ruling_op_rejected-Stable,
}

-- The citation resolves, and its hash is the one that is recorded.
abbrev pub Resolves : (String → Option String) → List (String × String) → String → Type 0
Resolves f hashes c = (sha256 : String) × (f c ≡ some sha256) × (at_key c hashes ≡ some sha256)

-- Every citation that is kept resolves.
abbrev pub Resolved : (String → Option String) → Cited → Type 0
Resolved f cited = AllRows (Resolves f cited.hashes) cited.valid

Resolves-put_key :
    (f : String → Option String) (hashes : List (String × String)) (c sha256 : String)
    (cs : List String)
    → f c ≡ some sha256
    → AllRows (Resolves f hashes) cs
    → AllRows (Resolves f (put_key c sha256 hashes)) cs
Resolves-put_key f hashes c sha256 [] at h = tt
Resolves-put_key f hashes c sha256 (k ∷ cs) at ((w, known, kept), h) =
    ((w, known, recorded), Resolves-put_key f hashes c sha256 cs at h)
  where
    recorded : at_key k (put_key c sha256 hashes) ≡ some w
    recorded = elim (Bool-cases (c == k)) [
      | inl same ↦
          let eq : c ≡ k = ground (arith, same) in
          at_key-put_key k c sha256 hashes ∙ rw same (sym at ∙ ap f eq ∙ known)
      | inr other ↦ at_key-put_key k c sha256 hashes ∙ rw other kept
    ]

-- What the setup lets a ruling be recorded as, whatever id and round it gets.
pub record Admits (setup : Setup) (Allowed : SignedRuling → Type 0) (r : Ruling) : Type 0 where
  pub plain :
      setup.sha256_of ≡ none
      → (id : String) (round : ℕ) → Allowed (signed_ruling setup r [] id round)
  pub resolved :
      (f : String → Option String) (cited : Cited)
      → setup.sha256_of ≡ some f
      → Resolved f cited
      → is_empty cited.valid ≡ false
      → (id : String) (round : ℕ)
      → Allowed (signed_ruling setup (record r { citations = cited.valid }) cited.hashes id round)

cite-Resolved :
    (f : String → Option String) (c : String) (o : Option String) (cited more : Cited) (id : String)
    (round : ℕ) (s : Society)
    → f c ≡ o
    → Resolved f cited
    → (cite c o cited id round s).0 ≡ ok more
    → Resolved f more
unfolding cite pure
cite-Resolved f c none cited more id round s at h done =
    let (_, _, run) =
      bind_returned (append_log "ruling_citation_dropped" _ round) (λ _. pure cited) s more done in
    let same : cited ≡ more = ground (arith, ap (λ p. p.0) run, done) in subst (Resolved f) same h
cite-Resolved f c (some sha256) cited more id round s at h done =
    let kept : Cited = record {
      hashes = put_key c sha256 cited.hashes;
      valid = cited.valid ++ c ∷ [];
    } in
    let same : kept ≡ more = ground (arith, done) in
    subst (Resolved f) same (
      AllRows-append (Resolves f kept.hashes) cited.valid (c ∷ [])
        (Resolves-put_key f cited.hashes c sha256 cited.valid at h)
        ((sha256, at, at_key-put_key c c sha256 cited.hashes ∙ ground arith), tt))

cite_all-Resolved :
    (f : String → Option String) (cs : List String) (cited more : Cited) (id : String) (round : ℕ)
    (s : Society)
    → Resolved f cited
    → (cite_all f cs cited id round s).0 ≡ ok more
    → Resolved f more
unfolding cite_all pure
cite_all-Resolved f [] cited more id round s h done =
    let same : cited ≡ more = ground (arith, done) in subst (Resolved f) same h
cite_all-Resolved f (c ∷ cs) cited more id round s h done =
    let (first, part, run) =
      bind_returned (cite c (f c) cited id round) (λ m. cite_all f cs m id round) s more done in
    cite_all-Resolved f cs first more id round (cite c (f c) cited id round s).1
      (cite-Resolved f c (f c) cited first id round s refl h part) (ap (λ p. p.0) (sym run) ∙ done)

module _ (Allowed : SignedRuling → Type 0) (P : Society → Type 0) (rules : Rules Allowed P) where
  settle_by-Stable : (d : Decision) (id : String) (round : ℕ) → Stable P (settle_by d id round)
  unfolding settle_by
  settle_by-Stable pass id round = search stable_rules
  settle_by-Stable win id round = rules.settles id true round
  settle_by-Stable lose id round = rules.settles id false round
  settle_by-Stable refund id round = rules.refunds id round

  settle_each-Stable :
      (r : Ruling) (d : Option Deadlock) (cs : List Contest) (round : ℕ)
      → Stable P (settle_each r d cs round)
  unfolding settle_each
  settle_each-Stable r d [] round = search stable_rules
  settle_each-Stable r d (c ∷ cs) round =
      Stable-bind _ _ (settle_by-Stable _ c.id round) (λ _. settle_each-Stable r d cs round)

  settle_contests-Stable :
      (r : Ruling) (d : Option Deadlock) (round : ℕ) → Stable P (settle_contests r d round)
  unfolding settle_contests
  settle_contests-Stable r d round = search (stable_rules, settle_each-Stable)

  reset_all-Stable : (rs : List String) → Stable P (reset_all rs)
  unfolding reset_all
  reset_all-Stable [] = search stable_rules
  reset_all-Stable (r ∷ rs) =
      Stable-bind _ _
        (Stable-modify _ (λ s h.
          rules.own_fields s _ s.nonces_drawn s.ruling_seq s.reveal_rejections s.positions
            s.deadlocks s.rulings h))
        (λ _. reset_all-Stable rs)

  next_ruling_id-Stable : Stable P next_ruling_id
  unfolding next_ruling_id
  next_ruling_id-Stable = record {
    after = λ s h.
        rules.own_fields s s.detector s.nonces_drawn (suc s.ruling_seq) s.reveal_rejections
          s.positions s.deadlocks s.rulings h;
  }

  record_ruling-Stable : (signed : SignedRuling) → Allowed signed → Stable P (record_ruling signed)
  unfolding record_ruling
  record_ruling-Stable signed may = Stable-bind _ _ (rules.records signed may) (λ _.
      Stable-modify _ (λ s h.
        rules.own_fields s s.detector s.nonces_drawn s.ruling_seq s.reveal_rejections s.positions
          s.deadlocks _ h))

  cite-Stable :
      (c : String) (o : Option String) (cited : Cited) (id : String) (round : ℕ)
      → Stable P (cite c o cited id round)
  unfolding cite
  cite-Stable c none cited id round =
      Stable-bind _ _ (ruling_citation_dropped-Stable Allowed P rules _ round)
        (λ _. search stable_rules)
  cite-Stable c (some h) cited id round = search stable_rules

  cite_all-Stable :
      (f : String → Option String) (cs : List String) (cited : Cited) (id : String) (round : ℕ)
      → Stable P (cite_all f cs cited id round)
  unfolding cite_all
  cite_all-Stable f [] cited id round = search stable_rules
  cite_all-Stable f (c ∷ cs) cited id round =
      Stable-bind _ _ (cite-Stable c (f c) cited id round)
        (λ more. cite_all-Stable f cs more id round)

  module _ (setup : Setup) where
    apply_each-Stable :
        (os : List RulingOp) (id : String) (round : ℕ) → Stable P (apply_each setup os id round)
    unfolding apply_each op_rejected
    apply_each-Stable [] id round = search stable_rules
    apply_each-Stable (o ∷ os) id round =
        Stable-bind _ _
          (Stable-rescue _ _ (rules.applies (o ∷ []) id round)
            (λ f. ruling_op_rejected-Stable Allowed P rules _ round))
          (λ _. apply_each-Stable os id round)

    apply_ruling-Stable :
        (r : Ruling) (hashes : List (String × String)) (id : String) (d : Option Deadlock)
        (round : ℕ)
        → Allowed (signed_ruling setup r hashes id round)
        → Stable P (apply_ruling setup r hashes id d round)
    unfolding apply_ruling
    apply_ruling-Stable r hashes id d round may = Stable-bind _ _ (record_ruling-Stable _ may) (λ _.
        Stable-bind _ _ (apply_each-Stable r.ops id round) (λ _.
          Stable-bind _ _ (settle_contests-Stable r d round)
            (λ _. Stable-bind _ _ (reset_all-Stable _) (λ _. search stable_rules))))

    apply_cited-Stable :
        (r : Ruling) (f : String → Option String) (cited : Cited) (id : String)
        (d : Option Deadlock) (round : ℕ)
        → setup.sha256_of ≡ some f
        → Resolved f cited
        → Admits setup Allowed r
        → Stable P (apply_cited setup r cited id d round)
    unfolding apply_cited reject_ruling
    apply_cited-Stable r f cited id d round at h may = elim (Bool-cases (is_empty cited.valid)) [
      | inl none_left ↦ rw none_left (
          Stable-bind _ _ (ruling_rejected-Stable Allowed P rules _ round)
            (λ _. search stable_rules))
      | inr some_left ↦ rw some_left (
          apply_ruling-Stable (record r { citations = cited.valid }) cited.hashes id d round
            (may.resolved f cited at h some_left id round))
    ]

    resolve_and_apply-Stable :
        (o : Option (String → Option String)) (r : Ruling) (id : String) (d : Option Deadlock)
        (round : ℕ)
        → setup.sha256_of ≡ o
        → Admits setup Allowed r
        → Stable P (resolve_and_apply setup o r id d round)
    unfolding resolve_and_apply
    resolve_and_apply-Stable none r id d round at may =
        apply_ruling-Stable r [] id d round (may.plain at id round)
    resolve_and_apply-Stable (some f) r id d round at may =
        Stable-bind_knowing _ _ (cite_all-Stable f r.citations _ id round) (λ cited s done.
          apply_cited-Stable r f cited id d round at
            (cite_all-Resolved f r.citations _ cited id round s tt done) may)

    pub sign_and_apply_ruling-Stable :
        (r : Ruling) (d : Option Deadlock) (round : ℕ)
        → Admits setup Allowed r
        → Stable P (sign_and_apply_ruling setup r d round)
    unfolding sign_and_apply_ruling
    sign_and_apply_ruling-Stable r d round may =
        Stable-bind _ _ next_ruling_id-Stable
          (λ id. resolve_and_apply-Stable setup.sha256_of r id d round refl may)
