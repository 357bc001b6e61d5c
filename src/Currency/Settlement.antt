-- ===== src/Currency/Settlement.antt =====
-- A contest ends once.
use tarmac.Prelude.{
  ℕ, String, ◌≡◌, refl, sym, ◌∙◌, ap, subst, Bool, true, false, some, List, [], ◌∷◌, updateb, arith,
  inl, inr, Option-cases, Bool-cases, if◌then◌else◌,
}
use tarmac.Prelude.Text.{◌==◌}
use tarmac.Json.{Json}
use tarmac.Storage.{
  Exec, ok, err, ◌>>=◌, Error, currency_error, already_settled, unknown_contest, transaction,
}
use tarmac.Storage.Runs.{bind_ok, bind_err}
use tarmac.Currency.Bank.{Bank, Contest, ContestStatus, won, lost, void_, contest_in, emit, credit}
use tarmac.Currency.Contests.{
  is_open, with_status, set_contest_status, open_row, pay_out, settle_row, settle, void_contest,
}

-- The two ways in which a contest ends.
pub data Ending : Type 0 where
  settled : Bool → Ending
  voided : Ending

abbrev pub end_contest : Ending → String → ℕ → Exec Bank Unit
end_contest (settled is_won) id round = settle id is_won round
end_contest voided id round = void_contest id round

record IsClosed (id : String) (contests : List Contest) : Type 0 where
  row : Contest
  there : contest_in id contests ≡ some row
  closed : is_open row.status ≡ false

open_row-IsClosed :
    (id : String) (b : Bank)
    → IsClosed id b.contests
    → open_row id b ≡ (err (currency_error (already_settled id)), b)
unfolding open_row ◌>>=◌
open_row-IsClosed id b h = rw (h.there, h.closed) refl

end_contest-raises :
    (e : Ending) (id : String) (round : ℕ) (b : Bank) (f : Error)
    → open_row id b ≡ (err f, b)
    → end_contest e id round b ≡ (err f, b)
unfolding settle void_contest
end_contest-raises (settled is_won) id round b f h = bind_err (open_row id) _ b b f h
end_contest-raises voided id round b f h = bind_err (open_row id) _ b b f h

-- The row that is given a status that is not open is closed.
IsClosed-updateb :
    (id : String) (s : ContestStatus) (contests : List Contest) (c : Contest)
    → contest_in id contests ≡ some c
    → is_open s ≡ false
    → IsClosed id (updateb (λ x. x.id == id) (with_status s) contests)
IsClosed-updateb id s [] c at h = absurd (ground (arith, at))
IsClosed-updateb id s (x ∷ contests) c at h = elim (Bool-cases (x.id == id)) [
  | inl here ↦ rw here (record { row = with_status s x; there = rw here refl; closed = h })
  | inr later ↦
      let rest = IsClosed-updateb id s contests c (ground (arith, at, later)) h in
      rw later (record { row = rest.row; there = rw later rest.there; closed = rest.closed })
]

emit-contests :
    (kind : String) (body : Json) (round : ℕ) (b : Bank)
    → (emit kind body round b).1.contests ≡ b.contests
unfolding emit
emit-contests kind body round b = ground arith

settle_row-contests :
    (id : String) (is_won : Bool) (round : ℕ) (c : Contest) (premium : ℕ) (b : Bank)
    → (settle_row id is_won round c premium b).1.contests
      ≡ updateb (λ x. x.id == id) (with_status (if is_won then won else lost)) b.contests
unfolding settle_row pay_out set_contest_status credit transaction ◌>>=◌
settle_row-contests id true round c premium b = emit-contests "contest_settled" _ round _
settle_row-contests id false round c premium b = emit-contests "contest_settled" _ round _

after_row :
    (f : Contest → Exec Bank Unit) (rows : List Contest) (id : String) (b : Bank) (c : Contest)
    → open_row id b ≡ (ok c, b)
    → (f c b).1.contests ≡ rows
    → ((open_row id >>= f) b).1.contests ≡ rows
after_row f rows id b c opened h = ap (λ r. r.1.contests) (bind_ok (open_row id) f b b c opened) ∙ h

void_contest-contests :
    (id : String) (round : ℕ) (b : Bank) (c : Contest)
    → open_row id b ≡ (ok c, b)
    → (void_contest id round b).1.contests
      ≡ updateb (λ x. x.id == id) (with_status void_) b.contests
unfolding void_contest
void_contest-contests id round b c opened =
    after_row _ _ id b c opened
      (unfold transaction set_contest_status credit ◌>>=◌ in emit-contests "contest_void" _ round _)

settle-contests :
    (id : String) (is_won : Bool) (round : ℕ) (b : Bank) (c : Contest)
    → open_row id b ≡ (ok c, b)
    → (settle id is_won round b).1.contests
      ≡ updateb (λ x. x.id == id) (with_status (if is_won then won else lost)) b.contests
unfolding settle
settle-contests id is_won round b c opened =
    after_row _ _ id b c opened (unfold ◌>>=◌ in settle_row-contests id is_won round c b.premium b)

close_opened :
    (e : Ending) (id : String) (round : ℕ) (b : Bank) (c : Contest)
    → contest_in id b.contests ≡ some c
    → open_row id b ≡ (ok c, b)
    → IsClosed id (end_contest e id round b).1.contests
close_opened (settled true) id round b c there opened =
    subst (IsClosed id) (sym (settle-contests id true round b c opened))
      (IsClosed-updateb id won b.contests c there refl)
close_opened (settled false) id round b c there opened =
    subst (IsClosed id) (sym (settle-contests id false round b c opened))
      (IsClosed-updateb id lost b.contests c there refl)
close_opened voided id round b c there opened =
    subst (IsClosed id) (sym (void_contest-contests id round b c opened))
      (IsClosed-updateb id void_ b.contests c there refl)

-- An ending that returned leaves the contest closed.
ended-IsClosed :
    (e : Ending) (id : String) (round : ℕ) (b : Bank)
    → (end_contest e id round b).0 ≡ ok tt
    → IsClosed id (end_contest e id round b).1.contests
unfolding open_row ◌>>=◌
ended-IsClosed e id round b done = elim (Option-cases (contest_in id b.contests)) [
  | inl missing ↦
      let raised =
        end_contest-raises e id round b (currency_error (unknown_contest id))
          (rw (open_row, missing) refl) in
      absurd (ground (arith, ap (λ r. r.0) raised, done))
  | inr (c, there) ↦ elim (Bool-cases (is_open c.status)) [
    | inr closed ↦
        let raised =
          end_contest-raises e id round b (currency_error (already_settled id))
            (rw (open_row, there, closed) refl) in
        absurd (ground (arith, ap (λ r. r.0) raised, done))
    | inl still ↦ close_opened e id round b c there (rw (open_row, there, still) refl)
  ]
]

-- A contest ends once: after a call of settle, won or lost, or of void_contest that returned, every
-- such call on the contest raises that it is already settled, and leaves the bank as it is.
pub ended_once :
    (first second : Ending) (id : String) (round round' : ℕ) (b : Bank)
    → (end_contest first id round b).0 ≡ ok tt
    → end_contest second id round' (end_contest first id round b).1
      ≡ (err (currency_error (already_settled id)), (end_contest first id round b).1)
ended_once first second id round round' b done =
    let after = (end_contest first id round b).1 in
    end_contest-raises second id round' after (currency_error (already_settled id))
      (open_row-IsClosed id after (ended-IsClosed first id round b done))
