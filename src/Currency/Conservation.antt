-- ===== src/Currency/Conservation.antt =====
-- The books balance: what an agent holds and has staked is its budget and what came back.
pub mod Operations
pub mod Books
use tarmac.Prelude.{
  ℕ, suc, ◌+◌, ◌≤◌, String, ◌≡◌, refl, sym, subst, Bool, true, false, Option, none, some, List, [],
  ◌∷◌, ◌++◌, arith, inl, inr, Option-cases, Bool-cases, findb, countb, updateb, sumb, sumb-append,
  sumb-updateb, countb-updateb, countb-append, countb_of_none, if◌then◌else◌,
}
use tarmac.Prelude.Text.{◌==◌}
use tarmac.Json.{Json}
use tarmac.ChainLog.{append}
use tarmac.Schemas.{Position}
use tarmac.Storage.{
  Exec, Result, ok, err, ◌>>=◌, ◌>>◌, transaction, gets, expect, modify, pure, raise_if,
}
use tarmac.Storage.Stable.{Stable, stable_rules, Stable-bind, Stable-transaction}
use tarmac.Ledger.Tables.{is_some}
use tarmac.Currency.Bank.{
  Account, Contest, ContestStatus, open_, won, lost, void_, Bank, restore, account_in, contest_in,
  emit, credit, charge, insert_contest, credited, debited, overdrawn,
}
use tarmac.Currency.Contests.{
  stake, open_new, decline, open_or_reuse, open_contest, set_contest_status, with_status, open_row,
  pay_out, settle, void_contest, next_contest_id, is_open,
}

abbrev pub stake_of : String → Contest → ℕ
stake_of a c = if c.agent == a then c.cost else 0

-- What a contest has brought back: its stake, and for a won one the premium.
abbrev pub return_by : ContestStatus → ℕ → ℕ → ℕ
return_by won cost premium = cost + premium
return_by void_ cost premium = cost
return_by lost cost premium = 0
return_by open_ cost premium = 0

abbrev pub return_of : ℕ → String → Contest → ℕ
return_of premium a c = if c.agent == a then return_by c.status c.cost premium else 0

-- One row for each contest id, and for every account: balance + stakes = budget + returns.
pub record IsBalanced (budget : String → ℕ) (premium : ℕ) (accounts : List Account)
    (contests : List Contest) : Type 0 where
  pub unique : (id : String) → countb (λ c. c.id == id) contests ≤ 1
  pub books :
      (a : String) (x : Account)
      → account_in a accounts ≡ some x
      → x.balance + sumb (stake_of a) contests ≡ budget a + sumb (return_of premium a) contests

abbrev pub Balanced : (String → ℕ) → ℕ → Bank → Type 0
Balanced budget premium b = (b.premium ≡ premium) × IsBalanced budget premium b.balances b.contests

account-credited :
    (a y : String) (n : ℕ) (rows : List Account) (x : Account)
    → account_in a (updateb (λ z. z.agent == y) (credited n) rows) ≡ some x
    → (z : Account) × (account_in a rows ≡ some z)
      × (x.balance ≡ (if a == y then z.balance + n else z.balance))
account-credited a y n [] x e = absurd (ground arith)
account-credited a y n (w ∷ rows) x e = elim (Bool-cases (w.agent == a)) [
  | inl here ↦ (w, ground arith, ground arith)
  | inr later ↦
      let (z, found, value) = account-credited a y n rows x (ground arith) in
      (z, ground arith, value)
]

account-debited :
    (a y : String) (n : ℕ) (rows : List Account) (x : Account)
    → findb (overdrawn y n) rows ≡ none
    → account_in a (updateb (λ z. z.agent == y) (debited n) rows) ≡ some x
    → (z : Account) × (account_in a rows ≡ some z)
      × (z.balance ≡ (if a == y then x.balance + n else x.balance))
account-debited a y n [] x fits e = absurd (ground arith)
account-debited a y n (w ∷ rows) x fits e = elim (Bool-cases (w.agent == a)) [
  | inl here ↦ (w, ground arith, ground arith)
  | inr later ↦
      let (z, found, value) = account-debited a y n rows x (ground arith) (ground arith) in
      (z, ground arith, value)
]

module _ (budget : String → ℕ) (premium : ℕ) where
  pub emit-Balanced :
      (kind : String) (body : Json) (round : ℕ)
      → Stable (Balanced budget premium) (emit kind body round)
  unfolding emit
  emit-Balanced kind body round = record { after = λ b h. ground arith }

  -- A new open contest, paid for.
  pub staked-IsBalanced :
      (c : Contest) (accounts : List Account) (contests : List Contest)
      → c.status ≡ open_
      → findb (overdrawn c.agent c.cost) accounts ≡ none
      → contest_in c.id contests ≡ none
      → IsBalanced budget premium accounts contests
      → IsBalanced budget premium
          (updateb (λ z. z.agent == c.agent) (debited c.cost) accounts)
          (contests ++ c ∷ [])
  staked-IsBalanced c accounts contests new fits fresh h = record {
    unique = λ id.
        rw countb-append
          (ground (arith, h.unique id, countb_of_none (λ d. d.id == c.id) contests fresh));
    books = λ a x e.
        let (z, found, value) = account-debited a c.agent c.cost accounts x fits e in
        rw (sumb-append, sumb-append) (ground (arith, h.books a z found));
  }

  -- A contest that is settled, with what it brings back.
  pub settled-IsBalanced :
      (id : String) (c : Contest) (s : ContestStatus) (accounts : List Account)
      (contests : List Contest)
      → contest_in id contests ≡ some c
      → c.status ≡ open_
      → IsBalanced budget premium accounts contests
      → IsBalanced budget premium
          (updateb (λ z. z.agent == c.agent) (credited (return_by s c.cost premium)) accounts)
          (updateb (λ d. d.id == id) (with_status s) contests)
  settled-IsBalanced id c s accounts contests row was_open h = record {
    unique = λ i.
        rw (countb-updateb (λ d. d.id == i) (λ d. d.id == id) (with_status s) contests (λ x. refl))
          (h.unique i);
    books = λ a x e.
        let (z, found, value) =
          account-credited a c.agent (return_by s c.cost premium) accounts x e in
        ground (
          arith,
          h.books a z found,
          sumb-updateb (stake_of a) (λ d. d.id == id) (with_status s) contests c row (h.unique id),
          sumb-updateb (return_of premium a) (λ d. d.id == id) (with_status s) contests c row
              (h.unique id),
        );
  }

  pub burned-IsBalanced :
      (id : String) (c : Contest) (accounts : List Account) (contests : List Contest)
      → contest_in id contests ≡ some c
      → c.status ≡ open_
      → IsBalanced budget premium accounts contests
      → IsBalanced budget premium accounts (updateb (λ d. d.id == id) (with_status lost) contests)
  burned-IsBalanced id c accounts contests row was_open h = record {
    unique = λ i.
        rw
          (countb-updateb (λ d. d.id == i) (λ d. d.id == id) (with_status lost) contests
            (λ x. refl))
          (h.unique i);
    books = λ a x e. ground (
      arith,
      h.books a x e,
      sumb-updateb (stake_of a) (λ d. d.id == id) (with_status lost) contests c row (h.unique id),
      sumb-updateb (return_of premium a) (λ d. d.id == id) (with_status lost) contests c row
          (h.unique id),
    );
  }
