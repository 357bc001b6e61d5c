-- ===== src/Currency/Conservation/Books.antt =====
-- The books of a bank after any history of calls.
use tarmac.Prelude.{
  ℕ, ◌+◌, String, ◌≡◌, refl, subst, sym, Bool, true, false, Option, none, some, List, [], ◌∷◌,
  arith, sumb, if◌then◌else◌,
}
use tarmac.Prelude.Int.{ℤ, pos, negsuc}
use tarmac.ChainLog.{ChainLog}
use tarmac.Storage.{Result, modify}
use tarmac.Storage.Stable.{Stable, stable_rules, Stable-modify, Stable-bind, Stable-transaction}
use tarmac.Currency.Bank.{
  Account, Bank, restore, account_in, add_account, add_accounts, set_up, new_bank,
}
use tarmac.Currency.Reports.{snapshot}
use tarmac.Currency.Calls.{
  BankCall, contest, settle_contest, cancel_contest, take_snapshot, perform_bank, perform_bank_all,
}
use tarmac.Currency.Conservation.{Balanced, stake_of, return_of}
use tarmac.Currency.Conservation.Operations.{
  open_contest-Balanced, settle-Balanced, void_contest-Balanced,
}

-- What an agent starts with.
abbrev pub opening : Bank → String → ℕ
opening b a = elim (account_in a b.balances) [ none ↦ 0 | some x ↦ x.balance ]

-- The stakes of all of an agent's contests, and all that they brought back.
abbrev pub staked_by : String → Bank → ℕ
staked_by a b = sumb (stake_of a) b.contests

abbrev pub returned_to : String → Bank → ℕ
returned_to a b = sumb (return_of b.premium a) b.contests

module _ (budget : String → ℕ) (premium : ℕ) where
  perform_bank-Balanced :
      (c : BankCall) (b : Bank)
      → Balanced budget premium b
      → Balanced budget premium (perform_bank c b)
  unfolding perform_bank snapshot modify
  perform_bank-Balanced (contest p round) b h =
      (open_contest-Balanced budget premium p round).after b h
  perform_bank-Balanced (settle_contest id is_won round) b h =
      (settle-Balanced budget premium id is_won round).after b h
  perform_bank-Balanced (cancel_contest id round) b h =
      (void_contest-Balanced budget premium id round).after b h
  perform_bank-Balanced (take_snapshot round) b h = h

  pub perform_bank_all-Balanced :
      (cs : List BankCall) (b : Bank)
      → Balanced budget premium b
      → Balanced budget premium (perform_bank_all cs b)
  unfolding perform_bank_all
  perform_bank_all-Balanced [] b h = h
  perform_bank_all-Balanced (c ∷ cs) b h =
      perform_bank_all-Balanced cs (perform_bank c b) (perform_bank-Balanced c b h)

abbrev pub NoContests : Bank → Type 0
NoContests b = b.contests ≡ []

add_account-NoContests : (a : String) (v : ℤ) → Stable NoContests (add_account a v)
unfolding add_account
add_account-NoContests a (negsuc n) = search stable_rules
add_account-NoContests a (pos v) = Stable-modify _ (λ b h. ground arith)

add_accounts-NoContests : (bs : List (String × ℤ)) → Stable NoContests (add_accounts bs)
unfolding add_accounts
add_accounts-NoContests [] = search stable_rules
add_accounts-NoContests ((a, v) ∷ rest) =
    Stable-bind _ _ (add_account-NoContests a v) (λ _. add_accounts-NoContests rest)

set_up-NoContests : (bs : List (String × ℤ)) → Stable NoContests (set_up bs)
unfolding set_up
set_up-NoContests bs =
    Stable-bind _ _ (Stable-transaction restore _ (λ s s' h k. h) (add_accounts-NoContests _))
      (λ _. Stable-modify _ (λ b h. h))

-- CredibilityBank(...) on a fresh database.
abbrev pub fresh_bank : List (String × ℤ) → ℤ → ℤ → Option ChainLog → Bank
fresh_bank budgets cost premium log = (new_bank [] [] [] budgets cost premium log).1

either_bank :
    (refused : Bool) (m n : Result (Unit {0}) × Bank)
    → NoContests m.1
    → NoContests n.1
    → NoContests (if refused then m else n).1
either_bank true m n hm hn = hm
either_bank false m n hm hn = hn

pub fresh_bank-NoContests :
    (budgets : List (String × ℤ)) (cost premium : ℤ) (log : Option ChainLog)
    → NoContests (fresh_bank budgets cost premium log)
unfolding new_bank
fresh_bank-NoContests budgets cost premium log =
    either_bank _ _ _ refl ((set_up-NoContests budgets).after _ refl)

pub opening-Balanced : (b : Bank) → NoContests b → Balanced (opening b) b.premium b
opening-Balanced b h = (refl, record { unique = λ id. ground arith; books = λ a x e. ground arith })

-- What holds of the books of a new bank after any calls, failing ones included: an agent's
-- balance and all that it has staked are what it started with and all that came back.
pub perform_bank_all-conserves :
    (budgets : List (String × ℤ)) (cost premium : ℤ) (log : Option ChainLog) (calls : List BankCall)
    (a : String) (x : Account)
    → account_in a (perform_bank_all calls (fresh_bank budgets cost premium log)).balances ≡ some x
    → x.balance + staked_by a (perform_bank_all calls (fresh_bank budgets cost premium log))
      ≡ opening (fresh_bank budgets cost premium log) a
        + returned_to a (perform_bank_all calls (fresh_bank budgets cost premium log))
perform_bank_all-conserves budgets cost premium log calls a x e =
    let first = fresh_bank budgets cost premium log in
    let (same, h) =
      perform_bank_all-Balanced (opening first) first.premium calls first
        (opening-Balanced first (fresh_bank-NoContests budgets cost premium log)) in
    subst
      (λ p.
        x.balance + staked_by a (perform_bank_all calls first)
        ≡ opening first a + sumb (return_of p a) (perform_bank_all calls first).contests)
      (sym same) (h.books a x e)
