-- ===== src/Currency/Calls.antt =====
-- A client's calls of the bank's methods that write, one after the other. An exception ends its
-- own call, and the next call finds the bank as the exception left it.
use tarmac.Prelude.{ℕ, String, Bool, List, [], ◌∷◌}
use tarmac.Schemas.{Position}
use tarmac.Currency.Bank.{Bank}
use tarmac.Currency.Contests.{open_contest, settle, void_contest}
use tarmac.Currency.Reports.{snapshot}

pub data BankCall : Type 0 where
  contest : Position → ℕ → BankCall
  settle_contest : String → Bool → ℕ → BankCall
  cancel_contest : String → ℕ → BankCall
  take_snapshot : ℕ → BankCall

-- The bank after a call.
unfoldable pub perform_bank : BankCall → Bank → Bank
perform_bank (contest p round) b = (open_contest p round b).1
perform_bank (settle_contest id is_won round) b = (settle id is_won round b).1
perform_bank (cancel_contest id round) b = (void_contest id round b).1
perform_bank (take_snapshot round) b = (snapshot round b).1

unfoldable pub perform_bank_all : List BankCall → Bank → Bank
perform_bank_all [] b = b
perform_bank_all (c ∷ cs) b = perform_bank_all cs (perform_bank c b)
