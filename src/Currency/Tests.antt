-- ===== src/Currency/Tests.antt =====
-- Tests of the bank, and its theorems at concrete histories.
use tarmac.Prelude.{String, ◌+◌, ◌≡◌, refl, List, [], ◌∷◌, none, some, true, false}
use tarmac.Prelude.Int.{ℤ, pos}
use tarmac.Schemas.{Position, block}
use tarmac.Currency.Bank.{
  Bank, can_contest, balance, new_bank, add_accounts, add_account, charge, contest_id_text, credit,
  emit, insert_contest, set_up, account_in,
}
use tarmac.Currency.Calls.{perform_bank, BankCall, contest, settle_contest, perform_bank_all}
use tarmac.Currency.Conservation.Books.{
  fresh_bank, opening, staked_by, returned_to, perform_bank_all-conserves,
}
use tarmac.Currency.Contests.{
  settle, open_row, open_contest, open_or_reuse, open_new, next_contest_id, stake, decline, pay_out,
  set_contest_status, settle_row,
}
use tarmac.Storage.{◌>>=◌, ok, err, currency_error, already_settled}
use tarmac.Currency.Settlement.{settled, voided, end_contest, ended_once}
use tarmac.Prelude.Text.{sort_by, text_discrete, padded, insert_by}
use tarmac.Ledger.Queries.{max_seq_from, sequence_of}

abbrev block_of : String → String → Position
block_of agent target = record {
  agent = agent;
  target_claim = target;
  stance = block;
  argument = "EU261 art. 8";
  citations = [];
  concession = none;
  release = none;
}

abbrev budgets : List (String × ℤ)
budgets = ("advocate", pos 10) ∷ ("rebooking", pos 3) ∷ []

-- A won contest and a lost one.
abbrev contests_of_day : List BankCall
contests_of_day =
    contest (block_of "advocate" "c-001") 1
    ∷ settle_contest "x-01" true 2
    ∷ contest (block_of "advocate" "c-002") 2
    ∷ settle_contest "x-02" false 2
    ∷ []

day_balance :
    account_in "advocate"
      (perform_bank_all contests_of_day (fresh_bank budgets (pos 4) (pos 3) none)).balances
    ≡ some (record { agent = "advocate"; balance = 9 })
unfolding perform_bank_all perform_bank settle ◌>>=◌ open_row open_contest can_contest balance
    new_bank add_accounts sort_by add_account text_discrete open_or_reuse open_new next_contest_id
    stake charge contest_id_text credit emit insert_contest set_up decline pay_out
    set_contest_status settle_row max_seq_from sequence_of padded insert_by
day_balance = refl

perform_bank_all-conserves_example :
    9
      + staked_by "advocate"
          (perform_bank_all contests_of_day (fresh_bank budgets (pos 4) (pos 3) none))
    ≡ opening (fresh_bank budgets (pos 4) (pos 3) none) "advocate"
      + returned_to "advocate"
          (perform_bank_all contests_of_day (fresh_bank budgets (pos 4) (pos 3) none))
perform_bank_all-conserves_example =
    perform_bank_all-conserves budgets (pos 4) (pos 3) none contests_of_day "advocate"
      (record { agent = "advocate"; balance = 9 }) day_balance

abbrev staked : Bank
staked =
    perform_bank (contest (block_of "advocate" "c-001") 1) (fresh_bank budgets (pos 4) (pos 3) none)

staked-settles : (end_contest (settled true) "x-01" 2 staked).0 ≡ ok tt
unfolding perform_bank_all perform_bank settle ◌>>=◌ open_row open_contest can_contest balance
    new_bank add_accounts sort_by add_account text_discrete open_or_reuse open_new next_contest_id
    stake charge contest_id_text credit emit insert_contest set_up decline pay_out
    set_contest_status settle_row max_seq_from sequence_of padded insert_by
staked-settles = refl

ended_once_example : end_contest voided "x-01" 3 (end_contest (settled true) "x-01" 2 staked).1 ≡ (
  err (currency_error (already_settled "x-01")),
  (end_contest (settled true) "x-01" 2 staked).1,
)
ended_once_example = ended_once (settled true) voided "x-01" 2 3 staked staked-settles
