-- ===== src/Currency/Bank.antt =====
-- The bank's tables and fields, its constructor, balances and events.
use tarmac.Prelude.{
  ℕ, zero, suc, ◌+◌, ◌-◌, String, Bool, true, false, not, ◌&&◌, ◌||◌, Option, none, some, List, [],
  ◌∷◌, ◌++◌, map, findb, updateb, leb, ltb, if◌then◌else◌,
}
use tarmac.Prelude.Int.{ℤ, pos, negsuc}
use tarmac.Prelude.Text.{◌==◌, padded, text_leb, sort_by}
use tarmac.Json.{Json}
use tarmac.ChainLog.{ChainLog, LogEntry, append}
use tarmac.Schemas.{Position}
use tarmac.Storage.{
  Exec, Result, ok, err, currency_error, integrity_violation, bad_prices, negative_budget,
  unknown_agent, pure, raise, gets, expect, modify, transaction, ◌>>=◌, ◌>>◌,
}
use tarmac.Ledger.Tables.{is_some}
use tarmac.Ledger.Queries.{max_seq_from}

pub record Account : Type 0 where
  pub agent : String
  pub balance : ℕ

pub data ContestStatus : Type 0 where
  open_ won lost void_ : ContestStatus

pub record Contest : Type 0 where
  pub id : String
  pub agent : String
  pub target_claim : String
  pub round_opened : ℕ
  pub status : ContestStatus
  pub cost : ℕ
  pub position : Position

pub record SpendPoint : Type 0 where
  pub round : ℕ
  pub agent : String
  pub balance : ℕ

pub record Bank : Type 0 where
  pub balances : List Account
  pub contests : List Contest
  pub spend_curve : List SpendPoint
  pub contest_cost : ℕ
  pub premium : ℕ
  pub seq : ℕ
  pub log : Option ChainLog

abbrev pub restore : Bank → Bank → Bank
restore before after = record after {
  balances = before.balances;
  contests = before.contests;
  spend_curve = before.spend_curve;
}

abbrev pub account_in : String → List Account → Option Account
account_in a rows = findb (λ x. x.agent == a) rows

abbrev pub contest_in : String → List Contest → Option Contest
contest_in c rows = findb (λ x. x.id == c) rows

unfoldable pub keep_log : Bank → Result LogEntry × ChainLog → Result (Unit {0}) × Bank
keep_log b (ok entry, log) = (ok tt, record b { log = some log })
keep_log b (err e, log) = (err e, record b { log = some log })

unfoldable pub emit : String → Json → ℕ → Exec Bank Unit
unfolding keep_log
emit kind body round b = elim b.log [
  | none ↦ (ok tt, b)
  | some log ↦ keep_log b (append kind body round log)
]

-- INSERT INTO balances, for an agent without a row.
unfoldable pub add_account : String → ℤ → Exec Bank Unit
add_account a (negsuc n) = raise (currency_error (negative_budget a))
add_account a (pos v) = modify (λ b.
    if is_some (account_in a b.balances)
    then b
    else record b { balances = b.balances ++ record { agent = a; balance = v } ∷ [] })

unfoldable pub add_accounts : List (String × ℤ) → Exec Bank Unit
add_accounts [] = pure tt
add_accounts ((a, v) ∷ rest) = add_account a v >> add_accounts rest

budget_leb : String × ℤ → String × ℤ → Bool
budget_leb (a, _) (b, _) = text_leb a b

is_positive : ℤ → Bool
is_positive (pos zero) = false
is_positive (pos (suc n)) = true
is_positive (negsuc n) = false

is_negative : ℤ → Bool
is_negative (pos n) = false
is_negative (negsuc n) = true

abbrev pub magnitude : ℤ → ℕ
magnitude (pos n) = n
magnitude (negsuc n) = 0

-- The constructor's budgets, and its counter from the contests that the table holds.
unfoldable pub set_up : List (String × ℤ) → Exec Bank Unit
unfolding budget_leb
set_up budgets = do
  transaction restore (add_accounts (sort_by budget_leb budgets))
  modify (λ b. record b { seq = max_seq_from 0 (map (λ c. c.id) b.contests) })

-- CredibilityBank(storage, budgets, contest_cost, premium, chainlog) over existing tables.
unfoldable pub new_bank :
    List Account
    → List Contest
    → List SpendPoint
    → List (String × ℤ)
    → ℤ
    → ℤ
    → Option ChainLog
    → Result (Unit {0}) × Bank
unfolding set_up is_positive is_negative
new_bank accounts contests curve budgets cost premium log =
    let b : Bank = record {
      balances = accounts;
      contests = contests;
      spend_curve = curve;
      contest_cost = magnitude cost;
      premium = magnitude premium;
      seq = 0;
      log = log;
    } in
    if not (is_positive cost) || is_negative premium
    then (err (currency_error bad_prices), b)
    else set_up budgets b

unfoldable pub balance : String → Exec Bank ℕ
balance a = do
  row ← expect (← gets (λ b. account_in a b.balances)) (currency_error (unknown_agent a))
  pure row.balance

unfoldable pub can_contest : String → Exec Bank Bool
can_contest a = do v ← balance a; gets (λ b. leb b.contest_cost v)

-- f"x-{n:02d}"
unfoldable pub contest_id_text : ℕ → String
contest_id_text n = String.◌∷◌ "x" (String.◌∷◌ "-" (padded 2 n))

abbrev pub credited : ℕ → Account → Account
credited n x = record x { balance = x.balance + n }

abbrev pub debited : ℕ → Account → Account
debited n x = record x { balance = x.balance - n }

-- UPDATE balances SET balance = balance + ? WHERE agent=?
unfoldable pub credit : String → ℕ → Exec Bank Unit
credit a n =
    modify (λ b. record b { balances = updateb (λ x. x.agent == a) (credited n) b.balances })

-- A row that the CHECK (balance >= 0) would refuse.
abbrev pub overdrawn : String → ℕ → Account → Bool
overdrawn a n x = (x.agent == a) && ltb x.balance n

-- UPDATE balances SET balance = balance - ? WHERE agent=?
unfoldable pub charge : String → ℕ → Exec Bank Unit
charge a n b =
    if is_some (findb (overdrawn a n) b.balances)
    then (err integrity_violation, b)
    else (ok tt, record b { balances = updateb (λ x. x.agent == a) (debited n) b.balances })

unfoldable pub insert_contest : Contest → Exec Bank Unit
insert_contest c b =
    if is_some (contest_in c.id b.contests)
    then (err integrity_violation, b)
    else (ok tt, record b { contests = b.contests ++ c ∷ [] })
